-- ===== src/Session/Turns.antt =====
-- The turns that the dispatch loop of a session makes once the receive loop is over.
use pynq_sdk.Prelude.{
  ◌≡◌, refl, ℕ, suc, ◌+◌, ◌*◌, ◌≤◌, true, false, not, ◌||◌, Option, none, some, List, [], ◌∷◌, ◌++◌,
  length, arith,
}
use pynq_sdk.World.{Types, Externals}
use pynq_sdk.Session.{Item, closed, Dispatcher, idle, stopped, running, Session}
use pynq_sdk.Session.Loops.{State}
use pynq_sdk.Session.Steps.{Later, now, after}
use pynq_sdk.Session.Invariant.{no_sentinel, is_stopped}
use pynq_sdk.Session.Closed.{Move, stays, finishes, takes, turn, Step-Move}

-- The turns that the dispatch loop can still make, if nothing comes into the queue.
unfoldable pub work : List (Option Item) → Dispatcher → ℕ
work q stopped = 0
work q idle = 2 * length q
work q (running item) = suc (2 * length q)

pub work_most : (q : List (Option Item)) (d : Dispatcher) → work q d ≤ suc (2 * length q)
unfolding work
work_most q stopped = omega arith
work_most q idle = omega arith
work_most q (running item) = omega arith

-- The receive loop is over, and the dispatch loop is too or finds a sentinel.
pub record IsEnding (s : Session) : Type 0 where
  pub over : s.receiver ≡ closed
  pub marked : (is_stopped s.dispatcher || not (no_sentinel s.cmd_queue)) ≡ true

pub no_sentinel-marked : (q : List (Option Item)) → no_sentinel (q ++ none ∷ []) ≡ false
unfolding no_sentinel
no_sentinel-marked [] = refl
no_sentinel-marked (none ∷ q) = refl
no_sentinel-marked (some item ∷ q) = no_sentinel-marked q

Move-IsEnding :
    {s s' : Session} {n : ℕ} → s'.receiver ≡ closed → Move s s' n → IsEnding s → IsEnding s'
unfolding no_sentinel
Move-IsEnding c (stays q d) h = record { over = c; marked = rw (q, d) h.marked }
Move-IsEnding c (finishes item q d d') h = record {
  over = c;
  marked = ground (arith, h.marked, q, d, d');
}
Move-IsEnding c (takes none d q d') h = record { over = c; marked = rw d' refl }
Move-IsEnding c (takes (some item) d q d') h = record {
  over = c;
  marked = ground (arith, h.marked, q, d, d');
}

Move-work :
    {s s' : Session} {n : ℕ}
    → Move s s' n
    → n + work s'.cmd_queue s'.dispatcher ≤ work s.cmd_queue s.dispatcher
unfolding work
Move-work (stays q d) = rw (q, d) (omega arith)
Move-work (finishes item q d d') = rw (q, d, d') (omega arith)
Move-work {s} {s'} (takes item d q d') =
    rw (d, q) (let h = work_most s'.cmd_queue s'.dispatcher in omega arith)

module _ {t : Types} (x : Externals t) where
  -- How often the dispatch loop goes on in a run.
  unfoldable pub turns : {a b : State x} → Later x a b → ℕ
  turns now = 0
  turns (after later step) = turns later + turn x step

  pub Later-IsEnding : {a b : State x} → Later x a b → IsEnding a.0 → IsEnding b.0
  Later-IsEnding now h = h
  Later-IsEnding (after later step) h =
      let h' = Later-IsEnding later h in
      let (c, move) = Step-Move x step h'.over in Move-IsEnding c move h'

  pub turns-work :
      {a b : State x} (later : Later x a b)
      → IsEnding a.0
      → turns later + work b.0.cmd_queue b.0.dispatcher ≤ work a.0.cmd_queue a.0.dispatcher
  unfolding turns
  turns-work now h = omega arith
  turns-work (after {b} {c} later step) h =
      let h' = Later-IsEnding later h in
      let before = turns-work later h in
      let more = Move-work (Step-Move x step h'.over).1 in omega arith
