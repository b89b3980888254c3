-- ===== src/Session/Orphaned.antt =====
-- The disconnect that leaves the dispatch loop without an end.
use pynq_sdk.Session.Closed.{Move, stays, finishes, takes, Step-Move}
use pynq_sdk.Session.Steps.{Later, now, after}
use pynq_sdk.Prelude.{ℕ, ◌≤◌, ◌≡◌, ◌≢◌, refl, true, false, none, some, leb, length, arith}
use pynq_sdk.Python.Exception.{Exception, raised}
use pynq_sdk.World.{Types, World, Externals}
use pynq_sdk.Session.{reading, closed, stopped, Session, queue_depth}
use pynq_sdk.Session.Loops.{State, receive_step, on_disconnect}
use pynq_sdk.Session.Steps.{Step, Reachable}
use pynq_sdk.Session.Invariant.{no_sentinel, is_stopped}
use pynq_sdk.Session.Invariant.Kept.{Reachable-IsSound}

module _ {t : Types} (x : Externals t) where
  -- The receive loop has ended, and no sentinel is left for the dispatch loop.
  record IsOrphaned (s : Session) : Type 0 where
    ended : s.receiver ≡ closed
    unmarked : no_sentinel s.cmd_queue ≡ true
    unstopped : is_stopped s.dispatcher ≡ false

  Move-IsOrphaned :
      {s s' : Session} {n : ℕ} → s'.receiver ≡ closed → Move s s' n → IsOrphaned s → IsOrphaned s'
  unfolding no_sentinel
  Move-IsOrphaned c (stays q d) h = record {
    ended = c;
    unmarked = rw q h.unmarked;
    unstopped = rw d h.unstopped;
  }
  Move-IsOrphaned c (finishes item q d d') h = record {
    ended = c;
    unmarked = rw q h.unmarked;
    unstopped = rw d' refl;
  }
  Move-IsOrphaned c (takes none d q d') h = absurd (ground (arith, h.unmarked, q))
  Move-IsOrphaned c (takes (some item) d q d') h = record {
    ended = c;
    unmarked = ground (arith, h.unmarked, q);
    unstopped = d';
  }

  Step-IsOrphaned : {a b : State x} → Step x a b → IsOrphaned a.0 → IsOrphaned b.0
  Step-IsOrphaned step h = let (c, move) = Step-Move x step h.ended in Move-IsOrphaned c move h

  Later-IsOrphaned : {a b : State x} → Later x a b → IsOrphaned a.0 → IsOrphaned b.0
  Later-IsOrphaned now h = h
  Later-IsOrphaned (after l step) h = Step-IsOrphaned step (Later-IsOrphaned l h)

  -- A client that disconnects while the command queue is full leaves the dispatch loop behind: there
  -- is no room for the sentinel, and the loop is not stopped in any later state, not even once the
  -- queue is empty.
  pub disconnect_full :
      (e : Exception) {s : Session} {w : World t} {b : State x}
      → Reachable x (s, w)
      → s.receiver ≡ reading
      → queue_depth ≤ length s.cmd_queue
      → Later x (receive_step x (raised e) (s, w)) b
      → b.0.dispatcher ≢ stopped
  unfolding receive_step on_disconnect
  disconnect_full e {s} {w} reach r full later is_over =
      let h = Reachable-IsSound x reach in
      let no_room : leb queue_depth (length s.cmd_queue) ≡ true = ground arith in
      let orphaned : IsOrphaned (receive_step x (raised e) (s, w)).0 = rw no_room (record {
        ended = refl;
        unmarked = ground (arith, h.served, r);
        unstopped = ground (arith, h.served, r);
      }) in
      absurd (ground (arith, (Later-IsOrphaned later orphaned).unstopped, is_over))
