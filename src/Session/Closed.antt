-- ===== src/Session/Closed.antt =====
-- What the tasks of a session still do once its receive loop is over.
use pynq_sdk.Prelude.{
  ◌≡◌, refl, ◌∙◌, ap, ℕ, Bool, true, false, Option, none, some, List, [], ◌∷◌, if◌then◌else◌, arith,
}
use pynq_sdk.World.{Types, World, Externals}
use pynq_sdk.Python.Text.{Text}
use pynq_sdk.Dispatch.{dispatch_command}
use pynq_sdk.Session.{set_event, send_payload, Item, closed, idle, running, Session}
use pynq_sdk.Session.Loops.{State, take_item, finish_item, answer_item, emit_srq, end_run}
use pynq_sdk.Session.Channel.{open_channel, close_channel}
use pynq_sdk.Session.Apart.{SameLoops, handle-SameLoops, device_clear_end-SameLoops}
use pynq_sdk.Session.Steps.{
  Step, received, resumed, taken, finished, handled, clear_ended, opened, shut, ended, elsewhere,
}
use pynq_sdk.Session.Invariant.{is_stopped}

abbrev pub is_sentinel : Option Item → Bool
is_sentinel none = true
is_sentinel (some item) = false

-- One step after the receive loop, and the number of turns that the dispatch loop made in it: a command
-- is finished, an entry is taken from the front of the queue, and the loop is over if it was the
-- sentinel, or queue and loop are as before.
pub data Move (s s' : Session) : ℕ → Type 0 where
  stays : s'.cmd_queue ≡ s.cmd_queue → s'.dispatcher ≡ s.dispatcher → Move s s' 0
  finishes :
      (item : Item)
      → s'.cmd_queue ≡ s.cmd_queue
      → s.dispatcher ≡ running item
      → s'.dispatcher ≡ idle
      → Move s s' 1
  takes :
      (item : Option Item)
      → s.dispatcher ≡ idle
      → s.cmd_queue ≡ item ∷ s'.cmd_queue
      → is_stopped s'.dispatcher ≡ is_sentinel item
      → Move s s' 1

if-SameLoops :
    (b : Bool) (a a' s : Session)
    → SameLoops a s
    → SameLoops a' s
    → SameLoops (if b then a else a') s
if-SameLoops true a a' s h h' = h
if-SameLoops false a a' s h h' = h'

pub set_event-SameLoops :
    (o : Option ℕ) (s' s : Session) → SameLoops s' s → SameLoops (set_event o s') s
set_event-SameLoops none s' s h = h
set_event-SameLoops (some e) s' s h = record {
  same_queue = h.same_queue;
  same_receiver = h.same_receiver;
  same_dispatcher = h.same_dispatcher;
}

module _ {t : Types} (x : Externals t) where
  answer_item-SameLoops :
      (item : Item) (r : Text) (w : World t) (s : Session) → SameLoops (answer_item x item r w s) s
  unfolding send_payload emit_srq
  answer_item-SameLoops item [] w s = record {
    same_queue = refl;
    same_receiver = refl;
    same_dispatcher = refl;
  }
  answer_item-SameLoops item (c ∷ r) w s =
      if-SameLoops s.has_async_writer _ _ s
        (record { same_queue = refl; same_receiver = refl; same_dispatcher = refl })
        (record { same_queue = refl; same_receiver = refl; same_dispatcher = refl })

  pub finish_item-SameLoops :
      (item : Item) (s : Session) (w : World t)
      → SameLoops (finish_item x item (s, w)).0 (record s { dispatcher = idle })
  unfolding finish_item
  finish_item-SameLoops item s w =
      let (response, w') = dispatch_command x item.cmd_str w in
      set_event-SameLoops item.done_event _ _
        (answer_item-SameLoops item response w' (record s { dispatcher = idle }))

  take_item-Move :
      (item : Option Item) (q : List (Option Item)) (s : Session)
      → s.dispatcher ≡ idle
      → s.cmd_queue ≡ item ∷ q
      → let s' = take_item item (record s { cmd_queue = q }) in
        (s'.receiver ≡ s.receiver) × Move s s' 1
  take_item-Move none q s d e = (refl, takes none d e refl)
  take_item-Move (some item) q s d e = by_pending s.device_clear_pending refl
    where
      taken_by : Session
      taken_by = take_item (some item) (record s { cmd_queue = q })

      by_pending :
          (b : Bool)
          → s.device_clear_pending ≡ b
          → (taken_by.receiver ≡ s.receiver) × Move s taken_by 1
      by_pending true p =
          let h =
            set_event-SameLoops item.done_event _ (record s { cmd_queue = q })
              (record { same_queue = refl; same_receiver = refl; same_dispatcher = refl }) in
          rw p (
            h.same_receiver,
            takes (some item) d (rw h.same_queue e) (ap is_stopped h.same_dispatcher ∙ rw d refl),
          )
      by_pending false p = rw p (refl, takes (some item) d e refl)

  SameLoops-Move : {s' s : Session} → SameLoops s' s → Move s s' 0
  SameLoops-Move h = stays h.same_queue h.same_dispatcher

  -- the turns of the dispatch loop in a step
  abbrev pub turn : {a b : State x} → Step x a b → ℕ
  turn (taken d e) = 1
  turn (finished d) = 1
  turn _ = 0

  pub Step-Move :
      {a b : State x} (step : Step x a b)
      → a.0.receiver ≡ closed
      → (b.0.receiver ≡ closed) × Move a.0 b.0 (turn step)
  unfolding open_channel close_channel end_run
  Step-Move (received m r) c = absurd (ground (arith, c, r))
  Step-Move (resumed r set) c = absurd (ground (arith, c, r))
  Step-Move (taken {item} {q} {s} d e) c =
      let (r, move) = take_item-Move item q s d e in (r ∙ c, move)
  Step-Move (finished {item} {s} {w} d) c =
      let h = finish_item-SameLoops item s w in
      (h.same_receiver ∙ c, finishes item h.same_queue d h.same_dispatcher)
  Step-Move (handled m {s}) c =
      let h = handle-SameLoops m s in (h.same_receiver ∙ c, SameLoops-Move h)
  Step-Move (clear_ended waits timed_out {s} over) c =
      let h = device_clear_end-SameLoops waits s in (h.same_receiver ∙ c, SameLoops-Move h)
  Step-Move opened c = (c, stays refl refl)
  Step-Move shut c = (c, stays refl refl)
  Step-Move (ended r d) c = (c, stays refl refl)
  Step-Move (elsewhere w') c = (c, stays refl refl)
