-- ===== src/Session/Ended.antt =====
-- The disconnect that ends a session.
use pynq_sdk.Session.Turns.{
  work_most, IsEnding, no_sentinel-marked, turns, Later-IsEnding, turns-work,
}
use pynq_sdk.Prelude.{
  ◌≡◌, refl, ◌∙◌, suc, ◌*◌, ◌≤◌, ◌<◌, Bool, true, false, Option, none, some, List, [], ◌∷◌, ◌++◌,
  leb, if◌then◌else◌, length, length-append, arith,
}
use pynq_sdk.Python.Exception.{Exception, raised}
use pynq_sdk.World.{Types, World, Externals}
use pynq_sdk.Session.{
  Item, closed, Dispatcher, idle, stopped, running, Session, queue_depth, set_event,
}
use pynq_sdk.Session.Loops.{State, receive_step, take_item, finish_item, on_disconnect, end_run}
use pynq_sdk.Session.Steps.{taken, finished, ended, Later, now, after, Later-Later}
use pynq_sdk.Session.Invariant.{no_sentinel}
use pynq_sdk.Session.Closed.{finish_item-SameLoops, set_event-SameLoops}

-- A session that is over.
pub record IsOver (s : Session) : Type 0 where
  pub receiver : s.receiver ≡ closed
  pub dispatcher : s.dispatcher ≡ stopped
  pub shut : s.sync_open ≡ false

-- A session whose receive loop is over and whose dispatch loop waits at this queue.
record IsWaiting (q : List (Option Item)) (s : Session) : Type 0 where
  receiver : s.receiver ≡ closed
  dispatcher : s.dispatcher ≡ idle
  queue : s.cmd_queue ≡ q

module _ {t : Types} (x : Externals t) where
  from_stopped :
      (s : Session) (w : World t)
      → s.receiver ≡ closed
      → s.dispatcher ≡ stopped
      → (c : State x) × Later x (s, w) c × IsOver c.0
  unfolding end_run
  from_stopped s w r d =
      ((end_run s, w), after now (ended r d), record { receiver = r; dispatcher = d; shut = refl })

  abbrev Waits : List (Option Item) → State x → Type 0
  Waits q a = (c : State x) × Later x a c × IsWaiting q c.0

  finish-Waits :
      (item : Item) (q : List (Option Item)) (s : Session) (w : World t)
      → s.receiver ≡ closed
      → s.dispatcher ≡ running item
      → s.cmd_queue ≡ q
      → Waits q (s, w)
  finish-Waits item q s w r d e =
      let h = finish_item-SameLoops x item s w in
      (
        finish_item x item (s, w),
        after now (finished d),
        record {
          receiver = h.same_receiver ∙ r;
          dispatcher = h.same_dispatcher;
          queue = h.same_queue ∙ e;
        },
      )

  if-Waits :
      (b : Bool) (q : List (Option Item)) (s s' : Session) (w : World t)
      → Waits q (s, w)
      → Waits q (s', w)
      → Waits q (if b then s else s', w)
  if-Waits true q s s' w h h' = h
  if-Waits false q s s' w h h' = h'

  take-Waits :
      (item : Item) (q : List (Option Item)) (s : Session) (w : World t)
      → s.receiver ≡ closed
      → s.dispatcher ≡ idle
      → Waits q (take_item (some item) (record s { cmd_queue = q }), w)
  take-Waits item q s w r d =
      let h =
        set_event-SameLoops item.done_event _ (record s { cmd_queue = q })
          (record { same_queue = refl; same_receiver = refl; same_dispatcher = refl }) in
      if-Waits s.device_clear_pending q _ _ w
        (
          (set_event item.done_event (record s { cmd_queue = q }), w),
          now,
          record {
            receiver = h.same_receiver ∙ r;
            dispatcher = h.same_dispatcher ∙ d;
            queue = h.same_queue;
          },
        )
        (finish-Waits item q (record s { cmd_queue = q; dispatcher = running item }) w r refl refl)

  from_idle :
      (q : List (Option Item)) (s : Session) (w : World t)
      → s.receiver ≡ closed
      → s.dispatcher ≡ idle
      → s.cmd_queue ≡ q
      → no_sentinel q ≡ false
      → (c : State x) × Later x (s, w) c × IsOver c.0
  unfolding no_sentinel
  from_idle [] s w r d e m = absurd (ground (arith, m))
  from_idle (none ∷ q) s w r d e m =
      let (c, later, over) = from_stopped (take_item none (record s { cmd_queue = q })) w r refl in
      (c, Later-Later x (after now (taken d e)) later, over)
  from_idle (some item ∷ q) s w r d e m =
      let ((s', w'), first, h) = take-Waits item q s w r d in
      let (c, later, over) = from_idle q s' w' h.receiver h.dispatcher h.queue m in
      (c, Later-Later x (Later-Later x (after now (taken d e)) first) later, over)

  from_ending :
      (d : Dispatcher) (s : Session) (w : World t)
      → s.dispatcher ≡ d
      → IsEnding s
      → (c : State x) × Later x (s, w) c × IsOver c.0
  from_ending stopped s w d h = from_stopped s w h.over d
  from_ending idle s w d h = from_idle s.cmd_queue s w h.over d refl (ground (arith, h.marked, d))
  from_ending (running item) s w d h =
      let ((s', w'), first, h') = finish-Waits item s.cmd_queue s w h.over d refl in
      let (c, later, over) =
        from_idle s.cmd_queue s' w' h'.receiver h'.dispatcher h'.queue
          (ground (arith, h.marked, d)) in
      (c, Later-Later x first later, over)

  -- A client that disconnects while the command queue has room ends the session, whatever the
  -- asynchronous channel and other sessions do meanwhile: the dispatch loop goes on at most twice for
  -- each entry of the queue and the sentinel, and once for the command it is in; and from each later
  -- state, steps lead to where both loops are over and the session is no longer open.
  pub disconnect_room :
      (e : Exception) (s : Session) (w : World t) {b : State x}
      → length s.cmd_queue < queue_depth
      → (later : Later x (receive_step x (raised e) (s, w)) b)
      → (turns x later ≤ suc (2 * suc (length s.cmd_queue)))
        × ((c : State x) × Later x b c × IsOver c.0)
  unfolding receive_step on_disconnect
  disconnect_room e s w {b} room later =
      let has_room : leb queue_depth (length s.cmd_queue) ≡ false = ground arith in
      let s' = on_disconnect s in
      let queue : s'.cmd_queue ≡ s.cmd_queue ++ none ∷ [] = rw has_room refl in
      let over : s'.receiver ≡ closed = rw has_room refl in
      let sentinel = no_sentinel-marked s.cmd_queue in
      let ending : IsEnding s' = record { over = over; marked = ground (arith, queue, sentinel) } in
      let bound = turns-work x later ending in
      let most = work_most s'.cmd_queue s'.dispatcher in
      let longer = length-append s.cmd_queue (none ∷ []) in
      (
        ground (arith, bound, most, queue, longer),
        from_ending b.0.dispatcher b.0 b.1 refl (Later-IsEnding x later ending),
      )
