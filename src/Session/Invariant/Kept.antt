-- ===== src/Session/Invariant/Kept.antt =====
-- Every step of a session keeps the invariant.
use Prim.Native.Nat.{bit_or}
use pynq_sdk.Prelude.{
  ℕ, ◌≡◌, refl, sym, ap, ◌∙◌, ◌⊎◌, inl, Bool, true, false, [], ◌∷◌, ◌==◌, if◌then◌else◌, arith,
}
use mathlib.Core.Path.{transport}
use pynq_sdk.Python.Text.{Text, lit}
use pynq_sdk.Python.Exception.{Result, ok, raised}
use pynq_sdk.Hislip.{Message}
use pynq_sdk.Hislip.Codes.{
  msg_initialize, msg_data, msg_data_end, msg_trigger, msg_device_clear_ack,
}
use pynq_sdk.World.{Types, World, Externals}
use pynq_sdk.Dispatch.{dispatch_command}
use pynq_sdk.Session.{
  Item, reading, idle, running, Session, new_session, handshake, send_raw, send_payload,
}
use pynq_sdk.Session.Loops.{
  State, receive_step, finish_item, clear_queue, emit_srq, dispatch_inline, on_clear_ack,
  on_trigger, on_message, answer_item,
}
use pynq_sdk.Session.Channel.{open_channel, close_channel}
use pynq_sdk.Session.Loops.{begin_run, end_run}
use pynq_sdk.Session.Invariant.Channel.{handle-IsSound, device_clear_end-IsSound}
use pynq_sdk.Session.Steps.{
  Step, received, resumed, taken, finished, handled, clear_ended, opened, shut, ended, elsewhere,
  Reachable, started, next,
}
use pynq_sdk.Session.Invariant.{core, IsSound, no_sentinel, finished_awake, mav_set}
use pynq_sdk.Session.Invariant.Branches.{
  with_event, is_set-with_event, more_events, core-set_event, core-send_response,
  on_data_end-IsSound, clear_queue-IsSound, on_disconnect-IsSound, take_item-IsSound,
  is_awake_status, is_served_status, finished_served, resume-IsSound,
}

module _ {t : Types} (x : Externals t) where
  -- Answering changes the status byte alone.
  core-answer_item :
      (item : Item) (r : Text) (w : World t) (s : Session)
      → (s.status_byte ≡ 0) ⊎ (s.status_byte ≡ 0x10)
      → (n : ℕ) × ((n ≡ 0) ⊎ (n ≡ 0x10))
        × (core (answer_item x item r w s) ≡ record (core s) { status = n })
  unfolding send_payload emit_srq
  core-answer_item item [] w s h = (s.status_byte, h, refl)
  core-answer_item item (c ∷ r) w s h =
      (bit_or s.status_byte 0x10, mav_set s.status_byte h, same s.has_async_writer refl)
    where
      same :
          (b : Bool)
          → s.has_async_writer ≡ b
          → core (answer_item x item (c ∷ r) w s)
            ≡ record (core s) { status = bit_or s.status_byte 0x10 }
      same true e = rw e refl
      same false e = rw e refl

  on_clear_ack-IsSound :
      (s : Session) (w : World t)
      → s.receiver ≡ reading
      → IsSound (core s)
      → IsSound (core (on_clear_ack x (s, w)).0)
  unfolding on_clear_ack dispatch_inline
  on_clear_ack-IsSound s w r h =
      transport
        (sym
          (ap IsSound (core-send_response 0 (dispatch_command x (lit "*CLS") w).0 (clear_queue s))))
        (clear_queue-IsSound s r h)

  branch-IsSound :
      (b : Bool) (a a' : State x)
      → IsSound (core a.0)
      → IsSound (core a'.0)
      → IsSound (core (if b then a else a').0)
  branch-IsSound true a a' h h' = h
  branch-IsSound false a a' h h' = h'

  receive_step-IsSound :
      (r : Result Message) (s : Session) (w : World t)
      → s.receiver ≡ reading
      → IsSound (core s)
      → IsSound (core (receive_step x r (s, w)).0)
  unfolding receive_step on_message on_trigger send_raw
  receive_step-IsSound (raised e) s w r h = on_disconnect-IsSound s h
  receive_step-IsSound (ok m) s w r h = branch-IsSound (m.msg_type == msg_data) _ _ h (
      branch-IsSound (m.msg_type == msg_data_end) _ _ (on_data_end-IsSound m s r h) (
        branch-IsSound (m.msg_type == msg_trigger) _ _ h (
          branch-IsSound (m.msg_type == msg_device_clear_ack) _ _ (on_clear_ack-IsSound s w r h)
            h)))

  finish_item-IsSound :
      (item : Item) (s : Session) (w : World t)
      → s.dispatcher ≡ running item
      → IsSound (core s)
      → IsSound (core (finish_item x item (s, w)).0)
  unfolding finish_item
  finish_item-IsSound item s w d h =
      let (response, w') = dispatch_command x item.cmd_str w in
      let (n, mav, answered) =
        core-answer_item item response w' (record s { dispatcher = idle }) h.mav_only in
      let es = with_event item.done_event s.set_events in
      let all =
        core-set_event item.done_event
          (answer_item x item response w' (record s { dispatcher = idle })) in
      transport (sym (ap IsSound (all ∙ ap (more_events item.done_event) answered))) (record {
        short = h.short;
        mav_only = mav;
        awake =
            is_awake_status s.receiver n (record (core s) { events = es; dispatcher = idle })
              (finished_awake s.receiver item (core s) es d
                (is_set-with_event item.done_event s.set_events) h.awake);
        served =
            is_served_status s.receiver n (record (core s) { events = es; dispatcher = idle })
              (finished_served s.receiver (core s) es h.served);
      })

  Step-IsSound : {a b : State x} → Step x a b → IsSound (core a.0) → IsSound (core b.0)
  Step-IsSound (received m {s} {w} r) h = receive_step-IsSound m s w r h
  Step-IsSound (resumed {e} {s} r set) h = resume-IsSound e s r h
  Step-IsSound (taken {item} {q} {s} d e) h = take_item-IsSound item q s d e h
  Step-IsSound (finished {item} {s} {w} d) h = finish_item-IsSound item s w d h
  Step-IsSound (handled m {s}) h = handle-IsSound m s h
  Step-IsSound (clear_ended waits timed_out {s} over) h = device_clear_end-IsSound waits s h
  Step-IsSound (opened {s}) h = unfold open_channel in h
  Step-IsSound (shut {s}) h = unfold close_channel in h
  Step-IsSound (ended {s} r d) h = unfold end_run in h
  Step-IsSound (elsewhere w') h = h

  handshake-IsSound :
      (session_id : ℕ) (first : Result Message)
      → IsSound (core (handshake first (begin_run (new_session session_id))).1)
  unfolding handshake send_raw new_session begin_run no_sentinel
  handshake-IsSound session_id (raised e) = record {
    short = omega arith;
    mav_only = inl refl;
    awake = refl;
    served = refl;
  }
  handshake-IsSound session_id (ok m) = by_type (m.msg_type == msg_initialize) refl
    where
      by_type :
          (b : Bool)
          → (m.msg_type == msg_initialize) ≡ b
          → IsSound (core (handshake (ok m) (begin_run (new_session session_id))).1)
      by_type true e =
          rw e (record { short = omega arith; mav_only = inl refl; awake = refl; served = refl })
      by_type false e =
          rw e (record { short = omega arith; mav_only = inl refl; awake = refl; served = refl })

  -- In every reachable state: at most eight commands are queued; the status byte has no bit but MAV;
  -- when the receive loop waits for a command, its event is set or the command is still queued or
  -- running, so the wait cannot be missed; and the dispatch loop goes on as long as the receive loop.
  pub Reachable-IsSound : {a : State x} → Reachable x a → IsSound (core a.0)
  Reachable-IsSound (started session_id first w go) = handshake-IsSound session_id first
  Reachable-IsSound (next r step) = Step-IsSound step (Reachable-IsSound r)
