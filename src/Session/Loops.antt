-- ===== src/Session/Loops.antt =====
-- The receive loop, the dispatch loop and device clear of pynq_instrument/hislip_session.py, on a
-- session and the state that all sessions share.
use Prim.Native.Nat.{bit_and, bit_or}
use pynq_sdk.Prelude.{
  ℕ, suc, Bool, true, false, Option, none, some, List, [], ◌∷◌, ◌++◌, ◌==◌, if◌then◌else◌,
}
use pynq_sdk.Python.Text.{Text, Bytes, lit, strip, encode_ascii, decode_ascii}
use pynq_sdk.Python.Exception.{Result, ok, raised}
use pynq_sdk.Hislip.{Message}
use pynq_sdk.Hislip.Codes.{
  msg_error, msg_data, msg_data_end, msg_device_clear_complete, msg_device_clear_ack, msg_trigger,
  msg_async_service_request, err_unidentified,
}
use pynq_sdk.Status.{truthy, get_status_byte}
use pynq_sdk.World.{Types, World, Externals}
use pynq_sdk.Dispatch.{dispatch_command}
use pynq_sdk.Session.{
  Item, reading, closed, waiting, idle, stopped, running, Session, send_raw, send_payload,
  put_nowait, set_event, queue_overflow_resp,
}

-- `cmd_buf.decode("ascii", errors="replace").strip()`
unfoldable pub command_text : Bytes → Text
unfolding decode_ascii strip
command_text buf = strip (decode_ascii buf)

-- overlap mode: go on reading
unfoldable pub enqueue_overlap : ℕ → Text → Session → Session
unfolding send_payload
enqueue_overlap msg_param cmd_str s =
    put_nowait (some (record { msg_param = msg_param; cmd_str = cmd_str; done_event = none }))
      (send_payload msg_param queue_overflow_resp s) s

-- synchronous mode: wait for a new event
unfoldable pub enqueue_sync : ℕ → Text → Session → Session
unfolding send_payload
enqueue_sync msg_param cmd_str s =
    let done = s.next_event in
    let s' = record s { next_event = suc done; current_sync_done = some done } in
    put_nowait (some (record { msg_param = msg_param; cmd_str = cmd_str; done_event = some done }))
      (send_payload msg_param queue_overflow_resp (record s' { current_sync_done = none }))
      (record s' { receiver = waiting done })

unfoldable pub on_data_end : Message → Session → Session
unfolding enqueue_overlap enqueue_sync command_text
on_data_end m s =
    let cmd_str = command_text (s.cmd_buf ++ m.payload) in
    let s' = record s { cmd_buf = [] } in
    if s.overlap_mode
    then enqueue_overlap m.msg_param cmd_str s'
    else enqueue_sync m.msg_param cmd_str s'

-- the loop that empties the queue: the events of its items are set
unfoldable pub drain : List (Option Item) → List ℕ → List ℕ
drain [] es = es
drain (none ∷ q) es = drain q es
drain (some item ∷ q) es = drain q (elim item.done_event [ none ↦ es | some e ↦ e ∷ es ])

-- the cleared session, before `*CLS` runs
unfoldable pub clear_queue : Session → Session
unfolding drain
clear_queue s = record s {
  set_events = drain s.cmd_queue s.set_events;
  cmd_queue = [];
  cmd_buf = [];
  device_clear_pending = false;
}

-- `if response: await self._send_payload(…)`
abbrev pub send_response : ℕ → Text → Session → Session
send_response msg_param [] s = s
send_response msg_param (c ∷ r) s = send_payload msg_param (encode_ascii (c ∷ r)) s

-- `recv_message` raised: the loop ends, and `run` puts the sentinel in the queue unless it is full
unfoldable pub on_disconnect : Session → Session
on_disconnect s = let s' = record s { receiver = closed } in put_nowait none s' s'

-- the first and the last lines of `run`
unfoldable pub begin_run : Session → Session
begin_run s = record s { sync_open = true }

unfoldable pub end_run : Session → Session
end_run s = record s { sync_open = false }

-- the wait for `done` is over
unfoldable pub resume : Session → Session
resume s = record s { current_sync_done = none; receiver = reading }

-- `get()` returned an item
abbrev pub take_item : Option Item → Session → Session
take_item none s = record s { dispatcher = stopped }
take_item (some item) s =
    if s.device_clear_pending
    then set_event item.done_event s
    else record s { dispatcher = running item }

unfoldable pub start_device_clear : Session → Session
start_device_clear s =
    set_event s.current_sync_done
      (record s { device_clear_pending = true; device_clear_done = false })

unfoldable pub send_device_clear_complete : Session → Session
unfolding send_raw
send_device_clear_complete s = send_raw msg_device_clear_complete 0 0 [] s

-- `wait_device_clear_acked` once the event is set or the time is over: without the event, the clear is
-- given up
unfoldable pub wait_device_clear_acked : Session → Bool × Session
wait_device_clear_acked s =
    if s.device_clear_done then (true, s) else (false, record s { device_clear_pending = false })

module _ {t : Types} (x : Externals t) where
  abbrev pub State : Type 0
  State = Session × World t

  unfoldable pub emit_srq : World t → Session → Session
  unfolding get_status_byte
  emit_srq w s =
      if s.has_async_writer
      then record s {
        async_sent =
            s.async_sent
            ++ (record {
              msg_type = msg_async_service_request;
              control_code = get_status_byte (truthy (bit_and s.status_byte 0x10)) w.registers;
              msg_param = 0;
              payload = [];
            })
              ∷ [];
      }
      else s

  -- `_dispatch_inline`
  unfoldable pub dispatch_inline : Text → ℕ → State → State
  unfolding send_payload dispatch_command
  dispatch_inline cmd_str msg_param (s, w) =
      let (response, w') = dispatch_command x cmd_str w in (send_response msg_param response s, w')

  unfoldable pub on_clear_ack : State → State
  unfolding clear_queue dispatch_inline
  on_clear_ack (s, w) =
      let (s', w') = dispatch_inline (lit "*CLS") 0 (clear_queue s, w) in
      (record s' { device_clear_done = true }, w')

  abbrev fire : Option t.Callback → World t → World t
  fire none w = w
  fire (some callback) w = x.run_callback callback w

  unfoldable pub on_trigger : Message → State → State
  unfolding send_raw
  on_trigger m (s, w) =
      (send_raw msg_data_end 0 m.msg_param [] s, fire w.registry.trigger_callback w)

  -- the branches on the message type
  unfoldable pub on_message : Message → State → State
  unfolding on_data_end on_trigger on_clear_ack send_raw
  on_message m (s, w) =
      if m.msg_type == msg_data
      then (record s { cmd_buf = s.cmd_buf ++ m.payload }, w)
      else if m.msg_type == msg_data_end
      then (on_data_end m s, w)
      else if m.msg_type == msg_trigger
      then on_trigger m (s, w)
      else if m.msg_type == msg_device_clear_ack
      then on_clear_ack (s, w)
      else (send_raw msg_error err_unidentified 0 [] s, w)

  unfoldable pub receive_step : Result Message → State → State
  unfolding on_message on_disconnect
  receive_step (raised e) (s, w) = (on_disconnect s, w)
  receive_step (ok m) (s, w) = on_message m (s, w)

  -- a response of the dispatch loop: MAV, then the service request
  abbrev pub answer_item : Item → Text → World t → Session → Session
  answer_item item [] w s = s
  answer_item item (c ∷ r) w s =
      let s' = send_payload item.msg_param (encode_ascii (c ∷ r)) s in
      emit_srq w (record s' { status_byte = bit_or s'.status_byte 0x10 })

  -- the rest of the round once `_dispatch_command` is entered
  unfoldable pub finish_item : Item → State → State
  unfolding emit_srq send_payload dispatch_command
  finish_item item (s, w) =
      let (response, w') = dispatch_command x item.cmd_str w in
      (
        set_event item.done_event (answer_item item response w' (record s { dispatcher = idle })),
        w',
      )
