-- ===== src/Session/Interrupted.antt =====
-- A device clear, from the client's request on the asynchronous channel to the answer on it.

use pynq_sdk.Prelude.{ℕ, ◌≡◌, refl, true, false, some, [], ◌∷◌, ◌++◌, arith}
use pynq_sdk.Python.Text.{lit}
use pynq_sdk.Python.Exception.{ok}
use pynq_sdk.Hislip.{Message}
use pynq_sdk.Hislip.Codes.{
  msg_device_clear_complete, msg_device_clear_ack, msg_async_device_clear, msg_async_dev_clear_ack,
}
use pynq_sdk.World.{Types, World, Externals}
use pynq_sdk.Builtins.Commands.{register_builtins}
use pynq_sdk.Session.{Session, reading, waiting, is_set, send_raw, send_payload}
use pynq_sdk.Session.Loops.{
  State, resume, clear_queue, start_device_clear, send_device_clear_complete,
  wait_device_clear_acked,
}
use pynq_sdk.Session.Channel.{reply, send, handle, device_clear_begin, device_clear_end}
use pynq_sdk.Session.Steps.{
  receive, resume_wait, handle_message, end_clear, resumed, received, handled, clear_ended, Runs,
  stay, go,
}
use pynq_sdk.Session.Exchange.{data_end}
use pynq_sdk.Session.Cleared.{cleared, cleared_world, receive_step-cleared}

-- the session once the request is handled: the waiting receive loop is woken
abbrev requested : ℕ → Session → Session
requested e s = record s {
  device_clear_pending = true;
  device_clear_done = false;
  set_events = e ∷ s.set_events;
  sent = s.sent ++ reply msg_device_clear_complete 0 0 [] ∷ [];
}

handle-requested :
    (m : Message) (e : ℕ) (s : Session)
    → m.msg_type ≡ msg_async_device_clear
    → s.current_sync_done ≡ some e
    → s.sync_open ≡ true
    → handle m s ≡ requested e s
unfolding handle device_clear_begin start_device_clear send_device_clear_complete send_raw
handle-requested m e s type current is_open = rw (type, current, is_open) refl

-- What a device clear leaves of a session: it reads on, with nothing queued, and it has sent these
-- frames on the two channels.
pub record IsInterrupted (s s' : Session) : Type 0 where
  pub receiver : s'.receiver ≡ reading
  pub queue : s'.cmd_queue ≡ []
  pub buffer : s'.cmd_buf ≡ []
  pub pending : s'.device_clear_pending ≡ false
  pub sent :
      s'.sent
      ≡ (s.sent ++ reply msg_device_clear_complete 0 0 [] ∷ []) ++ data_end 0 (lit "OK") ∷ []
  pub async_sent : s'.async_sent ≡ s.async_sent ++ reply msg_async_dev_clear_ack 0 0 [] ∷ []

module _ {t : Types} (x : Externals t) where
  -- A device clear interrupts the receive loop at its wait for a command. The client asks for it on the
  -- asynchronous channel; the wait ends; the client's acknowledgement is received on the other channel;
  -- and the asynchronous channel's own wait ends, for that reason and not for the time. After these
  -- four steps the loop reads on, nothing is queued or pending, the client has got the completion, the
  -- answer of `*CLS` and, on the asynchronous channel, the acknowledgement, and of what is shared the
  -- error queue and the event register are clear and nothing else has changed.
  pub device_clear-IsInterrupted :
      (request ack : Message) (e : ℕ) (s : Session) (w0 : World t)
      → request.msg_type ≡ msg_async_device_clear
      → ack.msg_type ≡ msg_device_clear_ack
      → s.receiver ≡ waiting e
      → s.current_sync_done ≡ some e
      → s.sync_open ≡ true
      → (s' : Session) × Runs x
          (handle_message request ∷ resume_wait ∷ receive (ok ack) ∷ end_clear true false ∷ [])
          (s, register_builtins w0)
          (s', cleared_world (register_builtins w0))
        × IsInterrupted s s'
  unfolding device_clear_end wait_device_clear_acked send send_payload send_raw clear_queue data_end
      is_set resume register_builtins cleared
  device_clear-IsInterrupted request ack e s w0 asks acks waits current is_open =
      let w = register_builtins w0 in
      let begun = requested e s in
      let set : is_set e (e ∷ s.set_events) ≡ true = ground arith in
      let s' = device_clear_end true (cleared x (resume begun)) in
      let goal : State x = (s', cleared_world w) in
      let fourth : Runs x (end_clear true false ∷ []) (cleared x (resume begun), cleared_world w)
          goal =
        go (clear_ended true false refl) stay in
      let third : Runs x (receive (ok ack) ∷ end_clear true false ∷ []) (resume begun, w) goal =
        go (received (ok ack) refl)
          (rw (receive_step-cleared x ack (resume begun) w0 acks) fourth) in
      let second : Runs x (resume_wait ∷ receive (ok ack) ∷ end_clear true false ∷ []) (begun, w)
          goal =
        go (resumed waits set) third in
      (
        s',
        go (handled request) (rw (handle-requested request e s asks current is_open) second),
        record {
          receiver = refl;
          queue = refl;
          buffer = refl;
          pending = refl;
          sent = refl;
          async_sent = refl;
        },
      )
