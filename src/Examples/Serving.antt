-- ===== src/Examples/Serving.antt =====
-- One command, a device clear and a second channel at concrete inputs.
use pynq_sdk.Prelude.{false}
use pynq_sdk.Prelude.{◌≡◌, refl, ℕ, true, some, [], ◌∷◌, ◌++◌}
use pynq_sdk.Python.Text.{lit}
use pynq_sdk.Python.Exception.{ok}
use pynq_sdk.Hislip.{Message}
use pynq_sdk.Hislip.Codes.{msg_data_end, msg_async_initialize, msg_device_clear_ack}
use pynq_sdk.World.{World}
use pynq_sdk.Builtins.{idn_string}
use pynq_sdk.Builtins.Commands.{register_builtins}
use pynq_sdk.Builtins.Replies.{dispatch-idn}
use pynq_sdk.Session.{Session, new_session}
use pynq_sdk.Session.Loops.{receive_step, command_text, begin_run}
use pynq_sdk.Python.Exception.{Exception, raised, incomplete_read}
use pynq_sdk.Session.Loops.{State, on_disconnect}
use pynq_sdk.Session.Steps.{taken, Later, now, after}
use pynq_sdk.Session.Turns.{turns}
use pynq_sdk.Session.Ended.{IsOver, disconnect_room}
use pynq_sdk.Prelude.{◌≤◌, arith}
use pynq_sdk.Session.{waiting, running}
use pynq_sdk.Hislip.Codes.{msg_async_device_clear}
use pynq_sdk.Session.Cleared.{cleared_world}
use pynq_sdk.Session.Interrupted.{IsInterrupted, device_clear-IsInterrupted}
use pynq_sdk.Session.Steps.{Runs, handle_message, resume_wait, receive, end_clear}
use pynq_sdk.Session.Exchange.{exchange, rested, replies, command_served}
use pynq_sdk.Session.Cleared.{IsCleared, receive_step-IsCleared}
use pynq_sdk.Python.Dict
use pynq_sdk.Server.Channels.{
  Connections, Op, connects, starts, ends, run_op, run_ops, is_accepted, accepting, refusing,
  handle_async,
}
use pynq_sdk.Server.Exclusive.{handle_async_exclusive}
use pynq_sdk.Session.Channel.{handle_async_connection}
use pynq_sdk.Prelude.{List}
use pynq_sdk.Examples.Listing.{client, outside, idle}

abbrev identify : Message
identify = record {
  msg_type = msg_data_end;
  control_code = 0;
  msg_param = 2;
  payload = lit " *IDN?\n";
}

identify_text : command_text identify.payload ≡ lit "*IDN?"
unfolding command_text
identify_text = refl

command_served_example :
    (s' : Session) × Runs outside
      (exchange identify)
      (rested (new_session 7), register_builtins idle)
      (rested s', register_builtins idle)
    × (s'.sent ≡ (new_session 7).sent ++ replies 2 (idn_string outside (register_builtins idle)))
command_served_example =
    command_served outside identify (new_session 7) (register_builtins idle)
      (register_builtins idle) (idn_string outside (register_builtins idle)) refl
      (rw identify_text (dispatch-idn outside idle))

abbrev busy : Session
busy = record (new_session 7) {
  cmd_queue = some (record { msg_param = 2; cmd_str = lit "LED?"; done_event = some 0 }) ∷ [];
  cmd_buf = lit "LE";
  device_clear_pending = true;
}

abbrev clear_ack : Message
clear_ack = record {
  msg_type = msg_device_clear_ack;
  control_code = 0;
  msg_param = 0;
  payload = [];
}

receive_step-IsCleared_example :
    (s' : Session) × (w' : World client) × (receive_step outside
        (ok clear_ack)
        (busy, register_builtins idle)
      ≡ (s', w'))
    × IsCleared busy s' (register_builtins idle) w'
receive_step-IsCleared_example = receive_step-IsCleared outside clear_ack busy idle refl

abbrev join : ℕ → Message
join session_id = record {
  msg_type = msg_async_initialize;
  control_code = 0;
  msg_param = session_id;
  payload = [];
}

abbrev unattended : Session
unattended = begin_run (new_session 1)

abbrev one_client : Connections
one_client = record {
  server = record { sessions = (1, unattended) ∷ []; next_session_id = 2 };
  accepted_for = [];
}

-- another connection for the session, and one for a session that is not there, in between
abbrev crowd : List Op
crowd = connects (ok (join 1)) ∷ starts 1 ∷ connects (ok (join 4)) ∷ ends 4 ∷ []

handle_async_exclusive_example :
    ((handle_async (ok (join 1)) one_client).0 ≡ accepting)
    × (handle_async
          (ok (join 0x10001))
          (run_ops (connects (ok (join 1)) ∷ starts 1 ∷ crowd) one_client)
        ≡ (refusing, run_ops (connects (ok (join 1)) ∷ starts 1 ∷ crowd) one_client))
handle_async_exclusive_example =
    handle_async_exclusive (join 1) (join 0x10001) unattended one_client crowd refl
      (record {
        entry = unfold Dict.get in refl;
        sync = unfold begin_run in refl;
        no_channel = unfold begin_run new_session in refl;
        none_accepted = unfold is_accepted in refl;
      })
      (tt, (tt, (tt, (refl, tt)))) refl

-- Two connections that come before either channel begins are both acknowledged.
both_acknowledged :
    (handle_async (ok (join 1)) (run_op (connects (ok (join 1))) one_client)).0 ≡ accepting
unfolding handle_async handle_async_connection run_op Dict.get begin_run new_session
both_acknowledged = refl

abbrev lost : Exception
lost = record { kind = incomplete_read; message = [] }

-- the client of a session with one command in its queue is gone, and the command was dropped
abbrev left : State outside
left = receive_step outside (raised lost) (busy, idle)

one_turn : (b : State outside) × Later outside left b
unfolding receive_step on_disconnect new_session
one_turn = (_, after now (taken refl refl))

disconnect_room_example :
    (turns outside one_turn.1 ≤ 5) × ((c : State outside) × Later outside one_turn.0 c × IsOver c.0)
disconnect_room_example = disconnect_room outside lost busy idle (omega arith) one_turn.1

-- A session that waits for the command that it runs.
abbrev at_work : Session
at_work = record (new_session 7) {
  sync_open = true;
  receiver = waiting 0;
  current_sync_done = some 0;
  dispatcher = running (record { msg_param = 2; cmd_str = lit "LED?"; done_event = some 0 });
}

abbrev clear_request : Message
clear_request = record {
  msg_type = msg_async_device_clear;
  control_code = 0;
  msg_param = 0;
  payload = [];
}

device_clear-IsInterrupted_example :
    (s' : Session) × Runs outside
      (handle_message clear_request
        ∷ resume_wait
        ∷ receive (ok clear_ack)
        ∷ end_clear true false
        ∷ [])
      (at_work, register_builtins idle)
      (s', cleared_world (register_builtins idle))
    × IsInterrupted at_work s'
device_clear-IsInterrupted_example =
    device_clear-IsInterrupted outside clear_request clear_ack 0 at_work idle refl refl refl refl
      refl
