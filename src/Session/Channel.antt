-- ===== src/Session/Channel.antt =====
-- `AsyncChannel` of pynq_instrument/async_channel.py: the asynchronous channel of a session, which
-- shares the session with the two loops. Device clear waits for the synchronous channel, and so is
-- two steps.
use Prim.Native.Nat.{bit_and, min}
use pynq_sdk.Prelude.{
  ℕ, ◌-◌, Bool, true, false, ◌||◌, Option, none, some, List, [], ◌∷◌, ◌++◌, take, length, ltb, leb,
  not, ◌==◌, if◌then◌else◌,
}
use pynq_sdk.Python.Text.{Bytes}
use pynq_sdk.Python.Exception.{Result, ok, raised}
use pynq_sdk.Python.Struct.{be, of_be}
use pynq_sdk.Python.Dict
use pynq_sdk.Python.Dict.{Dict, nat_key}
use pynq_sdk.Hislip.{Message, max_payload}
use pynq_sdk.Hislip.Codes.{
  msg_error, msg_async_max_msg_size, msg_async_device_clear, msg_async_max_msg_size_resp,
  msg_async_lock, msg_async_lock_response, msg_async_status_query, msg_async_status_response,
  msg_async_remote_local_ctrl, msg_async_remote_local_resp, msg_async_dev_clear_ack,
  msg_async_initialize, msg_async_initialize_resp, err_unidentified, err_attempt_to_use_conn,
  err_invalid_init_seq,
}
use pynq_sdk.Status.{truthy}
use pynq_sdk.Session.{Session}
use pynq_sdk.Session.Loops.{start_device_clear, send_device_clear_complete, wait_device_clear_acked}

abbrev pub vendor_token : ℕ
vendor_token = 0x4342

abbrev pub reply : ℕ → ℕ → ℕ → Bytes → Message
reply msg_type control_code msg_param payload = record {
  msg_type = msg_type;
  control_code = control_code;
  msg_param = msg_param;
  payload = payload;
}

unfoldable pub send : ℕ → ℕ → ℕ → Bytes → Session → Session
send msg_type control_code msg_param payload s = record s {
  async_sent = s.async_sent ++ reply msg_type control_code msg_param payload ∷ [];
}

-- the size that is answered
abbrev pub negotiated_size : Bytes → ℕ
negotiated_size payload =
    min (if leb 8 (length payload) then of_be (take 8 payload) else max_payload) max_payload

-- `&= ~0x10`
abbrev pub clear_mav : ℕ → ℕ
clear_mav n = n - bit_and n 0x10

unfoldable pub on_status_query : ℕ → Session → Session
unfolding send
on_status_query control_code s =
    let s' =
      if truthy (bit_and control_code 1)
      then record s { status_byte = clear_mav s.status_byte }
      else s in
    send msg_async_status_response s.status_byte 0 [] s'

abbrev pub sync_only : ℕ → Bool
sync_only msg_type =
    msg_type == 6
    || msg_type == 7
    || msg_type == 8
    || msg_type == 9
    || msg_type == 12
    || msg_type == 13

-- `_handle_device_clear` up to the wait
unfoldable pub device_clear_begin : Session → Session
unfolding start_device_clear send_device_clear_complete
device_clear_begin s =
    let s' = start_device_clear s in if s'.sync_open then send_device_clear_complete s' else s'

-- the rest of it: `waits` tells whether the synchronous channel was open
unfoldable pub device_clear_end : Bool → Session → Session
unfolding wait_device_clear_acked send
device_clear_end waits s =
    send msg_async_dev_clear_ack 0 0 [] (if waits then (wait_device_clear_acked s).1 else s)

-- `_handle`
unfoldable pub handle : Message → Session → Session
unfolding on_status_query device_clear_begin send
handle m s =
    if m.msg_type == msg_async_max_msg_size
    then send msg_async_max_msg_size_resp 0 0 (be 8 (negotiated_size m.payload)) s
    else if m.msg_type == msg_async_lock
    then send msg_async_lock_response 1 0 [] s
    else if m.msg_type == msg_async_status_query
    then on_status_query m.control_code s
    else if m.msg_type == msg_async_device_clear
    then device_clear_begin s
    else if m.msg_type == msg_async_remote_local_ctrl
    then send msg_async_remote_local_resp m.control_code 0 []
        (record s { remote_mode = ltb 0 m.control_code })
    else if sync_only m.msg_type
    then send msg_error err_attempt_to_use_conn 0 [] s
    else send msg_error err_unidentified 0 [] s

-- the first and the last lines of `run`
unfoldable pub open_channel : Session → Session
open_channel s = record s { has_async_writer = true; async_open = true }

unfoldable pub close_channel : Session → Session
close_channel s = record s { has_async_writer = false; async_open = false }

-- `handle_async_connection`, with what the first `recv_message` returns: what is sent, and the id of
-- the session that the channel then runs for
abbrev pub refuse_connection : List Message × Option ℕ
refuse_connection = (reply msg_error err_invalid_init_seq 0 [] ∷ [], none)

abbrev pub correlate : ℕ → Option Session → List Message × Option ℕ
correlate session_id none = refuse_connection
correlate session_id (some s) =
    if not s.sync_open || s.async_open
    then refuse_connection
    else (reply msg_async_initialize_resp 0 vendor_token [] ∷ [], some session_id)

unfoldable pub handle_async_connection : Result Message → Dict ℕ Session → List Message × Option ℕ
handle_async_connection (raised e) sessions = ([], none)
handle_async_connection (ok m) sessions =
    let session_id = bit_and m.msg_param 0xFFFF in
    if not (m.msg_type == msg_async_initialize)
    then refuse_connection
    else correlate session_id (Dict.get session_id sessions)

-- one round of `_loop`, with what `recv_message` came to: the channel, and whether the loop goes on
unfoldable pub loop_step : Result Message → Session → Bool × Session
unfolding handle
loop_step (raised e) s = (false, s)
loop_step (ok m) s = (true, handle m s)
