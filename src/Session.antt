-- ===== src/Session.antt =====
-- `HiSLIPSession` of pynq_instrument/hislip_session.py: the synchronous channel of one client. A
-- session is three tasks on one event loop, the receive loop, the dispatch loop and the
-- asynchronous channel, which calls `start_device_clear` and `wait_device_clear_acked`; each
-- function here is what a task does between two waits. A command takes effect when it is done, and
-- a send is one step.
pub mod Loops
pub mod Channel
pub mod Sizes
pub mod Apart
pub mod Steps
pub mod Invariant
pub mod Progress
pub mod Closed
pub mod Turns
pub mod Ended
pub mod Orphaned
pub mod Order
pub mod Handshake
pub mod Exchange
pub mod Cleared
pub mod Interrupted
use Prim.Native.Nat.{bit_and, bit_or}
use pynq_sdk.Prelude.{
  ℕ, suc, ◌+◌, ◌*◌, ◌/◌, ◌%◌, ◌^◌, Bool, true, false, ◌||◌, ◌&&◌, not, Option, none, some, List, [],
  ◌∷◌, ◌++◌, ltb, leb, ◌==◌, if◌then◌else◌, length,
}
use pynq_sdk.Python.Text.{Text, Bytes, lit, strip, encode_ascii, decode_ascii}
use pynq_sdk.Python.Exception.{Result, ok, raised}
use pynq_sdk.Hislip.{Message}
use pynq_sdk.Hislip.Codes.{
  msg_initialize, msg_initialize_response, msg_fatal_error, msg_error, msg_data, msg_data_end,
  msg_device_clear_complete, msg_device_clear_ack, msg_trigger, msg_async_service_request,
  err_unidentified, err_invalid_init_seq,
}
use pynq_sdk.Status.{truthy, get_status_byte}
use pynq_sdk.World.{Types, World, Externals}
use pynq_sdk.Dispatch.{dispatch_command}

abbrev pub queue_depth : ℕ
queue_depth = 8

abbrev pub queue_overflow_resp : Bytes
queue_overflow_resp = lit "-350,\"Queue overflow\""

-- An entry of the command queue. An `asyncio.Event` is known by a number.
pub record Item : Type 0 where
  pub msg_param : ℕ
  pub cmd_str : Text
  pub done_event : Option ℕ

-- Where the receive loop stands: at `recv_message`, at `done.wait()`, or past the loop.
pub data Receiver : Type 0 where
  reading closed : Receiver
  waiting : ℕ → Receiver

-- Where the dispatch loop stands: at `get()`, in a command, or past the loop.
pub data Dispatcher : Type 0 where
  idle stopped : Dispatcher
  running : Item → Dispatcher

pub record Session : Type 0 where
  pub session_id : ℕ
  pub overlap_mode : Bool
  pub remote_mode : Bool
  pub status_byte : ℕ
  -- the queue; `none` is the sentinel that ends the dispatch loop
  pub cmd_queue : List (Option Item)
  pub device_clear_pending : Bool
  pub device_clear_done : Bool
  pub current_sync_done : Option ℕ
  pub sync_open : Bool
  pub async_open : Bool
  pub has_async_writer : Bool
  pub cmd_buf : Bytes
  -- the numbers of the events that are set, and the next number
  pub set_events : List ℕ
  pub next_event : ℕ
  pub receiver : Receiver
  pub dispatcher : Dispatcher
  -- the calls of `send_message` on the two channels
  pub sent : List Message
  pub async_sent : List Message

unfoldable pub new_session : ℕ → Session
new_session session_id = record {
  session_id = session_id;
  overlap_mode = false;
  remote_mode = false;
  status_byte = 0;
  cmd_queue = [];
  device_clear_pending = false;
  device_clear_done = false;
  current_sync_done = none;
  sync_open = false;
  async_open = false;
  has_async_writer = false;
  cmd_buf = [];
  set_events = [];
  next_event = 0;
  receiver = Receiver.reading;
  dispatcher = Dispatcher.idle;
  sent = [];
  async_sent = [];
}

unfoldable pub send_raw : ℕ → ℕ → ℕ → Bytes → Session → Session
send_raw msg_type control_code msg_param payload s = record s {
  sent =
      s.sent
      ++ (record {
        msg_type = msg_type;
        control_code = control_code;
        msg_param = msg_param;
        payload = payload;
      })
        ∷ [];
}

unfoldable pub send_payload : ℕ → Bytes → Session → Session
unfolding send_raw
send_payload msg_param payload s = send_raw msg_data_end 0 msg_param payload s

-- `put_nowait`, with what is done when the queue is full
abbrev pub put_nowait : Option Item → Session → Session → Session
put_nowait item full s =
    if leb queue_depth (length s.cmd_queue)
    then full
    else record s { cmd_queue = s.cmd_queue ++ item ∷ [] }

-- `if done is not None: done.set()`
abbrev pub set_event : Option ℕ → Session → Session
set_event none s = s
set_event (some e) s = record s { set_events = e ∷ s.set_events }

unfoldable pub is_set : ℕ → List ℕ → Bool
is_set e [] = false
is_set e (f ∷ es) = f == e || is_set e es

-- `(msg_param >> 16) & 0xFFFF`, and the version that is answered
abbrev pub negotiated : ℕ → ℕ
negotiated msg_param =
    let client_version = (msg_param / 2 ^ 16) % 2 ^ 16 in
    if ltb 0 client_version && leb client_version 0x0100 then client_version else 0x0100

-- `(negotiated << 16) | (session_id & 0xFFFF)`
abbrev pub response_param : ℕ → ℕ → ℕ
response_param version session_id = bit_or (version * 2 ^ 16) (session_id % 2 ^ 16)

-- `_handshake`, with what the first `recv_message` returns
unfoldable pub handshake : Result Message → Session → Bool × Session
unfolding send_raw
handshake (raised e) s = (false, s)
handshake (ok m) s =
    let overlap = truthy (bit_and m.control_code 1) in
    if not (m.msg_type == msg_initialize)
    then (false, send_raw msg_fatal_error err_invalid_init_seq 0 [] s)
    else (
      true,
      send_raw msg_initialize_response (if overlap then 1 else 0)
          (response_param (negotiated m.msg_param) s.session_id) []
          (record s { overlap_mode = overlap }),
    )
