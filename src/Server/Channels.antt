-- ===== src/Server/Channels.antt =====
-- The asynchronous connections of a server: `HiSLIPServer._handle_async` passes the table of the
-- sessions to `handle_async_connection`, and the channel that it starts runs on the entry's session.
use Prim.Native.Nat.{bit_and}
use pynq_sdk.Prelude.{
  ℕ, ◌≡◌, Bool, true, false, ◌||◌, Option, none, some, List, [], ◌∷◌, ◌==◌, if◌then◌else◌,
}
use pynq_sdk.Python.Exception.{Result}
use pynq_sdk.Python.Dict
use pynq_sdk.Python.Dict.{Dict, nat_key, get-put}
use pynq_sdk.Hislip.{Message}
use pynq_sdk.Hislip.Codes.{msg_error, err_invalid_init_seq, msg_async_initialize_resp}
use pynq_sdk.Session.{Session}
use pynq_sdk.Session.Channel.{
  handle_async_connection, open_channel, reply, vendor_token, close_channel,
}
use pynq_sdk.Server.{HislipServer}

-- The server, and the sessions that connections were accepted for whose `run` has not begun: the
-- acknowledgement that stands between the test and `run` is awaited.
pub record Connections : Type 0 where
  pub server : HislipServer
  pub accepted_for : List ℕ

unfoldable pub is_accepted : ℕ → List ℕ → Bool
is_accepted session_id [] = false
is_accepted session_id (i ∷ ids) = i == session_id || is_accepted session_id ids

unfoldable pub drop_first : ℕ → List ℕ → List ℕ
drop_first session_id [] = []
drop_first session_id (i ∷ ids) = if i == session_id then ids else i ∷ drop_first session_id ids

abbrev pub answered : List Message × Option ℕ → Connections → List Message × Connections
answered (sent, none) c = (sent, c)
answered (sent, some session_id) c = (sent, record c { accepted_for = session_id ∷ c.accepted_for })

-- `_handle_async` up to the acknowledgement: what is sent, and whom the connection is accepted for
unfoldable pub handle_async : Result Message → Connections → List Message × Connections
unfolding handle_async_connection
handle_async first c = answered (handle_async_connection first c.server.sessions) c

-- a change of a session that the table has
abbrev pub change_session : (Session → Session) → ℕ → Option Session → HislipServer → HislipServer
change_session f session_id none v = v
change_session f session_id (some s) v = record v {
  sessions = Dict.put session_id (f s) v.sessions;
}

-- `channel.run()` begins
unfoldable pub start_channel : ℕ → Connections → Connections
unfolding is_accepted drop_first open_channel
start_channel session_id c =
    if is_accepted session_id c.accepted_for
    then record c {
      server =
          change_session open_channel session_id (Dict.get session_id c.server.sessions) c.server;
      accepted_for = drop_first session_id c.accepted_for;
    }
    else c

-- `channel.run()` ends
unfoldable pub end_channel : ℕ → Connections → Connections
unfolding close_channel
end_channel session_id c = record c {
  server = change_session close_channel session_id (Dict.get session_id c.server.sessions) c.server;
}

-- What connections do, while the table has the same sessions.
pub data Op : Type 0 where
  connects : Result Message → Op
  starts ends : ℕ → Op

unfoldable pub run_op : Op → Connections → Connections
unfolding handle_async start_channel end_channel
run_op (connects first) c = (handle_async first c).1
run_op (starts session_id) c = start_channel session_id c
run_op (ends session_id) c = end_channel session_id c

unfoldable pub run_ops : List Op → Connections → Connections
unfolding run_op
run_ops [] c = c
run_ops (op ∷ ops) c = run_ops ops (run_op op c)

-- A session that an asynchronous channel may join, and none is about to.
pub record IsOpen (session_id : ℕ) (s : Session) (c : Connections) : Type 0 where
  pub entry : Dict.get session_id c.server.sessions ≡ some s
  pub sync : s.sync_open ≡ true
  pub no_channel : s.async_open ≡ false
  pub none_accepted : is_accepted session_id c.accepted_for ≡ false

-- The id that a message names.
abbrev pub named : Message → ℕ
named m = bit_and m.msg_param 0xFFFF

abbrev pub accepting : List Message
accepting = reply msg_async_initialize_resp 0 vendor_token [] ∷ []

abbrev pub refusing : List Message
refusing = reply msg_error err_invalid_init_seq 0 [] ∷ []
