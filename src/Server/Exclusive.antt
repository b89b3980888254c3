-- ===== src/Server/Exclusive.antt =====
-- At most one asynchronous channel for each session.
use pynq_sdk.Server.Held.{
  choice, handle_async_connection-correlate, handle_async_connection_taken, handle_async-Holds,
  start_channel-Holds, change_session-Holds, Holds,
}
use mathlib.Core.Path.{subst}
use pynq_sdk.Prelude.{All}
use pynq_sdk.Prelude.{ℕ, ◌≡◌, refl, sym, ◌∙◌, ap, true, false, List, [], ◌∷◌, ◌==◌, ==_iff}
use pynq_sdk.Python.Exception.{ok}
use pynq_sdk.Python.Dict.{nat_key, get-put}
use pynq_sdk.Hislip.{Message}
use pynq_sdk.Hislip.Codes.{msg_async_initialize}
use pynq_sdk.Session.{Session}
use pynq_sdk.Session.Channel.{correlate, open_channel, close_channel}
use pynq_sdk.Server.Channels.{
  Connections, is_accepted, drop_first, answered, handle_async, start_channel, end_channel, Op,
  connects, starts, ends, run_op, run_ops, IsOpen, named, accepting, refusing,
}

-- No channel of this session ends.
abbrev pub KeepsChannel : ℕ → Op → Type 0
KeepsChannel session_id (ends i) = (i == session_id) ≡ false
KeepsChannel session_id _ = Unit {0}

run_op-Holds :
    (session_id : ℕ) (op : Op) (c : Connections)
    → KeepsChannel session_id op
    → Holds session_id c
    → Holds session_id (run_op op c)
unfolding run_op end_channel
run_op-Holds session_id (connects first) c k h = handle_async-Holds session_id first c h
run_op-Holds session_id (starts i) c k h = start_channel-Holds session_id i c h
run_op-Holds session_id (ends i) c k h =
    change_session-Holds close_channel session_id i _ c c.accepted_for k h.none_accepted h

run_ops-Holds :
    (session_id : ℕ) (ops : List Op) (c : Connections)
    → All (KeepsChannel session_id) ops
    → Holds session_id c
    → Holds session_id (run_ops ops c)
unfolding run_ops
run_ops-Holds session_id [] c k h = h
run_ops-Holds session_id (op ∷ ops) c k h =
    run_ops-Holds session_id ops (run_op op c) k.1 (run_op-Holds session_id op c k.0 h)

-- The server that has accepted a connection, and whose channel has begun.
abbrev accepting_one : ℕ → Connections → Connections
accepting_one session_id c = record c { accepted_for = session_id ∷ c.accepted_for }

handle_async-accepting :
    (m : Message) (s : Session) (c : Connections)
    → m.msg_type ≡ msg_async_initialize
    → IsOpen (named m) s c
    → handle_async (ok m) c ≡ (accepting, accepting_one (named m) c)
unfolding handle_async
handle_async-accepting m s c type o =
    ap (λ r. answered r c)
      (handle_async_connection-correlate m c.server.sessions type
        ∙ ap (correlate (named m)) o.entry
        ∙ choice s.sync_open s.async_open (named m) o.sync o.no_channel)

start_channel-accepting_one :
    (session_id : ℕ) (s : Session) (c : Connections)
    → IsOpen session_id s c
    → Holds session_id (start_channel session_id (accepting_one session_id c))
unfolding start_channel is_accepted drop_first open_channel
start_channel-accepting_one session_id s c o =
    let same : (session_id == session_id) ≡ true = (==_iff session_id session_id).1 refl in
    rw (same, o.entry)
      (record {
        session = open_channel s;
        entry = get-put session_id session_id (open_channel s) c.server.sessions ∙ rw same refl;
        taken = refl;
        none_accepted = o.none_accepted;
      })

-- An ASYNC_INITIALIZE that names a session of the table, which is open, has no channel and is accepted
-- for no other connection, is acknowledged. If the channel begins before another connection comes, then
-- as long as it does not end, whatever connections come, begin and end, every connection that names
-- the session is refused, and changes nothing.
pub handle_async_exclusive :
    (m m' : Message) (s : Session) (c : Connections) (ops : List Op)
    → m.msg_type ≡ msg_async_initialize
    → IsOpen (named m) s c
    → All (KeepsChannel (named m)) ops
    → named m' ≡ named m
    → let c' = run_ops (connects (ok m) ∷ starts (named m) ∷ ops) c in
      ((handle_async (ok m) c).0 ≡ accepting) × (handle_async (ok m') c' ≡ (refusing, c'))
unfolding run_ops run_op
handle_async_exclusive m m' s c ops type o keeps same =
    let first = handle_async-accepting m s c type o in
    let begun : Holds (named m) (start_channel (named m) (handle_async (ok m) c).1) =
      rw first (start_channel-accepting_one (named m) s c o) in
    let c' = run_ops ops (start_channel (named m) (handle_async (ok m) c).1) in
    let held : Holds (named m') c' =
      subst (λ i. Holds i c') (sym same) (run_ops-Holds (named m) ops _ keeps begun) in
    (
      ap (λ r. r.0) first,
      unfold handle_async in ap (λ r. answered r c') (handle_async_connection_taken m' c' held),
    )
