-- ===== src/Server/Held.antt =====
-- A session that has a channel keeps it, whatever other connections do.
use mathlib.Core.Path.{subst}
use pynq_sdk.Prelude.{◌⊎◌, arith}
use pynq_sdk.Prelude.{
  ℕ, ◌≡◌, refl, sym, ◌∙◌, ap, Bool, true, false, not, ◌||◌, Option, none, some, Bool-cases, inl,
  inr, List, [], ◌∷◌, ◌==◌, ==_iff, if◌then◌else◌,
}
use pynq_sdk.Python.Exception.{Result, ok, raised}
use pynq_sdk.Python.Dict
use pynq_sdk.Python.Dict.{Dict, nat_key, get-put}
use pynq_sdk.Hislip.{Message}
use pynq_sdk.Hislip.Codes.{msg_async_initialize}
use pynq_sdk.Session.{Session}
use pynq_sdk.Session.Channel.{handle_async_connection, refuse_connection, correlate, open_channel}
use pynq_sdk.Server.Channels.{
  Connections, is_accepted, drop_first, answered, handle_async, change_session, start_channel,
  named, accepting, refusing,
}

pub choice :
    (a b : Bool) (session_id : ℕ)
    → a ≡ true
    → b ≡ false
    → (if not a || b then refuse_connection else (accepting, some session_id))
      ≡ (accepting, some session_id)
choice a b session_id ea eb = rw (ea, eb) refl

correlate-none :
    (a b : Bool) (session_id : ℕ)
    → b ≡ true
    → (if not a || b then refuse_connection else (accepting, some session_id)) ≡ (refusing, none)
correlate-none true b session_id e = rw e refl
correlate-none false b session_id e = refl

pub handle_async_connection-correlate :
    (m : Message) (sessions : Dict ℕ Session)
    → m.msg_type ≡ msg_async_initialize
    → handle_async_connection (ok m) sessions ≡ correlate (named m) (Dict.get (named m) sessions)
unfolding handle_async_connection
handle_async_connection-correlate m sessions type = rw type refl

handle_async_connection_other :
    (m : Message) (sessions : Dict ℕ Session)
    → (m.msg_type == msg_async_initialize) ≡ false
    → handle_async_connection (ok m) sessions ≡ (refusing, none)
unfolding handle_async_connection
handle_async_connection_other m sessions other = rw other refl

-- A session that has a channel, while no connection is accepted for it.
pub record Holds (session_id : ℕ) (c : Connections) : Type 0 where
  pub session : Session
  pub entry : Dict.get session_id c.server.sessions ≡ some session
  pub taken : session.async_open ≡ true
  pub none_accepted : is_accepted session_id c.accepted_for ≡ false

correlate_taken :
    (session_id : ℕ) (s : Session)
    → s.async_open ≡ true
    → correlate session_id (some s) ≡ (refusing, none)
correlate_taken session_id s taken = correlate-none s.sync_open s.async_open session_id taken

-- No connection is accepted for such a session.
pub handle_async_connection_taken :
    (m : Message) (c : Connections)
    → Holds (named m) c
    → handle_async_connection (ok m) c.server.sessions ≡ (refusing, none)
handle_async_connection_taken m c h = elim (Bool-cases (m.msg_type == msg_async_initialize)) [
  | inl initializes ↦
      handle_async_connection-correlate m c.server.sessions
        ((==_iff m.msg_type msg_async_initialize).0 initializes)
      ∙ ap (correlate (named m)) h.entry
      ∙ correlate_taken (named m) h.session h.taken
  | inr other ↦ handle_async_connection_other m c.server.sessions other
]

-- A message is accepted for no session but the one that it names.
accepts_named :
    (m : Message) (sessions : Dict ℕ Session)
    → let r = handle_async_connection (ok m) sessions in (r.1 ≡ none) ⊎ (r.1 ≡ some (named m))
unfolding handle_async_connection
accepts_named m sessions = elim (Bool-cases (m.msg_type == msg_async_initialize)) [
  | inl initializes ↦ rw initializes (by_entry (Dict.get (named m) sessions))
  | inr other ↦ rw other (inl refl)
]
  where
    by_entry :
        (o : Option Session)
        → ((correlate (named m) o).1 ≡ none) ⊎ ((correlate (named m) o).1 ≡ some (named m))
    by_entry none = inl refl
    by_entry (some s) = elim (Bool-cases (not s.sync_open || s.async_open)) [
      | inl refuses ↦ rw refuses (inl refl)
      | inr takes ↦ rw takes (inr refl)
    ]

answered-Holds :
    (session_id i : ℕ) (sent : List Message) (o : Option ℕ) (c : Connections)
    → (o ≡ none) ⊎ (o ≡ some i)
    → (i == session_id) ≡ false
    → Holds session_id c
    → Holds session_id (answered (sent, o) c).1
answered-Holds session_id i sent none c e ne h = h
answered-Holds session_id i sent (some j) c (inl e) ne h = absurd (cc e)
answered-Holds session_id i sent (some j) c (inr e) ne h = record {
  session = h.session;
  entry = h.entry;
  taken = h.taken;
  none_accepted = unfold is_accepted in ground (arith, e, ne, h.none_accepted);
}

pub handle_async-Holds :
    (session_id : ℕ) (first : Result Message) (c : Connections)
    → Holds session_id c
    → Holds session_id (handle_async first c).1
unfolding handle_async
handle_async-Holds session_id (raised e) c h = unfold handle_async_connection in h
handle_async-Holds session_id (ok m) c h = elim (Bool-cases (named m == session_id)) [
  | inl same ↦
      let here : Holds (named m) c =
        subst (λ i. Holds i c) (sym ((==_iff (named m) session_id).0 same)) h in
      rw (handle_async_connection_taken m c here) h
  | inr other ↦
      answered-Holds session_id (named m) _ _ c (accepts_named m c.server.sessions) other h
]

pub change_session-Holds :
    (f : Session → Session) (session_id i : ℕ) (o : Option Session) (c : Connections) (ids : List ℕ)
    → (i == session_id) ≡ false
    → is_accepted session_id ids ≡ false
    → Holds session_id c
    → Holds session_id (record { server = change_session f i o c.server; accepted_for = ids })
change_session-Holds f session_id i none c ids ne free h = record {
  session = h.session;
  entry = h.entry;
  taken = h.taken;
  none_accepted = free;
}
change_session-Holds f session_id i (some s) c ids ne free h = record {
  session = h.session;
  entry = get-put i session_id (f s) c.server.sessions ∙ rw ne h.entry;
  taken = h.taken;
  none_accepted = free;
}

is_accepted-drop_first :
    (session_id i : ℕ) (ids : List ℕ)
    → is_accepted session_id ids ≡ false
    → is_accepted session_id (drop_first i ids) ≡ false
unfolding is_accepted drop_first
is_accepted-drop_first session_id i [] h = refl
is_accepted-drop_first session_id i (j ∷ ids) h =
    ground (arith, h, is_accepted-drop_first session_id i ids)

pub start_channel-Holds :
    (session_id i : ℕ) (c : Connections) → Holds session_id c → Holds session_id (start_channel i c)
unfolding start_channel
start_channel-Holds session_id i c h = elim (Bool-cases (is_accepted i c.accepted_for)) [
  | inl there ↦ rw there (
      change_session-Holds open_channel session_id i _ c _ (not_here there)
        (is_accepted-drop_first session_id i c.accepted_for h.none_accepted) h)
  | inr absent ↦ rw absent h
]
  where
    not_here : is_accepted i c.accepted_for ≡ true → (i == session_id) ≡ false
    not_here there = elim (Bool-cases (i == session_id)) [
      | inl same ↦ absurd (let e = (==_iff i session_id).0 same in cc (there, e, h.none_accepted))
      | inr other ↦ other
    ]
