-- ===== src/Session/Cleared.antt =====
-- What a device clear leaves of a session, once the client has acknowledged it.
use pynq_sdk.Prelude.{
  ℕ, ◌≡◌, refl, true, false, Option, none, some, List, [], ◌∷◌, ◌++◌, All, arith,
}
use pynq_sdk.Python.Text.{lit, encode_ascii}
use pynq_sdk.Python.Exception.{ok}
use pynq_sdk.Hislip.{Message}
use pynq_sdk.Hislip.Codes.{msg_device_clear_ack}
use pynq_sdk.World.{Types, World, Externals}
use pynq_sdk.Builtins.Commands.{register_builtins}
use pynq_sdk.Builtins.Replies.{dispatch-cls}
use pynq_sdk.Session.{Item, Session, is_set, send_raw, send_payload}
use pynq_sdk.Session.Loops.{
  drain, clear_queue, dispatch_inline, on_clear_ack, on_message, receive_step,
}
use pynq_sdk.Session.Exchange.{replies, data_end}

-- The event of a queue entry, if it has one, is set.
abbrev IsSetIn : List ℕ → Option ℕ → Type 0
IsSetIn es none = Unit {0}
IsSetIn es (some e) = is_set e es ≡ true

abbrev pub IsReleased : List ℕ → Option Item → Type 0
IsReleased es none = Unit {0}
IsReleased es (some item) = IsSetIn es item.done_event

abbrev add_event : Option ℕ → List ℕ → List ℕ
add_event o es = elim o [ none ↦ es | some e ↦ e ∷ es ]

is_set-add_event :
    (e : ℕ) (o : Option ℕ) (es : List ℕ) → is_set e es ≡ true → is_set e (add_event o es) ≡ true
unfolding is_set
is_set-add_event e none es h = h
is_set-add_event e (some f) es h = ground (arith, h)

is_set-drain :
    (e : ℕ) (q : List (Option Item)) (es : List ℕ)
    → is_set e es ≡ true
    → is_set e (drain q es) ≡ true
unfolding drain
is_set-drain e [] es h = h
is_set-drain e (none ∷ q) es h = is_set-drain e q es h
is_set-drain e (some item ∷ q) es h =
    is_set-drain e q (add_event item.done_event es) (is_set-add_event e item.done_event es h)

add_event-IsSetIn :
    (o : Option ℕ) (q : List (Option Item)) (es : List ℕ) → IsSetIn (drain q (add_event o es)) o
add_event-IsSetIn none q es = tt
add_event-IsSetIn (some e) q es = is_set-drain e q (e ∷ es) (unfold is_set in ground arith)

drain-IsReleased : (q : List (Option Item)) (es : List ℕ) → All (IsReleased (drain q es)) q
unfolding drain
drain-IsReleased [] es = tt
drain-IsReleased (none ∷ q) es = (tt, drain-IsReleased q es)
drain-IsReleased (some item ∷ q) es =
    (add_event-IsSetIn item.done_event q es, drain-IsReleased q (add_event item.done_event es))

-- the shared state after `*CLS`
abbrev pub cleared_world : {t : Types} → World t → World t
cleared_world w = record w { registers = record w.registers { esr = 0 }; errors = [] }

-- What is left: no command, no half of one, nothing pending, no event and no error; who waited for
-- a queued command goes on, and `*CLS` was answered.
pub record IsCleared {t : Types} (before : Session) (after : Session) (w w' : World t)
    : Type 0 where
  pub queue : after.cmd_queue ≡ []
  pub buffer : after.cmd_buf ≡ []
  pub pending : after.device_clear_pending ≡ false
  pub acknowledged : after.device_clear_done ≡ true
  pub released : All (IsReleased after.set_events) before.cmd_queue
  pub answered : after.sent ≡ before.sent ++ replies 0 (lit "OK")
  pub world : w' ≡ cleared_world w

module _ {t : Types} (x : Externals t) where
  unfoldable pub cleared : Session → Session
  unfolding send_payload clear_queue encode_ascii
  cleared s = record (send_payload 0 (encode_ascii (lit "OK")) (clear_queue s)) {
    device_clear_done = true;
  }

  pub receive_step-cleared :
      (m : Message) (s : Session) (w0 : World t)
      → m.msg_type ≡ msg_device_clear_ack
      → receive_step x (ok m) (s, register_builtins w0)
        ≡ (cleared s, cleared_world (register_builtins w0))
  unfolding receive_step on_message on_clear_ack dispatch_inline cleared
  receive_step-cleared m s w0 type = rw (type, dispatch-cls x w0) refl

  -- An instrument whose built-in commands are registered, at the client's acknowledgement of a device
  -- clear: the queue and the buffer are empty, nobody waits for a dropped command, the event register
  -- and the error queue are clear, and the answer of `*CLS` was sent.
  pub receive_step-IsCleared :
      (m : Message) (s : Session) (w0 : World t)
      → m.msg_type ≡ msg_device_clear_ack
      → (s' : Session) × (w' : World t) × (receive_step x (ok m) (s, register_builtins w0)
          ≡ (s', w'))
        × IsCleared s s' (register_builtins w0) w'
  receive_step-IsCleared m s w0 type =
      let w = register_builtins w0 in
      (
        cleared s,
        cleared_world w,
        receive_step-cleared m s w0 type,
        unfold cleared clear_queue send_payload send_raw replies data_end in
            record {
              queue = refl;
              buffer = refl;
              pending = refl;
              acknowledged = refl;
              released = drain-IsReleased s.cmd_queue s.set_events;
              answered = refl;
              world = refl;
            },
      )
