-- ===== src/Session/Exchange.antt =====
-- One command in synchronous mode, from its message to its response.

use pynq_sdk.Prelude.{
  ℕ, suc, ◌≡◌, refl, sym, true, false, some, Bool-cases, inl, inr, List, [], ◌∷◌, ◌++◌, arith,
}
use mathlib.Core.Path.{subst}
use mathlib.Core.List.{append-nil}
use pynq_sdk.Python.Text.{Text, encode_ascii}
use pynq_sdk.Python.Exception.{ok}
use pynq_sdk.Hislip.{Message}
use pynq_sdk.Hislip.Codes.{msg_data_end}
use pynq_sdk.World.{Types, World, Externals}
use pynq_sdk.Dispatch.{dispatch_command}
use pynq_sdk.Session.{
  Item, Session, reading, idle, waiting, running, is_set, set_event, send_raw, send_payload,
}
use pynq_sdk.Session.Loops.{
  command_text, receive_step, on_message, on_data_end, enqueue_sync, emit_srq, finish_item, resume,
  answer_item,
}
use pynq_sdk.Session.Steps.{
  Event, receive, resume_wait, take_next, finish_command, received, taken, finished, resumed, Runs,
  stay, go,
}

-- A session in synchronous mode that waits for a message, with no command left.
abbrev pub rested : Session → Session
rested s = record s {
  overlap_mode = false;
  device_clear_pending = false;
  cmd_queue = [];
  cmd_buf = [];
  receiver = reading;
  dispatcher = idle;
}

-- the frame that answers a command
unfoldable pub data_end : ℕ → Text → Message
unfolding encode_ascii
data_end msg_param response = record {
  msg_type = msg_data_end;
  control_code = 0;
  msg_param = msg_param;
  payload = encode_ascii response;
}

-- an empty response is not sent
unfoldable pub replies : ℕ → Text → List Message
unfolding data_end
replies msg_param [] = []
replies msg_param (c ∷ r) = data_end msg_param (c ∷ r) ∷ []

-- A command that is received, taken from the queue, run once, and waited for.
abbrev pub exchange : Message → List Event
exchange m = receive (ok m) ∷ take_next ∷ finish_command ∷ resume_wait ∷ []

abbrev pub exchanges : List Message → List Event
exchanges [] = []
exchanges (m ∷ ms) = exchange m ++ exchanges ms

module _ {t : Types} (x : Externals t) where
  abbrev item_of : Message → Session → Item
  item_of m s = record {
    msg_param = m.msg_param;
    cmd_str = command_text m.payload;
    done_event = some s.next_event;
  }

  -- the session while the command is in the queue, and while it runs
  abbrev queued : Message → Session → Session
  queued m s = record (rested s) {
    next_event = suc s.next_event;
    current_sync_done = some s.next_event;
    cmd_queue = some (item_of m s) ∷ [];
    receiver = waiting s.next_event;
  }

  abbrev at_work : Message → Session → Session
  at_work m s = record (queued m s) { cmd_queue = []; dispatcher = running (item_of m s) }

  receive_step-queued :
      (m : Message) (s : Session) (w : World t)
      → m.msg_type ≡ msg_data_end
      → receive_step x (ok m) (rested s, w) ≡ (queued m s, w)
  unfolding receive_step on_message on_data_end enqueue_sync send_payload send_raw
  receive_step-queued m s w type = rw type refl

  -- the session once its command is done
  abbrev done : Message → Text → World t → Session → Session
  done m response w s =
      set_event (some s.next_event)
        (answer_item x (item_of m s) response w (record (at_work m s) { dispatcher = idle }))

  finish_item-done :
      (m : Message) (s : Session) (w w' : World t) (response : Text)
      → dispatch_command x (command_text m.payload) w ≡ (response, w')
      → finish_item x (item_of m s) (at_work m s, w) ≡ (done m response w' s, w')
  unfolding finish_item
  finish_item-done m s w w' response e = rw e refl

  is_set-first : (e : ℕ) (es : List ℕ) → is_set e (e ∷ es) ≡ true
  unfolding is_set
  is_set-first e es = ground arith

  -- What the command leaves: the receive loop can go on, and the session is as it was but for the
  -- response.
  record Served (m : Message) (response : Text) (w : World t) (s : Session) : Type 0 where
    event : is_set s.next_event (done m response w s).set_events ≡ true
    waits : (done m response w s).receiver ≡ waiting s.next_event
    at_rest : resume (done m response w s) ≡ rested (resume (done m response w s))
    answered : (resume (done m response w s)).sent ≡ s.sent ++ replies m.msg_param response

  done-Served : (m : Message) (response : Text) (w : World t) (s : Session) → Served m response w s
  unfolding emit_srq resume send_payload send_raw data_end replies
  done-Served m [] w s = record {
    event = is_set-first _ _;
    waits = refl;
    at_rest = refl;
    answered = sym (append-nil s.sent);
  }
  done-Served m (c ∷ r) w s = elim (Bool-cases s.has_async_writer) [
    | inl listens ↦
        rw listens
          (record { event = is_set-first _ _; waits = refl; at_rest = refl; answered = refl })
    | inr deaf ↦
        rw deaf (record { event = is_set-first _ _; waits = refl; at_rest = refl; answered = refl })
  ]

  -- In synchronous mode, a session that waits with no command left answers a DATA_END message in four
  -- steps of its loops: the message is received, its command is taken from the queue and run, once,
  -- and the session waits again. The shared state is the one that the command left, and what was sent
  -- is its response, in one frame with the message's parameter, or nothing if the response is empty.
  pub command_served :
      (m : Message) (s : Session) (w w' : World t) (response : Text)
      → m.msg_type ≡ msg_data_end
      → dispatch_command x (command_text m.payload) w ≡ (response, w')
      → (s' : Session) × Runs x (exchange m) (rested s, w) (rested s', w')
        × (s'.sent ≡ s.sent ++ replies m.msg_param response)
  command_served m s w w' response type runs =
      let f = done-Served m response w' s in
      let after = resume (done m response w' s) in
      let resuming : Runs x (resume_wait ∷ []) (done m response w' s, w')
          (resume (done m response w' s), w') =
        go (resumed f.waits f.event) stay in
      let last =
        subst (λ b. Runs x (resume_wait ∷ []) (done m response w' s, w') (b, w')) f.at_rest
          resuming in
      let work : Runs x (finish_command ∷ resume_wait ∷ []) (at_work m s, w) (rested after, w') =
        go (finished refl) (rw (finish_item-done m s w w' response runs) last) in
      let wait : Runs x (take_next ∷ finish_command ∷ resume_wait ∷ []) (queued m s, w)
          (rested after, w') =
        go (taken refl refl) work in
      (after, go (received (ok m) refl) (rw (receive_step-queued m s w type) wait), f.answered)
