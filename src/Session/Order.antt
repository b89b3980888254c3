-- ===== src/Session/Order.antt =====
-- The order in which queued commands are answered.
use mathlib.Core.List.{append-nil, append_assoc}
use pynq_sdk.Prelude.{
  ℕ, ◌≡◌, refl, sym, ap, ◌∙◌, Bool, true, false, Option, none, some, List, [], ◌∷◌, ◌++◌, map,
}
use pynq_sdk.Python.Text.{Text, encode_ascii}
use pynq_sdk.Hislip.{Message}
use pynq_sdk.Hislip.Codes.{msg_data_end}
use pynq_sdk.World.{Types, World, Externals}
use pynq_sdk.Dispatch.{dispatch_command}
use pynq_sdk.Session.{Item, idle, running, Session, set_event, send_raw, send_payload}
use pynq_sdk.Session.Loops.{take_item, finish_item, answer_item, emit_srq}
use pynq_sdk.Session.Steps.{Event, take_next, finish_command, taken, finished, Runs, stay, go}

-- The frames that answer one command: none for an empty response.
abbrev pub answer_of : Item → Text → List Message
answer_of item [] = []
answer_of item (c ∷ r) =
    (record {
      msg_type = msg_data_end;
      control_code = 0;
      msg_param = item.msg_param;
      payload = encode_ascii (c ∷ r);
    })
    ∷ []

-- `s'` is `s` after these frames, with the same queue.
record Follows (s' s : Session) (frames : List Message) : Type 0 where
  same_queue : s'.cmd_queue ≡ s.cmd_queue
  same_pending : s'.device_clear_pending ≡ s.device_clear_pending
  same_dispatcher : s'.dispatcher ≡ s.dispatcher
  more_sent : s'.sent ≡ s.sent ++ frames

set_event-Follows :
    (o : Option ℕ) (s' s : Session) (frames : List Message)
    → Follows s' s frames
    → Follows (set_event o s') s frames
set_event-Follows none s' s frames h = h
set_event-Follows (some e) s' s frames h = record {
  same_queue = h.same_queue;
  same_pending = h.same_pending;
  same_dispatcher = h.same_dispatcher;
  more_sent = h.more_sent;
}

-- Each command is taken from the queue and run.
abbrev pub rounds : List Item → List Event
rounds [] = []
rounds (item ∷ items) = take_next ∷ finish_command ∷ rounds items

module _ {t : Types} (x : Externals t) where
  -- What the commands are answered with, one after the other.
  unfoldable pub answers : List Item → World t → List Message
  unfolding dispatch_command
  answers [] w = []
  answers (item ∷ items) w =
      let (response, w') = dispatch_command x item.cmd_str w in
      answer_of item response ++ answers items w'

  -- What the commands leave of the shared state, one after the other.
  unfoldable pub outcome : List Item → World t → World t
  unfolding dispatch_command
  outcome [] w = w
  outcome (item ∷ items) w = outcome items (dispatch_command x item.cmd_str w).1

  answer_item-Follows :
      (item : Item) (r : Text) (w : World t) (s : Session)
      → Follows (answer_item x item r w s) s (answer_of item r)
  unfolding send_payload send_raw emit_srq
  answer_item-Follows item [] w s = record {
    same_queue = refl;
    same_pending = refl;
    same_dispatcher = refl;
    more_sent = sym (append-nil s.sent);
  }
  answer_item-Follows item (c ∷ r) w s = by_writer s.has_async_writer refl
    where
      by_writer :
          (b : Bool)
          → s.has_async_writer ≡ b
          → Follows (answer_item x item (c ∷ r) w s) s (answer_of item (c ∷ r))
      by_writer true e = rw e (record {
        same_queue = refl;
        same_pending = refl;
        same_dispatcher = refl;
        more_sent = refl;
      })
      by_writer false e = rw e (record {
        same_queue = refl;
        same_pending = refl;
        same_dispatcher = refl;
        more_sent = refl;
      })

  finish_item-Follows :
      (item : Item) (s : Session) (w : World t)
      → Follows
          (finish_item x item (s, w)).0
          (record s { dispatcher = idle })
          (answer_of item (dispatch_command x item.cmd_str w).0)
  unfolding finish_item
  finish_item-Follows item s w =
      let (response, w') = dispatch_command x item.cmd_str w in
      set_event-Follows item.done_event _ _ _
        (answer_item-Follows item response w' (record s { dispatcher = idle }))

  -- From an idle dispatch loop with commands in the queue, no sentinel among them and no device
  -- clear pending, the loop takes and runs them in turn, with no other step between: the queue is
  -- empty and the loop idle; the commands were answered in their order, each under its own message id
  -- and on the state that those before it left, and an empty response sent nothing; and the shared
  -- state is the one that they leave, each run once.
  pub queue-answers :
      (items : List Item) (s : Session) (w : World t)
      → s.cmd_queue ≡ map some items
      → s.dispatcher ≡ idle
      → s.device_clear_pending ≡ false
      → (s' : Session) × Runs x (rounds items) (s, w) (s', outcome items w)
        × (s'.cmd_queue ≡ [])
        × (s'.dispatcher ≡ idle)
        × (s'.sent ≡ s.sent ++ answers items w)
  unfolding answers outcome finish_item
  queue-answers [] s w q d p = (s, stay, q, d, sym (append-nil s.sent))
  queue-answers (item ∷ items) s w q d p =
      let s1 = take_item (some item) (record s { cmd_queue = map some items }) in
      let runs : s1.dispatcher ≡ running item = rw p refl in
      let response = (dispatch_command x item.cmd_str w).0 in
      let (s2, w2) = finish_item x item (s1, w) in
      let f = finish_item-Follows item s1 w in
      let queue1 : s1.cmd_queue ≡ map some items = rw p refl in
      let pending1 : s1.device_clear_pending ≡ false = rw p refl in
      let sent1 : s1.sent ≡ s.sent = rw p refl in
      let (s', later, empty, rests, sent) =
        queue-answers items s2 w2 (f.same_queue ∙ queue1) f.same_dispatcher
          (f.same_pending ∙ pending1) in
      (
        s',
        go (taken d q) (go (finished runs) later),
        empty,
        rests,
        sent
            ∙ ap (λ l. l ++ answers items w2)
                (f.more_sent ∙ ap (λ l. l ++ answer_of item response) sent1)
            ∙ append_assoc s.sent (answer_of item response) (answers items w2),
      )
