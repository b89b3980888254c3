-- ===== src/Session/Invariant.antt =====
-- In every reachable state of a session.
pub mod Branches
pub mod Channel
pub mod Kept
use Prim.Native.Nat.{bit_or}
use pynq_sdk.Prelude.{
  ℕ, suc, ◌+◌, ◌≤◌, ◌≡◌, refl, sym, ap, ◌∙◌, ◌⊎◌, inl, inr, Bool, true, false, ◌||◌, ◌&&◌, Option,
  none, some, List, [], ◌∷◌, ◌++◌, leb, ◌==◌, if◌then◌else◌, length, arith, Bool-cases,
  length-append,
}
use pynq_sdk.Python.Text.{Text, Bytes}
use pynq_sdk.Python.Exception.{Exception, Result, ok, raised}
use pynq_sdk.Hislip.{Message}
use pynq_sdk.World.{Types, World, Externals}
use pynq_sdk.Session.{
  Item, Receiver, reading, closed, waiting, Dispatcher, idle, stopped, running, Session, is_set,
  new_session, queue_depth, put_nowait, set_event, send_raw, send_payload,
}
use pynq_sdk.Session.Loops.{
  State, receive_step, resume, take_item, finish_item, start_device_clear,
  send_device_clear_complete, wait_device_clear_acked, enqueue_overlap, enqueue_sync, on_data_end,
  drain, clear_queue, send_response, on_disconnect, emit_srq, dispatch_inline, on_clear_ack,
  on_trigger, on_message, answer_item,
}
use pynq_sdk.Session.Steps.{
  Step, received, resumed, taken, finished, handled, clear_ended, opened, shut, ended, elsewhere,
  Reachable, started, next,
}

-- What the tasks coordinate by.
pub record Core : Type 0 where
  pub queue : List (Option Item)
  pub events : List ℕ
  pub receiver : Receiver
  pub dispatcher : Dispatcher
  pub status : ℕ

abbrev pub core : Session → Core
core s = record {
  queue = s.cmd_queue;
  events = s.set_events;
  receiver = s.receiver;
  dispatcher = s.dispatcher;
  status = s.status_byte;
}

unfoldable pub no_sentinel : List (Option Item) → Bool
no_sentinel [] = true
no_sentinel (none ∷ q) = false
no_sentinel (some item ∷ q) = no_sentinel q

abbrev pub is_stopped : Dispatcher → Bool
is_stopped stopped = true
is_stopped _ = false

abbrev pub is_event : ℕ → Option ℕ → Bool
is_event e none = false
is_event e (some f) = f == e

unfoldable pub holds_event : ℕ → List (Option Item) → Bool
holds_event e [] = false
holds_event e (none ∷ q) = holds_event e q
holds_event e (some item ∷ q) = is_event e item.done_event || holds_event e q

abbrev pub runs_event : ℕ → Dispatcher → Bool
runs_event e (running item) = is_event e item.done_event
runs_event e _ = false

-- The event of a waiting receive loop is set, or its command is queued or running.
abbrev pub is_awake : Receiver → Core → Bool
is_awake (waiting e) c = is_set e c.events || holds_event e c.queue || runs_event e c.dispatcher
is_awake _ c = true

-- The dispatch loop goes on as long as the receive loop does.
abbrev pub is_served : Receiver → Core → Bool
is_served closed c = true
is_served _ c = no_sentinel c.queue && (if is_stopped c.dispatcher then false else true)

pub record IsSound (c : Core) : Type 0 where
  pub short : length c.queue ≤ queue_depth
  pub mav_only : (c.status ≡ 0) ⊎ (c.status ≡ 0x10)
  pub awake : is_awake c.receiver c ≡ true
  pub served : is_served c.receiver c ≡ true

pub holds_event-append :
    (e : ℕ) (q : List (Option Item)) (item : Item)
    → holds_event e (q ++ some item ∷ []) ≡ (holds_event e q || is_event e item.done_event)
unfolding holds_event
holds_event-append e [] item = ground arith
holds_event-append e (none ∷ q) item = holds_event-append e q item
holds_event-append e (some first ∷ q) item = ground (arith, holds_event-append e q item)

pub no_sentinel-append :
    (q : List (Option Item)) (item : Item) → no_sentinel (q ++ some item ∷ []) ≡ no_sentinel q
unfolding no_sentinel
no_sentinel-append [] item = refl
no_sentinel-append (none ∷ q) item = refl
no_sentinel-append (some first ∷ q) item = no_sentinel-append q item

pub mav_set : (n : ℕ) → (n ≡ 0) ⊎ (n ≡ 0x10) → (bit_or n 0x10 ≡ 0) ⊎ (bit_or n 0x10 ≡ 0x10)
mav_set n (inl h) = inr (ap (λ n. bit_or n 0x10) h)
mav_set n (inr h) = inr (ap (λ n. bit_or n 0x10) h)

-- An event more that is set.
is_awake_set :
    (r : Receiver) (e : ℕ) (c : Core)
    → is_awake r c ≡ true
    → is_awake r (record c { events = e ∷ c.events }) ≡ true
unfolding is_set
is_awake_set reading e c h = refl
is_awake_set closed e c h = refl
is_awake_set (waiting f) e c h = ground arith

pub is_served_events :
    (r : Receiver) (es : List ℕ) (c : Core)
    → is_served r c ≡ true
    → is_served r (record c { events = es }) ≡ true
is_served_events reading es c h = h
is_served_events closed es c h = h
is_served_events (waiting e) es c h = h

pub set_event-IsSound :
    (o : Option ℕ) (s : Session) → IsSound (core s) → IsSound (core (set_event o s))
set_event-IsSound none s h = h
set_event-IsSound (some e) s h = record {
  short = h.short;
  mav_only = h.mav_only;
  awake = is_awake_set s.receiver e (core s) h.awake;
  served = is_served_events s.receiver (e ∷ s.set_events) (core s) h.served;
}

-- A command more in the queue.
pub is_awake_put :
    (r : Receiver) (item : Item) (c : Core)
    → is_awake r c ≡ true
    → is_awake r (record c { queue = c.queue ++ some item ∷ [] }) ≡ true
is_awake_put reading item c h = refl
is_awake_put closed item c h = refl
is_awake_put (waiting e) item c h = ground (arith, holds_event-append e c.queue item)

pub is_served_put :
    (r : Receiver) (item : Item) (c : Core)
    → is_served r c ≡ true
    → is_served r (record c { queue = c.queue ++ some item ∷ [] }) ≡ true
is_served_put reading item c h = rw (no_sentinel-append c.queue item) h
is_served_put closed item c h = refl
is_served_put (waiting e) item c h = rw (no_sentinel-append c.queue item) h

-- The sentinel is only taken once the receive loop has ended.
pub taken_none :
    (r : Receiver) (c : Core) (q : List (Option Item))
    → c.queue ≡ none ∷ q
    → is_served r c ≡ true
    → (is_awake r (record c { queue = q; dispatcher = stopped }) ≡ true)
      × (is_served r (record c { queue = q; dispatcher = stopped }) ≡ true)
unfolding no_sentinel
taken_none reading c q e h = absurd (ground (arith, e))
taken_none closed c q e h = (refl, refl)
taken_none (waiting f) c q e h = absurd (ground (arith, e))

pub taken_dropped :
    (r : Receiver) (item : Item) (c : Core) (q : List (Option Item)) (es : List ℕ)
    → c.queue ≡ some item ∷ q
    → ((e : ℕ) → is_set e es ≡ (is_event e item.done_event || is_set e c.events))
    → is_awake r c ≡ true
    → is_awake r (record c { queue = q; events = es }) ≡ true
unfolding holds_event
taken_dropped reading item c q es eq set h = refl
taken_dropped closed item c q es eq set h = refl
taken_dropped (waiting e) item c q es eq set h = ground (arith, eq, set e)

pub taken_run :
    (r : Receiver) (item : Item) (c : Core) (q : List (Option Item))
    → c.queue ≡ some item ∷ q
    → c.dispatcher ≡ idle
    → is_awake r c ≡ true
    → is_awake r (record c { queue = q; dispatcher = running item }) ≡ true
unfolding holds_event
taken_run reading item c q eq d h = refl
taken_run closed item c q eq d h = refl
taken_run (waiting e) item c q eq d h = ground (arith, eq, d)

pub taken_served :
    (r : Receiver) (item : Item) (c : Core) (q : List (Option Item)) (d : Dispatcher)
    → c.queue ≡ some item ∷ q
    → is_stopped d ≡ false
    → is_served r c ≡ true
    → (is_served r (record c { queue = q; dispatcher = d }) ≡ true)
unfolding no_sentinel
taken_served reading item c q d eq go h = ground (arith, eq)
taken_served closed item c q d eq go h = refl
taken_served (waiting e) item c q d eq go h = ground (arith, eq)

pub finished_awake :
    (r : Receiver) (item : Item) (c : Core) (es : List ℕ)
    → c.dispatcher ≡ running item
    → ((e : ℕ) → is_set e es ≡ (is_event e item.done_event || is_set e c.events))
    → is_awake r c ≡ true
    → is_awake r (record c { events = es; dispatcher = idle }) ≡ true
finished_awake reading item c es d set h = refl
finished_awake closed item c es d set h = refl
finished_awake (waiting e) item c es d set h = ground (arith, d, set e)
