-- ===== src/Session/Steps.antt =====
-- The steps that the tasks of a session can take, and what is true in every state they lead to.

use pynq_sdk.Prelude.{ℕ, ◌≡◌, Bool, true, not, ◌||◌, Option, List, [], ◌∷◌, ◌++◌}
use pynq_sdk.Python.Exception.{Result}
use pynq_sdk.Hislip.{Message}
use pynq_sdk.World.{Types, World, Externals}
use pynq_sdk.Session.Channel.{handle, device_clear_end, open_channel, close_channel}
use pynq_sdk.Session.{
  closed, stopped, Item, reading, waiting, idle, running, Session, is_set, new_session, handshake,
}
use pynq_sdk.Session.Loops.{State, receive_step, resume, take_item, finish_item, begin_run, end_run}

-- What a step does, without the state that it does it in.
pub data Event : Type 0 where
  receive : Result Message → Event
  resume_wait take_next finish_command join_channel leave_channel end_session : Event
  handle_message : Message → Event
  -- whether the synchronous channel was open, and whether the time was over
  end_clear : Bool → Bool → Event
  change_elsewhere : Event

module _ {t : Types} (x : Externals t) where
  pub data Step : State x → State x → Type 0 where
    received :
        (r : Result Message) {s : Session} {w : World t}
        → s.receiver ≡ reading
        → Step (s, w) (receive_step x r (s, w))
    resumed :
        {e : ℕ} {s : Session} {w : World t}
        → s.receiver ≡ waiting e
        → is_set e s.set_events ≡ true
        → Step (s, w) (resume s, w)
    taken :
        {item : Option Item} {q : List (Option Item)} {s : Session} {w : World t}
        → s.dispatcher ≡ idle
        → s.cmd_queue ≡ item ∷ q
        → Step (s, w) (take_item item (record s { cmd_queue = q }), w)
    finished :
        {item : Item} {s : Session} {w : World t}
        → s.dispatcher ≡ running item
        → Step (s, w) (finish_item x item (s, w))
    -- the asynchronous channel
    handled : (m : Message) {s : Session} {w : World t} → Step (s, w) (handle m s, w)
    clear_ended :
        (waits timed_out : Bool) {s : Session} {w : World t}
        → (not waits || s.device_clear_done || timed_out) ≡ true
        → Step (s, w) (device_clear_end waits s, w)
    opened : {s : Session} {w : World t} → Step (s, w) (open_channel s, w)
    shut : {s : Session} {w : World t} → Step (s, w) (close_channel s, w)
    -- both loops are over
    ended :
        {s : Session} {w : World t}
        → s.receiver ≡ closed
        → s.dispatcher ≡ stopped
        → Step (s, w) (end_run s, w)
    -- another session, or the client program, changes what is shared
    elsewhere : (w' : World t) {s : Session} {w : World t} → Step (s, w) (s, w')

  -- What a session can become once `run` has read a first message that the handshake accepts.
  pub data Reachable : State x → Type 0 where
    started :
        (session_id : ℕ) (first : Result Message) (w : World t)
        → (handshake first (begin_run (new_session session_id))).0 ≡ true
        → Reachable ((handshake first (begin_run (new_session session_id))).1, w)
    next : {a b : State x} → Reachable a → Step a b → Reachable b

  -- What the steps of a session can lead to from a state.
  pub data Later (a : State x) : State x → Type 0 where
    now : Later a a
    after : {b c : State x} → Later a b → Step b c → Later a c

  pub Later-Later : {a b c : State x} → Later a b → Later b c → Later a c
  Later-Later first now = first
  Later-Later first (after more step) = after (Later-Later first more) step

  abbrev pub event_of : {a b : State x} → Step a b → Event
  event_of (received r h) = receive r
  event_of (resumed h e) = resume_wait
  event_of (taken h e) = take_next
  event_of (finished h) = finish_command
  event_of (handled m) = handle_message m
  event_of (clear_ended waits timed_out h) = end_clear waits timed_out
  event_of opened = join_channel
  event_of shut = leave_channel
  event_of (ended r d) = end_session
  event_of (elsewhere w') = change_elsewhere

  -- These steps, one after the other, and no other.
  pub data Runs : List Event → State x → State x → Type 0 where
    stay : {a : State x} → Runs [] a a
    go :
        {es : List Event} {a b c : State x} (step : Step a b)
        → Runs es b c
        → Runs (event_of step ∷ es) a c

  pub Runs-append :
      {es fs : List Event} {a b c : State x} → Runs es a b → Runs fs b c → Runs (es ++ fs) a c
  Runs-append stay r = r
  Runs-append (go step first) r = go step (Runs-append first r)
