-- ===== src/Session/Invariant/Branches.antt =====
-- The branches of the loops keep the invariant.

use pynq_sdk.Prelude.{
  ℕ, ◌≡◌, refl, sym, ap, inl, inr, Bool, true, false, ◌||◌, Option, none, some, List, [], ◌∷◌, ◌++◌,
  leb, if◌then◌else◌, length, arith, Bool-cases, length-append,
}
use mathlib.Core.Path.{transport}
use pynq_sdk.Python.Text.{Text}
use pynq_sdk.Hislip.{Message}
use pynq_sdk.Session.{
  Item, Receiver, reading, closed, waiting, idle, running, Session, is_set, queue_depth, set_event,
  send_payload,
}
use pynq_sdk.Session.Loops.{
  resume, take_item, start_device_clear, command_text, enqueue_overlap, enqueue_sync, on_data_end,
  clear_queue, send_response, on_disconnect,
}
use pynq_sdk.Session.Invariant.{
  Core, core, IsSound, no_sentinel, is_stopped, is_event, holds_event, is_awake, is_served,
  set_event-IsSound, is_served_events, is_awake_put, is_served_put, taken_none, taken_dropped,
  taken_run, taken_served, holds_event-append, no_sentinel-append,
}

abbrev pub with_event : Option ℕ → List ℕ → List ℕ
with_event none es = es
with_event (some e) es = e ∷ es

pub is_set-with_event :
    (o : Option ℕ) (es : List ℕ) (e : ℕ)
    → is_set e (with_event o es) ≡ (is_event e o || is_set e es)
unfolding is_set
is_set-with_event none es e = refl
is_set-with_event (some f) es e = refl

abbrev pub more_events : Option ℕ → Core → Core
more_events o c = record c { events = with_event o c.events }

pub core-set_event :
    (o : Option ℕ) (s : Session)
    → core (set_event o s) ≡ record (core s) { events = with_event o s.set_events }
core-set_event none s = refl
core-set_event (some e) s = refl

pub if-IsSound :
    (b : Bool) (s s' : Session)
    → IsSound (core s)
    → IsSound (core s')
    → IsSound (core (if b then s else s'))
if-IsSound true s s' h h' = h
if-IsSound false s s' h h' = h'

pub core-send_response :
    (msg_param : ℕ) (r : Text) (s : Session) → core (send_response msg_param r s) ≡ core s
unfolding send_payload
core-send_response msg_param [] s = refl
core-send_response msg_param (c ∷ r) s = refl

pub enqueue_overlap-IsSound :
    (msg_param : ℕ) (cmd_str : Text) (s : Session)
    → IsSound (core s)
    → IsSound (core (enqueue_overlap msg_param cmd_str s))
unfolding enqueue_overlap send_payload
enqueue_overlap-IsSound msg_param cmd_str s h =
    elim (Bool-cases (leb queue_depth (length s.cmd_queue))) [
      | inl full ↦ rw full h
      | inr free ↦
          let item : Item = record {
            msg_param = msg_param;
            cmd_str = cmd_str;
            done_event = none;
          } in
          rw free (record {
            short = ground (arith, length-append s.cmd_queue (some item ∷ []));
            mav_only = h.mav_only;
            awake = is_awake_put s.receiver item (core s) h.awake;
            served = is_served_put s.receiver item (core s) h.served;
          })
    ]

pub enqueue_sync-IsSound :
    (msg_param : ℕ) (cmd_str : Text) (s : Session)
    → s.receiver ≡ reading
    → IsSound (core s)
    → IsSound (core (enqueue_sync msg_param cmd_str s))
unfolding enqueue_sync send_payload holds_event
enqueue_sync-IsSound msg_param cmd_str s r h =
    elim (Bool-cases (leb queue_depth (length s.cmd_queue))) [
      | inl full ↦ rw full h
      | inr free ↦
          let item : Item = record {
            msg_param = msg_param;
            cmd_str = cmd_str;
            done_event = some s.next_event;
          } in
          rw free (record {
            short = ground (arith, length-append s.cmd_queue (some item ∷ []));
            mav_only = h.mav_only;
            awake = ground (arith, holds_event-append s.next_event s.cmd_queue item);
            served = ground (arith, no_sentinel-append s.cmd_queue item, h.served, r);
          })
    ]

pub on_data_end-IsSound :
    (m : Message) (s : Session)
    → s.receiver ≡ reading
    → IsSound (core s)
    → IsSound (core (on_data_end m s))
unfolding on_data_end
on_data_end-IsSound m s r h =
    let s' = record s { cmd_buf = [] } in
    let text = command_text (s.cmd_buf ++ m.payload) in
    if-IsSound s.overlap_mode _ _ (enqueue_overlap-IsSound m.msg_param text s' h)
      (enqueue_sync-IsSound m.msg_param text s' r h)

pub clear_queue-IsSound :
    (s : Session) → s.receiver ≡ reading → IsSound (core s) → IsSound (core (clear_queue s))
unfolding clear_queue no_sentinel
clear_queue-IsSound s r h = record {
  short = omega arith;
  mav_only = h.mav_only;
  awake = rw r refl;
  served = ground (arith, h.served, r);
}

pub on_disconnect-IsSound : (s : Session) → IsSound (core s) → IsSound (core (on_disconnect s))
unfolding on_disconnect
on_disconnect-IsSound s h = elim (Bool-cases (leb queue_depth (length s.cmd_queue))) [
  | inl full ↦
      rw full (record { short = h.short; mav_only = h.mav_only; awake = refl; served = refl })
  | inr free ↦
      let sentinel : List (Option Item) = none ∷ [] in
      rw free (record {
        short = ground (arith, length-append s.cmd_queue sentinel);
        mav_only = h.mav_only;
        awake = refl;
        served = refl;
      })
]

pub take_item-IsSound :
    (item : Option Item) (q : List (Option Item)) (s : Session)
    → s.dispatcher ≡ idle
    → s.cmd_queue ≡ item ∷ q
    → IsSound (core s)
    → IsSound (core (take_item item (record s { cmd_queue = q })))
take_item-IsSound none q s d e h =
    let (a, v) = taken_none s.receiver (core s) q e h.served in
    record { short = ground (arith, h.short, e); mav_only = h.mav_only; awake = a; served = v }
take_item-IsSound (some item) q s d e h =
    let es = with_event item.done_event s.set_events in
    let go : is_stopped s.dispatcher ≡ false = rw d refl in
    if-IsSound s.device_clear_pending _ (record s { cmd_queue = q; dispatcher = running item })
      (transport (sym (ap IsSound (core-set_event item.done_event (record s { cmd_queue = q }))))
        (record {
          short = ground (arith, h.short, e);
          mav_only = h.mav_only;
          awake =
              taken_dropped s.receiver item (core s) q es e
                (is_set-with_event item.done_event s.set_events) h.awake;
          served =
              is_served_events s.receiver es (record (core s) { queue = q })
                (taken_served s.receiver item (core s) q s.dispatcher e go h.served);
        }))
      (record {
        short = ground (arith, h.short, e);
        mav_only = h.mav_only;
        awake = taken_run s.receiver item (core s) q e d h.awake;
        served = taken_served s.receiver item (core s) q (running item) e refl h.served;
      })

pub start_device_clear-IsSound :
    (s : Session) → IsSound (core s) → IsSound (core (start_device_clear s))
unfolding start_device_clear
start_device_clear-IsSound s h =
    set_event-IsSound s.current_sync_done
      (record s { device_clear_pending = true; device_clear_done = false }) h

pub is_awake_status :
    (r : Receiver) (n : ℕ) (c : Core)
    → is_awake r c ≡ true
    → is_awake r (record c { status = n }) ≡ true
is_awake_status reading n c h = h
is_awake_status closed n c h = h
is_awake_status (waiting e) n c h = h

pub is_served_status :
    (r : Receiver) (n : ℕ) (c : Core)
    → is_served r c ≡ true
    → is_served r (record c { status = n }) ≡ true
is_served_status reading n c h = h
is_served_status closed n c h = h
is_served_status (waiting e) n c h = h

pub finished_served :
    (r : Receiver) (c : Core) (es : List ℕ)
    → is_served r c ≡ true
    → is_served r (record c { events = es; dispatcher = idle }) ≡ true
finished_served reading c es h = ground arith
finished_served closed c es h = refl
finished_served (waiting e) c es h = ground arith

pub resume-IsSound :
    (e : ℕ) (s : Session) → s.receiver ≡ waiting e → IsSound (core s) → IsSound (core (resume s))
unfolding resume
resume-IsSound e s r h = record {
  short = h.short;
  mav_only = h.mav_only;
  awake = refl;
  served = ground (arith, h.served, r);
}
