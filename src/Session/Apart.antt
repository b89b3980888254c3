-- ===== src/Session/Apart.antt =====
-- The asynchronous channel leaves the queue and the two loops where they are.
use Prim.Native.Nat.{bit_and}
use pynq_sdk.Prelude.{◌≡◌, refl, ℕ, Bool, true, false, Option, none, some, if◌then◌else◌, ◌==◌}
use pynq_sdk.Hislip.{Message}
use pynq_sdk.Hislip.Codes.{
  msg_async_max_msg_size, msg_async_lock, msg_async_status_query, msg_async_device_clear,
  msg_async_remote_local_ctrl,
}
use pynq_sdk.Status.{truthy}
use pynq_sdk.Session.{Session, send_raw, set_event}
use pynq_sdk.Session.Loops.{start_device_clear, send_device_clear_complete, wait_device_clear_acked}
use pynq_sdk.Session.Channel.{
  handle, send, on_status_query, device_clear_begin, device_clear_end, sync_only,
}

pub record SameLoops (s' s : Session) : Type 0 where
  pub same_queue : s'.cmd_queue ≡ s.cmd_queue
  pub same_receiver : s'.receiver ≡ s.receiver
  pub same_dispatcher : s'.dispatcher ≡ s.dispatcher

if-SameLoops :
    (b : Bool) (a a' s : Session)
    → SameLoops a s
    → SameLoops a' s
    → SameLoops (if b then a else a') s
if-SameLoops true a a' s h h' = h
if-SameLoops false a a' s h h' = h'

start_device_clear-SameLoops : (s : Session) → SameLoops (start_device_clear s) s
unfolding start_device_clear
start_device_clear-SameLoops s = by_event s.current_sync_done
  where
    cleared : Session
    cleared = record s { device_clear_pending = true; device_clear_done = false }

    by_event : (o : Option ℕ) → SameLoops (set_event o cleared) s
    by_event none = record { same_queue = refl; same_receiver = refl; same_dispatcher = refl }
    by_event (some e) = record { same_queue = refl; same_receiver = refl; same_dispatcher = refl }

device_clear_begin-SameLoops : (s : Session) → SameLoops (device_clear_begin s) s
unfolding device_clear_begin send_device_clear_complete send_raw
device_clear_begin-SameLoops s =
    let h = start_device_clear-SameLoops s in
    let h' : SameLoops (send_device_clear_complete (start_device_clear s)) s = record {
      same_queue = h.same_queue;
      same_receiver = h.same_receiver;
      same_dispatcher = h.same_dispatcher;
    } in
    if-SameLoops (start_device_clear s).sync_open _ _ s h' h

pub device_clear_end-SameLoops :
    (waits : Bool) (s : Session) → SameLoops (device_clear_end waits s) s
unfolding device_clear_end send wait_device_clear_acked
device_clear_end-SameLoops true s = by_time s.device_clear_done refl
  where
    by_time : (b : Bool) → s.device_clear_done ≡ b → SameLoops (device_clear_end true s) s
    by_time true e =
        rw e (record { same_queue = refl; same_receiver = refl; same_dispatcher = refl })
    by_time false e =
        rw e (record { same_queue = refl; same_receiver = refl; same_dispatcher = refl })
device_clear_end-SameLoops false s = record {
  same_queue = refl;
  same_receiver = refl;
  same_dispatcher = refl;
}

on_status_query-SameLoops :
    (control_code : ℕ) (s : Session) → SameLoops (on_status_query control_code s) s
unfolding on_status_query send
on_status_query-SameLoops control_code s = by_bit (truthy (bit_and control_code 1)) refl
  where
    by_bit :
        (b : Bool)
        → truthy (bit_and control_code 1) ≡ b
        → SameLoops (on_status_query control_code s) s
    by_bit true e =
        rw e (record { same_queue = refl; same_receiver = refl; same_dispatcher = refl })
    by_bit false e =
        rw e (record { same_queue = refl; same_receiver = refl; same_dispatcher = refl })

pub handle-SameLoops : (m : Message) (s : Session) → SameLoops (handle m s) s
unfolding handle send
handle-SameLoops m s =
    if-SameLoops (m.msg_type == msg_async_max_msg_size) _ _ s
      (record { same_queue = refl; same_receiver = refl; same_dispatcher = refl })
      (if-SameLoops (m.msg_type == msg_async_lock) _ _ s
        (record { same_queue = refl; same_receiver = refl; same_dispatcher = refl })
        (if-SameLoops (m.msg_type == msg_async_status_query) _ _ s
          (on_status_query-SameLoops m.control_code s)
          (if-SameLoops (m.msg_type == msg_async_device_clear) _ _ s
            (device_clear_begin-SameLoops s)
            (if-SameLoops (m.msg_type == msg_async_remote_local_ctrl) _ _ s
              (record { same_queue = refl; same_receiver = refl; same_dispatcher = refl })
              (if-SameLoops (sync_only m.msg_type) _ _ s
                (record { same_queue = refl; same_receiver = refl; same_dispatcher = refl })
                (record { same_queue = refl; same_receiver = refl; same_dispatcher = refl }))))))
