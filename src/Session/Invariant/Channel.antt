-- ===== src/Session/Invariant/Channel.antt =====
-- The asynchronous channel keeps the invariant.
use Prim.Native.Nat.{bit_and}
use pynq_sdk.Prelude.{ℕ, ◌≡◌, ◌⊎◌, inl, inr, ap, Bool, Bool-cases, ◌==◌}
use pynq_sdk.Hislip.{Message}
use pynq_sdk.Hislip.Codes.{
  msg_async_max_msg_size, msg_async_lock, msg_async_status_query, msg_async_device_clear,
  msg_async_remote_local_ctrl,
}
use pynq_sdk.Status.{truthy}
use pynq_sdk.Session.{Session, send_raw}
use pynq_sdk.Session.Loops.{start_device_clear, send_device_clear_complete, wait_device_clear_acked}
use pynq_sdk.Session.Channel.{
  handle, send, clear_mav, on_status_query, device_clear_begin, device_clear_end, sync_only,
}
use pynq_sdk.Session.Invariant.{core, IsSound}
use pynq_sdk.Session.Invariant.Branches.{
  if-IsSound, is_awake_status, is_served_status, start_device_clear-IsSound,
}

clear_mav_only : (n : ℕ) → (n ≡ 0) ⊎ (n ≡ 0x10) → (clear_mav n ≡ 0) ⊎ (clear_mav n ≡ 0x10)
clear_mav_only n (inl h) = inl (ap clear_mav h)
clear_mav_only n (inr h) = inl (ap clear_mav h)

on_status_query-IsSound :
    (control_code : ℕ) (s : Session)
    → IsSound (core s)
    → IsSound (core (on_status_query control_code s))
unfolding on_status_query send
on_status_query-IsSound control_code s h =
    let n = clear_mav s.status_byte in
    if-IsSound (truthy (bit_and control_code 1)) (record s { status_byte = n }) s
      (record {
        short = h.short;
        mav_only = clear_mav_only s.status_byte h.mav_only;
        awake = is_awake_status s.receiver n (core s) h.awake;
        served = is_served_status s.receiver n (core s) h.served;
      })
      h

device_clear_begin-IsSound :
    (s : Session) → IsSound (core s) → IsSound (core (device_clear_begin s))
unfolding device_clear_begin send_device_clear_complete send_raw
device_clear_begin-IsSound s h =
    let s' = start_device_clear s in
    let cleared = start_device_clear-IsSound s h in if-IsSound s'.sync_open _ _ cleared cleared

waited-IsSound : (s : Session) → IsSound (core s) → IsSound (core (wait_device_clear_acked s).1)
unfolding wait_device_clear_acked
waited-IsSound s h = elim (Bool-cases s.device_clear_done) [
  | inl done ↦ rw done h
  | inr late ↦ rw late h
]

pub device_clear_end-IsSound :
    (waits : Bool) (s : Session) → IsSound (core s) → IsSound (core (device_clear_end waits s))
unfolding device_clear_end send
device_clear_end-IsSound waits s h = if-IsSound waits _ _ (waited-IsSound s h) h

pub handle-IsSound : (m : Message) (s : Session) → IsSound (core s) → IsSound (core (handle m s))
unfolding handle send
handle-IsSound m s h = if-IsSound (m.msg_type == msg_async_max_msg_size) _ _ h (
    if-IsSound (m.msg_type == msg_async_lock) _ _ h (
      if-IsSound (m.msg_type == msg_async_status_query) _ _
        (on_status_query-IsSound m.control_code s h)
        (if-IsSound (m.msg_type == msg_async_device_clear) _ _ (device_clear_begin-IsSound s h) (
          if-IsSound (m.msg_type == msg_async_remote_local_ctrl) _ _ h
            (if-IsSound (sync_only m.msg_type) _ _ h h)))))
