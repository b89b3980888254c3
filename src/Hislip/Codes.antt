-- ===== src/Hislip/Codes.antt =====
-- The message types and error codes of pynq_instrument/hislip.py.
use Prim.Native.Nat.{ℕ}

abbrev pub msg_initialize : ℕ
msg_initialize = 0

abbrev pub msg_initialize_response : ℕ
msg_initialize_response = 1

abbrev pub msg_fatal_error : ℕ
msg_fatal_error = 2

abbrev pub msg_error : ℕ
msg_error = 3

abbrev pub msg_async_lock : ℕ
msg_async_lock = 4

abbrev pub msg_async_lock_response : ℕ
msg_async_lock_response = 5

abbrev pub msg_data : ℕ
msg_data = 6

abbrev pub msg_data_end : ℕ
msg_data_end = 7

abbrev pub msg_device_clear_complete : ℕ
msg_device_clear_complete = 8

abbrev pub msg_device_clear_ack : ℕ
msg_device_clear_ack = 9

abbrev pub msg_async_remote_local_ctrl : ℕ
msg_async_remote_local_ctrl = 10

abbrev pub msg_async_remote_local_resp : ℕ
msg_async_remote_local_resp = 11

abbrev pub msg_trigger : ℕ
msg_trigger = 12

abbrev pub msg_interrupted : ℕ
msg_interrupted = 13

abbrev pub msg_async_interrupted : ℕ
msg_async_interrupted = 14

abbrev pub msg_async_max_msg_size : ℕ
msg_async_max_msg_size = 15

abbrev pub msg_async_max_msg_size_resp : ℕ
msg_async_max_msg_size_resp = 16

abbrev pub msg_async_initialize : ℕ
msg_async_initialize = 17

abbrev pub msg_async_initialize_resp : ℕ
msg_async_initialize_resp = 18

abbrev pub msg_async_device_clear : ℕ
msg_async_device_clear = 19

abbrev pub msg_async_service_request : ℕ
msg_async_service_request = 20

abbrev pub msg_async_status_query : ℕ
msg_async_status_query = 21

abbrev pub msg_async_status_response : ℕ
msg_async_status_response = 22

abbrev pub msg_async_dev_clear_ack : ℕ
msg_async_dev_clear_ack = 23

abbrev pub msg_async_lock_info : ℕ
msg_async_lock_info = 24

abbrev pub msg_async_lock_info_resp : ℕ
msg_async_lock_info_resp = 25

abbrev pub err_unidentified : ℕ
err_unidentified = 0

abbrev pub err_poorly_formed : ℕ
err_poorly_formed = 1

abbrev pub err_attempt_to_use_conn : ℕ
err_attempt_to_use_conn = 2

abbrev pub err_invalid_init_seq : ℕ
err_invalid_init_seq = 3

abbrev pub err_server_refused : ℕ
err_server_refused = 4
