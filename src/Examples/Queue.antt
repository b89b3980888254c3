-- ===== src/Examples/Queue.antt =====
-- errors.py and the status registers at concrete inputs.
use Prim.Native.Nat.{bit_and}
use pynq_sdk.Prelude.{◌≡◌, ◌-◌, true, [], ◌∷◌, ◌++◌, arith, length, replicate}
use pynq_sdk.Python.Text.{lit}
use pynq_sdk.Python.Int.{negsuc}
use pynq_sdk.Errors.{Errors, max_errors}
use pynq_sdk.Errors.Fifo.{push_all, last_n, read_all, texts, read_all-push_all}
use pynq_sdk.Status.{Registers, truthy, get_status_byte}
use pynq_sdk.Status.Byte.{byte_of, get_status_byte-byte_of}

-- One entry more than the queue holds.
abbrev history : Errors
history = (negsuc 299, lit "first") ∷ replicate 20 (negsuc 99, lit "Undefined header")

read_all-push_all_example :
    read_all 22 (push_all history [])
    ≡ texts (last_n max_errors history)
      ++ replicate (22 - length (last_n max_errors history)) (lit "0,\"No error\"")
read_all-push_all_example = read_all-push_all history 22 (unfold last_n in omega arith)

abbrev enabled : Registers
enabled = record { esr = 0x08; ese = 0x0C; sre = 0x30 }

get_status_byte-byte_of_example :
    get_status_byte true enabled
    ≡ byte_of true (truthy (bit_and enabled.esr enabled.ese)) enabled.sre
get_status_byte-byte_of_example = get_status_byte-byte_of true enabled (omega arith)
