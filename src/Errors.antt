-- ===== src/Errors.antt =====
-- pynq_instrument/errors.py: the instrument's error queue, `deque(maxlen=20)`. One process has one
-- queue; every operation runs under `_lock`, so each is one step on it. Oldest entry first.
pub mod Fifo
use pynq_sdk.Prelude.{ℕ, suc, ◌+◌, Bool, List, [], ◌∷◌, ◌++◌, length, leb, if◌then◌else◌}
use pynq_sdk.Python.Text.{Text, lit}
use pynq_sdk.Python.Int.{ℤ, pos, negsuc, str_int}

abbrev pub Errors : Type 0
Errors = List (ℤ × Text)

abbrev pub max_errors : ℕ
max_errors = 20

abbrev pub err_undefined_command : ℤ
err_undefined_command = negsuc 99

abbrev pub err_invalid_param : ℤ
err_invalid_param = negsuc 199

abbrev pub err_hardware : ℤ
err_hardware = negsuc 299

abbrev pub drop_oldest {ℓ} : {A : Type ℓ} → List A → List A
drop_oldest [] = []
drop_oldest (x ∷ xs) = xs

-- `append` to a full deque discards the entry at the other end
unfoldable pub push_error : ℤ → Text → Errors → Errors
push_error code message q =
    (if leb max_errors (length q) then drop_oldest q else q) ++ (code, message) ∷ []

-- f'{code},"{msg}"'
unfoldable pub format_error : ℤ → Text → Text
format_error code message = str_int code ++ lit ",\"" ++ message ++ lit "\""

unfoldable pub pop_error : Errors → Text × Errors
unfolding format_error
pop_error [] = (lit "0,\"No error\"", [])
pop_error ((code, message) ∷ q) = (format_error code message, q)

unfoldable pub error_count : Errors → ℕ
error_count q = length q

unfoldable pub clear_errors : Errors → Errors
clear_errors q = []
