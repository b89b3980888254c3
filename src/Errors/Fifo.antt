-- ===== src/Errors/Fifo.antt =====
-- The queue against the history of pushes: it holds the newest twenty, oldest first.
use mathlib.Core.List.{append-nil, append_assoc}
use pynq_sdk.Prelude.{
  sym, ap, ◌∙◌, inl, inr, true, Bool-cases, leb→le, map, replicate, length-drop, ℕ, zero, suc, ◌-◌,
  ◌≤◌, ◌≡◌, refl, List, [], ◌∷◌, ◌++◌, arith, length, length-append, drop, leb,
}
use pynq_sdk.Python.Text.{Text, lit}
use pynq_sdk.Python.Int.{ℤ}
use pynq_sdk.Errors.{
  Errors, max_errors, push_error, drop_oldest, pop_error, clear_errors, error_count, format_error,
}

unfoldable pub push_all : List (ℤ × Text) → Errors → Errors
push_all [] q = q
push_all ((code, message) ∷ history) q = push_all history (push_error code message q)

-- The last `n` entries of a list.
unfoldable pub last_n {ℓ} : {A : Type ℓ} → ℕ → List A → List A
last_n n xs = drop (length xs - n) xs

drop_append_one {ℓ} :
    {A : Type ℓ} (k : ℕ) (xs : List A) (x : A)
    → k ≤ length xs
    → drop k (xs ++ x ∷ []) ≡ drop k xs ++ x ∷ []
drop_append_one zero xs x h = refl
drop_append_one (suc k) [] x h = absurd (omega arith)
drop_append_one (suc k) (y ∷ xs) x h = drop_append_one k xs x (omega arith)

drop-suc {ℓ} : {A : Type ℓ} (k : ℕ) (xs : List A) → drop (suc k) xs ≡ drop_oldest (drop k xs)
drop-suc zero [] = refl
drop-suc zero (x ∷ xs) = refl
drop-suc (suc k) [] = refl
drop-suc (suc k) (x ∷ xs) = drop-suc k xs

-- One push moves the window by one.
push_error-last_n :
    (code : ℤ) (message : Text) (g : Errors)
    → push_error code message (last_n max_errors g) ≡ last_n max_errors (g ++ (code, message) ∷ [])
unfolding push_error last_n
push_error-last_n code message g = elim (Bool-cases (leb max_errors (length g))) [
  | inl full ↦
      let room = leb→le max_errors (length g) full in
      let k = length g - max_errors in
      let kept : leb max_errors (length (drop k g)) ≡ true = ground (arith, length-drop k g) in
      let next : length (g ++ (code, message) ∷ []) - max_errors ≡ suc k =
        omega (arith, length-append g ((code, message) ∷ [])) in
      rw (kept, next)
        (ap (λ q. q ++ (code, message) ∷ []) (sym (drop-suc k g))
          ∙ sym (drop_append_one (suc k) g (code, message) (omega arith)))
  | inr free ↦
      let now : length g - max_errors ≡ 0 = ground arith in
      let next : length (g ++ (code, message) ∷ []) - max_errors ≡ 0 =
        ground (arith, length-append g ((code, message) ∷ [])) in
      rw (now, free, next)
]

pub push_all-last_n_append :
    (history g : Errors) → push_all history (last_n max_errors g) ≡ last_n max_errors (g ++ history)
unfolding push_all
push_all-last_n_append [] g = rw append-nil
push_all-last_n_append ((code, message) ∷ history) g = rw (push_error-last_n code message g) (
    push_all-last_n_append history (g ++ (code, message) ∷ [])
    ∙ ap (last_n max_errors) (append_assoc g ((code, message) ∷ []) history))

-- After any history of pushes on an empty queue, the queue holds the newest twenty entries of the
-- history, oldest first.
pub push_all-eq-last_n : (history : Errors) → push_all history [] ≡ last_n max_errors history
unfolding last_n
push_all-eq-last_n history = push_all-last_n_append history []

-- The calls that the instrument makes on the queue.
pub data ErrorOp : Type 0 where
  push : ℤ → Text → ErrorOp
  pop clear : ErrorOp

unfoldable pub run_op : ErrorOp → Errors → Errors
unfolding push_error pop_error clear_errors
run_op (push code message) q = push_error code message q
run_op pop q = (pop_error q).1
run_op clear q = clear_errors q

unfoldable pub run_ops : List ErrorOp → Errors → Errors
unfolding run_op
run_ops [] q = q
run_ops (op ∷ ops) q = run_ops ops (run_op op q)

drop_oldest-length {ℓ} : {A : Type ℓ} (q : List A) → length (drop_oldest q) ≡ length q - 1
drop_oldest-length [] = omega arith
drop_oldest-length (x ∷ q) = omega arith

run_op_bound :
    (op : ErrorOp) (q : Errors)
    → error_count q ≤ max_errors
    → error_count (run_op op q) ≤ max_errors
unfolding run_op error_count
run_op_bound (push code message) q h = ground (
  arith,
  length-append q ((code, message) ∷ []),
  drop_oldest-length q,
  length-append (drop_oldest q) ((code, message) ∷ []),
)
run_op_bound pop [] h = omega arith
run_op_bound pop ((c, m) ∷ q) h = omega arith
run_op_bound clear q h = omega arith

-- Whatever pushes, pops and clears are made, a queue of at most twenty entries stays so.
pub run_ops_bound :
    (ops : List ErrorOp) (q : Errors)
    → error_count q ≤ max_errors
    → error_count (run_ops ops q) ≤ max_errors
unfolding run_ops
run_ops_bound [] q h = h
run_ops_bound (op ∷ ops) q h = run_ops_bound ops (run_op op q) (run_op_bound op q h)

-- Reading the queue until it is empty gives the texts of its entries, oldest first, and then
-- "No error".
unfoldable pub read_all : ℕ → Errors → List Text
unfolding pop_error
read_all zero q = []
read_all (suc n) q = let (text, q') = pop_error q in text ∷ read_all n q'

read_all-nil : (n : ℕ) → read_all n [] ≡ replicate n (lit "0,\"No error\"")
unfolding read_all
read_all-nil zero = refl
read_all-nil (suc n) = ap (λ r. lit "0,\"No error\"" ∷ r) (read_all-nil n)

abbrev pub texts : Errors → List Text
texts = map (λ e. format_error e.0 e.1)

pub read_all-texts :
    (q : Errors) (n : ℕ)
    → length q ≤ n
    → read_all n q ≡ texts q ++ replicate (n - length q) (lit "0,\"No error\"")
unfolding read_all
read_all-texts [] n h = let e : n - 0 ≡ n = omega arith in rw e (read_all-nil n)
read_all-texts (e ∷ q) zero h = absurd (omega arith)
read_all-texts ((c, m) ∷ q) (suc n) h =
    let e : suc n - suc (length q) ≡ n - length q = omega arith in
    rw e (ap (λ r. format_error c m ∷ r) (read_all-texts q n (omega arith)))

-- Reading back, after any history of pushes on an empty queue: the first answers are the texts of
-- the newest twenty pushes, oldest first, and every later answer says that there is no error.
pub read_all-push_all :
    (history : Errors) (n : ℕ)
    → length (last_n max_errors history) ≤ n
    → read_all n (push_all history [])
      ≡ texts (last_n max_errors history)
        ++ replicate (n - length (last_n max_errors history)) (lit "0,\"No error\"")
read_all-push_all history n h =
    rw (push_all-eq-last_n history) (read_all-texts (last_n max_errors history) n h)
