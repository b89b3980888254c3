-- ===== src/Python/Dict.antt =====
-- Python's `dict`, and the equality of its keys. No dict of the source is iterated, so the order of
-- entries stands for nothing; clients go by the laws of `get`.
use pynq_sdk.Prelude.{
  ℕ, ◌≡◌, ◌↔◌, Bool, true, Option, none, some, List, [], ◌∷◌, arith, if◌then◌else◌, ==_iff,
}
use pynq_sdk.Prelude.{◌==◌ as nat_eq}
use pynq_sdk.Python.Text.{Text, text_eq}
use pynq_sdk.Python.Text.Laws.{text_eq_iff}

-- A type of keys, with the test that a lookup makes.
pub record Key {ℓ} (K : Type ℓ) : Type ℓ where
  pub same : K → K → Bool
  pub same_iff : (k j : K) → (same k j ≡ true) ↔ (k ≡ j)

infix 50 ◌=?◌
abbrev pub ◌=?◌ {ℓ} : {K : Type ℓ} ⦃key : Key K⦄ → K → K → Bool
◌=?◌ ⦃key⦄ k j = key.same k j

instance abbrev pub text_key : Key Text
text_key = record { same = text_eq; same_iff = text_eq_iff }

instance abbrev pub nat_key : Key ℕ
nat_key = record { same = nat_eq; same_iff = ==_iff }

abbrev pub Dict {ℓ κ} : Type ℓ → Type κ → Type (ℓ ⊔ κ)
Dict K V = List (K × V)

module _ {ℓ κ} {K : Type ℓ} {V : Type κ} ⦃key : Key K⦄ where
  -- d.get(k)
  unfoldable pub get : K → Dict K V → Option V
  get k [] = none
  get k ((j, v) ∷ d) = if j =? k then some v else get k d

  -- d.pop(k, None)
  unfoldable pub remove : K → Dict K V → Dict K V
  remove k [] = []
  remove k ((j, v) ∷ d) = let rest = remove k d in if j =? k then rest else (j, v) ∷ rest

  -- d[k] = v
  unfoldable pub put : K → V → Dict K V → Dict K V
  unfolding remove
  put k v d = (k, v) ∷ remove k d

  pub get-remove :
      (k j : K) (d : Dict K V) → get j (remove k d) ≡ (if k =? j then none else get j d)
  unfolding get remove
  get-remove k j [] = ground arith
  get-remove k j ((i, v) ∷ d) =
      ground (arith, get-remove k j d, key.same_iff i k, key.same_iff i j, key.same_iff k j)

  pub get-put :
      (k j : K) (v : V) (d : Dict K V) → get j (put k v d) ≡ (if k =? j then some v else get j d)
  unfolding get put
  get-put k j v d = ground (arith, get-remove k j d)
