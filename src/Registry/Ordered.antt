-- ===== src/Registry/Ordered.antt =====
-- The dict and the ordered list of a registry hold the same commands.
use pynq_sdk.Prelude.{
  ℕ, ◌+◌, ◌≤◌, ◌≡◌, refl, ◌∙◌, ap, false, Option, none, some, List, [], ◌∷◌, ◌++◌, map, arith,
  if◌then◌else◌, Bool-cases, inl, inr,
}
use mathlib.Core.List.{map-append}
use pynq_sdk.Python.Text.{Text}
use pynq_sdk.Python.Text.Laws.{text_eq_iff, text_eq_refl}
use pynq_sdk.Python.Dict
use pynq_sdk.Python.Dict.{Dict, ◌=?◌, text_key, get-put}
use pynq_sdk.Registry.{
  CommandDescriptor, CommandRegistry, new_registry, is_some, replace_in, register, lookup,
  all_commands, register_all,
}

module _ {F H : Type 0} where
  -- The first command of the list with this mnemonic.
  unfoldable pub find : Text → List (CommandDescriptor F H) → Option (CommandDescriptor F H)
  find m [] = none
  find m (d ∷ ds) = if d.scpi_command =? m then some d else find m ds

  -- How often the list holds the mnemonic.
  unfoldable pub count : Text → List (CommandDescriptor F H) → ℕ
  count m [] = 0
  count m (d ∷ ds) = (if d.scpi_command =? m then 1 else 0) + count m ds

  abbrev pub names : List (CommandDescriptor F H) → List Text
  names = map (λ d. d.scpi_command)

  find-replace_in :
      (desc : CommandDescriptor F H) (m : Text) (ds : List (CommandDescriptor F H))
      → find m (replace_in desc ds) ≡ (
          if (if desc.scpi_command =? m then is_some (find desc.scpi_command ds) else false)
          then some desc
          else find m ds)
  unfolding find replace_in
  find-replace_in desc m [] = ground arith
  find-replace_in desc m (d ∷ ds) = ground (
    arith,
    find-replace_in desc m ds,
    text_eq_iff d.scpi_command desc.scpi_command,
    text_eq_iff d.scpi_command m,
    text_eq_iff desc.scpi_command m,
    text_eq_refl desc.scpi_command,
  )

  find-append :
      (desc : CommandDescriptor F H) (m : Text) (ds : List (CommandDescriptor F H))
      → find m (ds ++ desc ∷ []) ≡ (
          if is_some (find m ds)
          then find m ds
          else if desc.scpi_command =? m
          then some desc
          else none)
  unfolding find
  find-append desc m [] = ground arith
  find-append desc m (d ∷ ds) = ground (arith, find-append desc m ds)

  names-replace_in :
      (desc : CommandDescriptor F H) (ds : List (CommandDescriptor F H))
      → names (replace_in desc ds) ≡ names ds
  unfolding replace_in
  names-replace_in desc [] = refl
  names-replace_in desc (d ∷ ds) =
      ground (arith, names-replace_in desc ds, text_eq_iff d.scpi_command desc.scpi_command)

  count-replace_in :
      (desc : CommandDescriptor F H) (m : Text) (ds : List (CommandDescriptor F H))
      → count m (replace_in desc ds) ≡ count m ds
  unfolding count replace_in
  count-replace_in desc m [] = refl
  count-replace_in desc m (d ∷ ds) =
      ground (arith, count-replace_in desc m ds, text_eq_iff d.scpi_command desc.scpi_command)

  count-append :
      (desc : CommandDescriptor F H) (m : Text) (ds : List (CommandDescriptor F H))
      → count m (ds ++ desc ∷ []) ≡ count m ds + (if desc.scpi_command =? m then 1 else 0)
  unfolding count
  count-append desc m [] = omega arith
  count-append desc m (d ∷ ds) = omega (arith, count-append desc m ds)

  count_of_find : (m : Text) (ds : List (CommandDescriptor F H)) → find m ds ≡ none → count m ds ≡ 0
  unfolding find count
  count_of_find m [] h = refl
  count_of_find m (d ∷ ds) h = ground (arith, count_of_find m ds)

  -- The last command of the list with this mnemonic, and `before` if there is none.
  unfoldable pub last_for :
      Text
      → List (CommandDescriptor F H)
      → Option (CommandDescriptor F H)
      → Option (CommandDescriptor F H)
  last_for m [] before = before
  last_for m (d ∷ descs) before = last_for m descs (if d.scpi_command =? m then some d else before)

module _ {F H C : Type 0} where
  pub record IsConsistent (r : CommandRegistry F H C) : Type 0 where
    -- `lookup` finds what the listing shows
    pub agree : (m : Text) → lookup m r ≡ find m (all_commands r)
    -- and the listing shows each mnemonic once
    pub once : (m : Text) → count m (all_commands r) ≤ 1

  pub new_registry-IsConsistent : IsConsistent (new_registry {F = F} {H = H} {C = C})
  unfolding new_registry lookup all_commands find count Dict.get
  new_registry-IsConsistent = record { agree = λ m. refl; once = λ m. omega arith }

  pub lookup-register :
      (desc : CommandDescriptor F H) (r : CommandRegistry F H C) (m : Text)
      → lookup m (register desc r) ≡ (if desc.scpi_command =? m then some desc else lookup m r)
  unfolding lookup register
  lookup-register desc r m = get-put desc.scpi_command m desc r.commands

  find-register :
      (desc : CommandDescriptor F H) (r : CommandRegistry F H C) (m : Text)
      → lookup desc.scpi_command r ≡ find desc.scpi_command (all_commands r)
      → find m (all_commands (register desc r))
        ≡ (if desc.scpi_command =? m then some desc else find m (all_commands r))
  unfolding register all_commands lookup
  find-register desc r m same = ground (
    arith,
    find-replace_in desc m r.ordered,
    find-append desc m r.ordered,
    text_eq_iff desc.scpi_command m,
  )

  count-register :
      (desc : CommandDescriptor F H) (r : CommandRegistry F H C) (m : Text)
      → lookup m r ≡ find m (all_commands r)
      → count m (all_commands r) ≤ 1
      → count m (all_commands (register desc r)) ≤ 1
  unfolding register all_commands lookup
  count-register desc r m same once = ground (
    arith,
    count-replace_in desc m r.ordered,
    count-append desc m r.ordered,
    count_of_find m r.ordered,
    text_eq_iff desc.scpi_command m,
  )

  -- Registering a command keeps the dict and the listing in step, and the listing without repetition.
  pub register-IsConsistent :
      (desc : CommandDescriptor F H) {r : CommandRegistry F H C}
      → IsConsistent r
      → IsConsistent (register desc r)
  register-IsConsistent desc {r} c = record {
    agree = λ m.
        rw
          (lookup-register desc r m, find-register desc r m (c.agree desc.scpi_command), c.agree m);
    once = λ m. count-register desc r m (c.agree m) (c.once m);
  }

  -- A new mnemonic goes to the end of the listing; a known one keeps its place.
  pub names-register :
      (desc : CommandDescriptor F H) (r : CommandRegistry F H C)
      → names (all_commands (register desc r)) ≡ (
          if is_some (lookup desc.scpi_command r)
          then names (all_commands r)
          else names (all_commands r) ++ desc.scpi_command ∷ [])
  unfolding register all_commands lookup
  names-register desc r = elim (Bool-cases (is_some (Dict.get desc.scpi_command r.commands))) [
    | inl old ↦ rw old (names-replace_in desc r.ordered)
    | inr new ↦ rw new (map-append (λ d. d.scpi_command) r.ordered (desc ∷ []))
  ]

  -- Any sequence of registrations keeps a registry consistent: its dict finds what its listing shows,
  -- and the listing shows each mnemonic once.
  pub register_all-IsConsistent :
      (descs : List (CommandDescriptor F H)) {r : CommandRegistry F H C}
      → IsConsistent r
      → IsConsistent (register_all descs r)
  unfolding register_all
  register_all-IsConsistent [] c = c
  register_all-IsConsistent (d ∷ descs) c =
      register_all-IsConsistent descs (register-IsConsistent d c)

  -- Of all registrations under one mnemonic the last one counts.
  pub lookup-register_all :
      (descs : List (CommandDescriptor F H)) (r : CommandRegistry F H C) (m : Text)
      → lookup m (register_all descs r) ≡ last_for m descs (lookup m r)
  unfolding register_all last_for
  lookup-register_all [] r m = refl
  lookup-register_all (d ∷ descs) r m =
      lookup-register_all descs (register d r) m ∙ ap (last_for m descs) (lookup-register d r m)
