-- ===== src/Dispatch/Masks.antt =====
-- The enable masks of the status registers can be read but not written: the parameter of `*ESE` and
-- `*SRE` has a postponed annotation, so the handler is given a text, and `text & 0xFF` raises.
use pynq_sdk.Prelude.{
  ◌≡◌, refl, sym, ◌∙◌, ap, false, Option, none, some, List, [], ◌∷◌, arith, length, drop, inl, inr,
  Bool-cases, All, All-append, All-drop,
}
use mathlib.Core.Path.{transport}
use pynq_sdk.Python.Text.{Text, lit}
use pynq_sdk.Python.Exception.{Result, ok, raised, ◌>>=◌, >>=-Completes}
use pynq_sdk.Params.{strip_quotes, Annotation, Arg, Param, convert, extract_loop, extract_args}
use pynq_sdk.Registry.{CommandDescriptor}
use pynq_sdk.World.{
  Types, Builtin, Handler, builtin, World, Value, Reply, Externals, ese_write, sre_write,
  overlay_load,
}
use pynq_sdk.Builtins.{is_nil, builtin_signature, call_builtin}
use pynq_sdk.Builtins.Masks.{is_number, NoNumber, SameMasks, call_builtin-SameMasks}
use pynq_sdk.Backend.{is_overlay_loaded}
use pynq_sdk.Dispatch.{
  signature, missing, find_ip, inject, finish, call_handler, is_timeout, all_args, run_handler,
  run_command, dispatch_command,
}
use pynq_sdk.Dispatch.Outcomes.{Selects, dispatch-Selects}

-- Parameters that are passed on as text, and have no default.
abbrev IsTextParam : {F O : Type 0} → Param F O → Type 0
IsTextParam p = (name : Text) × ((p.annotation ≡ Annotation.postponed name) × (p.default ≡ none))

builtin_signature-All :
    (F O : Type 0) (b : Builtin) → All IsTextParam (builtin_signature {F = F} {O = O} b)
unfolding builtin_signature
builtin_signature-All F O ese_write = ((lit "int", (refl, refl)), tt)
builtin_signature-All F O sre_write = ((lit "int", (refl, refl)), tt)
builtin_signature-All F O overlay_load = ((lit "str", (refl, refl)), tt)
builtin_signature-All F O _ = tt

abbrev NoNumberIn : {F O : Type 0} → Result (List (Arg F O)) → Type 0
NoNumberIn (ok vs) = NoNumber vs
NoNumberIn (raised e) = Unit

module _ {F O : Type 0} (parse_float : Text → Option F) where
  extract_loop-NoNumber :
      (params : List (Param F O)) (args : List Text) {values : List (Arg F O)}
      → All IsTextParam params
      → extract_loop parse_float params args ≡ ok values
      → NoNumber values
  unfolding extract_loop
  extract_loop-NoNumber [] args h e = ground (arith, e)
  extract_loop-NoNumber (p ∷ params) [] ((name, (ann, none_given)), h) e =
      absurd (ground (arith, e, none_given))
  extract_loop-NoNumber (p ∷ params) (raw ∷ args) {values} ((name, (ann, none_given)), h) e =
      let converted : convert parse_float p.annotation raw ≡ ok (Arg.text (strip_quotes raw)) =
        rw ann in
      let rest = >>=-Completes (extract_loop parse_float params args) _ (
        ap (λ c. do v ← c; vs ← extract_loop parse_float params args; ok (v ∷ vs)) (sym converted)
        ∙ e) in
      transport (ap NoNumberIn rest.second) (refl, extract_loop-NoNumber params args h rest.first)

module _ {t : Types} (x : Externals t) where
  inject-NoNumber :
      (w : World t) (names : List Text) {ips : List (Value t)}
      → inject x w names ≡ ok ips
      → NoNumber ips
  unfolding inject
  inject-NoNumber w [] e = ground (arith, e)
  inject-NoNumber w (name ∷ names) e =
      let found = >>=-Completes (find_ip x w name) _ e in
      let others = >>=-Completes (inject x w names) _ found.second in
      transport (ap NoNumberIn others.second) (refl, inject-NoNumber w names others.first)

  all_args-NoNumber :
      (d : CommandDescriptor t.Float (Handler t.UserHandler)) (b : Builtin) (args : List Text)
      (w : World t) {values : List (Value t)}
      → d.handler ≡ builtin b
      → all_args x d args w ≡ ok values
      → NoNumber values
  unfolding extract_args signature
  all_args-NoNumber d b args w is_b e =
      let injected = >>=-Completes (inject x w d.requires_ips) _ e in
      let ips = injected.value in
      let parsed =
        >>=-Completes (extract_args x.parse_float (signature x d.handler) args (length ips)) _
          injected.second in
      let texts : All IsTextParam (signature x d.handler) = rw is_b (builtin_signature-All _ _ b) in
      transport (ap NoNumberIn parsed.second) (
        All-append (λ v. is_number v ≡ false) ips parsed.value
          (inject-NoNumber w d.requires_ips injected.first)
          (extract_loop-NoNumber x.parse_float (drop (length ips) (signature x d.handler)) args
            (All-drop IsTextParam (length ips) (signature x d.handler) texts) parsed.first))

  finish-SameMasks : (r : Reply t) (w : World t) → SameMasks r.1 w → SameMasks (finish x r).1 w
  unfolding finish
  finish-SameMasks (ok none, w') w h = h
  finish-SameMasks (ok (some s), w') w h = h
  finish-SameMasks (raised e, w') w h = elim (Bool-cases (is_timeout e.kind)) [
    | inl late ↦ rw late (record { same_ese = h.same_ese; same_sre = h.same_sre })
    | inr early ↦ rw early (record { same_ese = h.same_ese; same_sre = h.same_sre })
  ]

  run_handler-SameMasks :
      (d : CommandDescriptor t.Float (Handler t.UserHandler)) (b : Builtin) (w : World t)
      (given : Result (List (Value t)))
      → d.handler ≡ builtin b
      → NoNumberIn given
      → SameMasks (run_handler x d given w).1 w
  unfolding run_handler call_handler
  run_handler-SameMasks d b w (raised e) is_b h = record { same_ese = refl; same_sre = refl }
  run_handler-SameMasks d b w (ok values) is_b h =
      rw is_b
        (finish-SameMasks (call_builtin x b values w) w (call_builtin-SameMasks x b values w h))

  run_ready-SameMasks :
      (d : CommandDescriptor t.Float (Handler t.UserHandler)) (b : Builtin) (args : List Text)
      (w : World t)
      → d.handler ≡ builtin b
      → SameMasks (run_handler x d (all_args x d args w) w).1 w
  run_ready-SameMasks d b args w is_b =
      run_handler-SameMasks d b w (all_args x d args w) is_b (given _ refl)
    where
      given : (r : Result (List (Value t))) → all_args x d args w ≡ r → NoNumberIn r
      given (ok values) e = all_args-NoNumber d b args w is_b e
      given (raised e) _ = tt

  run_command-SameMasks :
      (d : CommandDescriptor t.Float (Handler t.UserHandler)) (b : Builtin) (args : List Text)
      (w : World t)
      → d.handler ≡ builtin b
      → SameMasks (run_command x d args w).1 w
  unfolding run_command
  run_command-SameMasks d b args w is_b =
      let ready = run_ready-SameMasks d b args w is_b in
      elim (Bool-cases (is_nil d.requires_ips)) [
        | inl nothing ↦ rw nothing ready
        | inr needed ↦ elim (Bool-cases (is_overlay_loaded x.pynq w.backend w.manager)) [
          | inr unloaded ↦ rw (needed, unloaded) (record { same_ese = refl; same_sre = refl })
          | inl present ↦ elim (Bool-cases (is_nil (missing x w d.requires_ips))) [
            | inl complete ↦ rw (needed, present, complete) ready
            | inr incomplete ↦
                rw (needed, present, incomplete) (record { same_ese = refl; same_sre = refl })
          ]
        ]
      ]

  -- No command that the SDK registers itself changes an enable mask, whatever line calls it: `*ESE`
  -- and `*SRE` leave the masks as they were.
  pub dispatch_builtin-SameMasks :
      (cmd_str : Text) (w : World t) {d : CommandDescriptor t.Float (Handler t.UserHandler)}
      {args : List Text} (b : Builtin)
      → Selects x cmd_str w d args
      → d.handler ≡ builtin b
      → SameMasks (dispatch_command x cmd_str w).1 w
  dispatch_builtin-SameMasks cmd_str w {d} {args} b s is_b =
      rw (dispatch-Selects x cmd_str w s) (run_command-SameMasks d b args w is_b)
