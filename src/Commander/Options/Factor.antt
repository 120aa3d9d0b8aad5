-- ===== src/Commander/Options/Factor.antt =====
-- The timeout factor and the wallet kind that `parse_args` settles on, from the flags alone.
use erlay_warnet.Prelude.{
  ◌≡◌, refl, ap, ◌∙◌, Bool, true, false, Option, none, some, List, [], ◌∷◌, if◌then◌else◌,
  Bool-cases, Option-cases, inl, inr,
}
use erlay_warnet.Prelude.Text.{Text}
use erlay_warnet.Commander.Options.{
  Flag, Value, Namespace, Config, Outcome, store, parse_from, defaults, asks_help, resolve_factor,
  read_config, parse_args,
}

abbrev factor_of : Flag → Option Text
factor_of (Flag.timeout_factor t) = some t
factor_of _ = none

abbrev is_valgrind : Flag → Bool
is_valgrind Flag.valgrind = true
is_valgrind _ = false

-- What the last `--timeout-factor` names.
abbrev pub last_factor : List Flag → Option Text
last_factor [] = none
last_factor (flag ∷ flags) = elim (last_factor flags) [ none ↦ factor_of flag | some t ↦ some t ]

abbrev pub has_valgrind : List Flag → Bool
has_valgrind [] = false
has_valgrind (flag ∷ flags) = if is_valgrind flag then true else has_valgrind flags

abbrev given_or : Value → Option Text → Value
given_or v none = v
given_or v (some t) = Value.text t

store-factor :
    (n : Namespace) (flag : Flag)
    → (store n flag).timeout_factor ≡ given_or n.timeout_factor (factor_of flag)
unfolding store
store-factor n (Flag.timeout_factor t) = refl
store-factor n _ = refl

store-valgrind :
    (n : Namespace) (flag : Flag)
    → (store n flag).valgrind ≡ (if is_valgrind flag then true else n.valgrind)
unfolding store
store-valgrind n Flag.valgrind = refl
store-valgrind n _ = refl

given_or-last :
    (v : Value) (o p : Option Text)
    → given_or (given_or v o) p ≡ given_or v (elim p [ none ↦ o | some t ↦ some t ])
given_or-last v o none = refl
given_or-last v o (some t) = refl

parse_from-factor :
    (n : Namespace) (flags : List Flag)
    → (parse_from n flags).timeout_factor ≡ given_or n.timeout_factor (last_factor flags)
unfolding parse_from
parse_from-factor n [] = refl
parse_from-factor n (flag ∷ flags) =
    parse_from-factor (store n flag) flags
    ∙ ap (λ v. given_or v (last_factor flags)) (store-factor n flag)
    ∙ given_or-last n.timeout_factor (factor_of flag) (last_factor flags)

parse_from-valgrind :
    (n : Namespace) (flags : List Flag)
    → (parse_from n flags).valgrind ≡ (if n.valgrind then true else has_valgrind flags)
unfolding parse_from
parse_from-valgrind n [] = elim (Bool-cases n.valgrind) [ inl e ↦ rw e refl | inr e ↦ rw e refl ]
parse_from-valgrind n (flag ∷ flags) =
    parse_from-valgrind (store n flag) flags
    ∙ ap (λ b. if b then true else has_valgrind flags) (store-valgrind n flag)
    ∙ elim (Bool-cases (is_valgrind flag)) [
      | inl e ↦ elim (Bool-cases n.valgrind) [ inl d ↦ rw (e, d) refl | inr d ↦ rw (e, d) refl ]
      | inr e ↦ rw e refl
    ]

-- The factor that the flags ask for: the number 1 without the option, also under valgrind; the text
-- that the last option names; and 4 or 1, by valgrind, where that text is empty.
abbrev pub expected_of : (slow : Bool) → Option Text → Value
expected_of slow none = Value.number 1
expected_of slow (some []) = Value.number (if slow then 4 else 1)
expected_of slow (some (c ∷ t)) = Value.text (c ∷ t)

abbrev pub expected_factor : List Flag → Value
expected_factor flags = expected_of (has_valgrind flags) (last_factor flags)

resolve_factor-expected :
    (slow : Bool) (last : Option Text)
    → resolve_factor slow (given_or (Value.number 1) last) ≡ expected_of slow last
unfolding resolve_factor
resolve_factor-expected slow none = refl
resolve_factor-expected slow (some []) = refl
resolve_factor-expected slow (some (c ∷ t)) = refl

-- How a run of `parse_args` may end.
abbrev pub IsSettled : List Flag → Outcome → Type 0
IsSettled flags Outcome.help_shown = asks_help flags ≡ true
IsSettled flags Outcome.unreadable_config = asks_help flags ≡ false
IsSettled flags (Outcome.parsed p) =
    (asks_help flags ≡ false) × (p.options.timeout_factor ≡ expected_factor flags)

-- For all flags, files and builds: where the help is asked for, it is shown; else `parse_args` leaves a
-- timeout factor of 1 where no `--timeout-factor` is given, also under valgrind, and the text that the last
-- one names where it has a character; only a last one that is empty gives 4 under valgrind and else 1.
pub parse_args-IsSettled :
    (read_file : Text → Option Config) (declared : Option (Option Bool))
    (sqlite_compiled bdb_compiled : Bool) (flags : List Flag)
    → IsSettled flags (parse_args read_file declared sqlite_compiled bdb_compiled flags)
unfolding parse_args
parse_args-IsSettled read_file declared sqlite_compiled bdb_compiled flags =
    let factor =
      ap (λ b. resolve_factor b (parse_from defaults flags).timeout_factor)
        (parse_from-valgrind defaults flags)
      ∙ ap (resolve_factor (has_valgrind flags)) (parse_from-factor defaults flags)
      ∙ resolve_factor-expected (has_valgrind flags) (last_factor flags) in
    elim (Bool-cases (asks_help flags)) [
      | inl e ↦ rw e e
      | inr e ↦ elim (Option-cases (read_config read_file (parse_from defaults flags).configfile)) [
        | inl o ↦ rw (e, o) e
        | inr (config, o) ↦ rw (e, o) (e, factor)
      ]
    ]
