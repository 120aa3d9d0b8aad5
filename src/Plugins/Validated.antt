-- ===== src/Plugins/Validated.antt =====
-- Which contents the entrypoint of the plugins takes.
use erlay_warnet.Prelude.{
  if◌then◌else◌, ◌≡◌, refl, ap, ◌∙◌, sym, Bool, true, false, Option, none, some, List, [], ◌∷◌, All,
}
use erlay_warnet.Prelude.Result.{
  ◌>>=◌, Ends-weaken, ok, Ends, bind-Ends, given-then, check-then, of_option,
}
use erlay_warnet.Prelude.Text.{Text, has_text}
use erlay_warnet.Prelude.Json.{
  Json, text, Fields, null, boolean, number, array, is_true, get_field, value_or_null, fields_of,
  object,
}
use erlay_warnet.Plugins.{
  Hook, Constants, IsEnumeration, PluginError, type_error, invalid_hook, is_hashable, iterated,
  is_member, hook_in, read_hook, check_annex, check_annex_of, entrypoint,
}

module _ (k : Constants) (E : IsEnumeration k) (loads : Text → Option Json) where
  -- The value is the text of a member.
  abbrev pub IsMember : Json → Type 0
  IsMember j = (t : Text) × (j ≡ text t) × (has_text t k.annex_members ≡ true)

  abbrev pub AnnexPasses : Json → Type 0
  AnnexPasses annex =
      is_true annex ≡ true → (js : List Json) × (iterated annex ≡ some js) × All IsMember js

  abbrev pub IsAccepted : Text → Text → Json × Fields × Hook → Type 0
  IsAccepted plugin_content warnet_content (plugin, fields, hook) =
      (loads plugin_content ≡ some plugin)
      × (loads warnet_content ≡ some (object fields))
      × (value_or_null (get_field k.hook_value fields) ≡ text (k.value_of hook))
      × AnnexPasses (value_or_null (get_field k.plugin_annex fields))

  IsMember-of_test : (j : Json) → is_member k j ≡ true → IsMember j
  IsMember-of_test (text t) h = (t, refl, h)
  IsMember-of_test null h = cc
  IsMember-of_test (boolean b) h = cc
  IsMember-of_test (number n) h = cc
  IsMember-of_test (array js) h = cc
  IsMember-of_test (object fs) h = cc

  is_member-IsMember : (j : Json) → IsMember j → is_member k j ≡ true
  is_member-IsMember j (t, e, h) = ap (is_member k) e ∙ h

  is_hashable-IsMember : (j : Json) → IsMember j → is_hashable j ≡ true
  is_hashable-IsMember j (t, e, h) = ap is_hashable e

  check_annex-All :
      (js : List Json)
      → Ends (λ _. All IsMember js) (λ (_ : PluginError). All IsMember js → ⊥) (check_annex k js)
  unfolding check_annex
  check_annex-All [] = tt
  check_annex-All (j ∷ js) =
      let Q = λ (_ : Unit {0}). All IsMember (j ∷ js) in
      let F = λ (_ : PluginError). All IsMember (j ∷ js) → ⊥ in
      check-then Q F _ (is_hashable j) _ (λ n m. no (is_hashable-IsMember j m.0) n)
        λ _.
          check-then Q F _ (is_member k j) _ (λ n m. no (is_member-IsMember j m.0) n)
            λ y.
              Ends-weaken (λ _. All IsMember js) Q (λ _. All IsMember js → ⊥) F _
                (λ _ all. (IsMember-of_test j y, all)) (λ _ h m. h m.1) (check_annex-All js)
    where
      no : {b : Bool} → b ≡ true → b ≡ false → ⊥
      no h n = cc

  annex-AnnexPasses :
      (annex : Json)
      → Ends
          (λ _. AnnexPasses annex)
          (λ (_ : PluginError). AnnexPasses annex → ⊥)
          (check_annex_of k annex)
  annex-AnnexPasses annex = go (is_true annex)
    where
      Passes : Bool → Type 0
      Passes b = b ≡ true → (js : List Json) × (iterated annex ≡ some js) × All IsMember js

      listed :
          (o : Option (List Json))
          → let P = (js : List Json) × (o ≡ some js) × All IsMember js in
            Ends (λ _. P) (λ (_ : PluginError). P → ⊥) (of_option type_error o >>= check_annex k)
      listed none = λ p. cc
      listed (some js) =
          Ends-weaken (λ _. All IsMember js) _ (λ _. All IsMember js → ⊥) _ _
            (λ _ all. (js, refl, all)) (λ _ h p. h (let same : p.0 ≡ js = cc in rw (← same) p.2))
            (check_annex-All js)

      go :
          (b : Bool)
          → Ends
              (λ _. Passes b)
              (λ (_ : PluginError). Passes b → ⊥)
              (if b then of_option type_error (iterated annex) >>= check_annex k else ok tt)
      go true =
          let P = (js : List Json) × (iterated annex ≡ some js) × All IsMember js in
          Ends-weaken (λ _. P) (λ _. Passes true) (λ (_ : PluginError). P → ⊥)
            (λ (_ : PluginError). Passes true → ⊥) _ (λ _ p _. p) (λ _ h p. h (p refl))
            (listed (iterated annex))
      go false = λ e. cc

  -- The value is the text of a hook.
  read_hook-value :
      (j : Json)
      → Ends
          (λ h. j ≡ text (k.value_of h))
          (λ (_ : PluginError). (h : Hook) → j ≡ text (k.value_of h) → ⊥)
          (read_hook k j)
  read_hook-value j =
      let Q = λ (h : Hook). j ≡ text (k.value_of h) in
      let F = λ (_ : PluginError). (h : Hook) → j ≡ text (k.value_of h) → ⊥ in
      check-then Q F _ (is_hashable j) _ (λ n h e. absent (ap is_hashable e) n)
        λ _. found (hook_in k j) refl
    where
      absent : {b : Bool} → b ≡ true → b ≡ false → ⊥
      absent h n = cc

      value : (j : Json) (h : Hook) → hook_in k j ≡ some h → j ≡ text (k.value_of h)
      value (text t) h e = ap text (sym (E.value_of_member t h e))
      value null h e = cc
      value (boolean b) h e = cc
      value (number n) h e = cc
      value (array js) h e = cc
      value (object fs) h e = cc

      found :
          (o : Option Hook)
          → hook_in k j ≡ o
          → Ends
              (λ h. j ≡ text (k.value_of h))
              (λ (_ : PluginError). (h : Hook) → j ≡ text (k.value_of h) → ⊥)
              (of_option (invalid_hook j) o)
      found none e =
          λ h v. let there : hook_in k j ≡ some h = ap (hook_in k) v ∙ E.member_of_value h in cc
      found (some h) e = value j h e

  fields_of-object : (j : Json) (fs : Fields) → fields_of j ≡ some fs → j ≡ object fs
  fields_of-object (object gs) fs e = cc
  fields_of-object null fs e = cc
  fields_of-object (boolean b) fs e = cc
  fields_of-object (number n) fs e = cc
  fields_of-object (array js) fs e = cc
  fields_of-object (text t) fs e = cc

  -- For every enumeration of hooks and all contents: the entrypoint returns the two contents and the hook
  -- exactly where both are JSON, the second a dictionary whose hook value is the text of that hook, and whose
  -- annex, unless it is absent, empty or false, goes through texts of annex members only; else it raises, and
  -- no plugin content, dictionary and hook would be accepted.
  pub entrypoint-IsAccepted :
      (plugin_content warnet_content : Text)
      → Ends
          (IsAccepted plugin_content warnet_content)
          (λ (_ : PluginError).
            (r : Json × Fields × Hook) → IsAccepted plugin_content warnet_content r → ⊥)
          (entrypoint k loads plugin_content warnet_content)
  unfolding entrypoint
  entrypoint-IsAccepted plugin_content warnet_content =
      let Q = IsAccepted plugin_content warnet_content in
      let F = λ (_ : PluginError). (r : Json × Fields × Hook) → Q r → ⊥ in
      given-then Q F _ (loads plugin_content) _ (λ n r a. not_both n a.0)
        λ plugin p.
          given-then Q F _ (loads warnet_content) _ (λ n r a. not_both n a.1)
            λ warnet w.
              given-then Q F _ (fields_of warnet) _ (λ n r a. not_object w n a.1)
                λ fields f.
                  let hook_json = λ (fs : Fields). value_or_null (get_field k.hook_value fs) in
                  let annex_json = λ (fs : Fields). value_or_null (get_field k.plugin_annex fs) in
                  bind-Ends (λ h. hook_json fields ≡ text (k.value_of h)) Q F _ _
                    (Ends-weaken (λ h. hook_json fields ≡ text (k.value_of h))
                      (λ h. hook_json fields ≡ text (k.value_of h))
                      (λ (_ : PluginError). (h : Hook) → hook_json fields ≡ text (k.value_of h) → ⊥)
                      F _ (λ _ v. v)
                      (λ _ no r a. no r.2 (ap hook_json (sym (same_fields w f a.1)) ∙ a.2))
                      (read_hook-value (hook_json fields)))
                    λ hook v.
                      bind-Ends (λ _. AnnexPasses (annex_json fields)) Q F _ _
                        (Ends-weaken (λ _. AnnexPasses (annex_json fields))
                          (λ _. AnnexPasses (annex_json fields))
                          (λ (_ : PluginError). AnnexPasses (annex_json fields) → ⊥) F _
                          (λ _ passes. passes)
                          (λ _ no r a. no (same_annex (same_fields w f a.1) a.3))
                          (annex-AnnexPasses (annex_json fields)))
                        λ _ passes. (p, w ∙ ap some (fields_of-object warnet fields f), v, passes)
    where
      not_both : {A : Type 0} {o : Option A} {x : A} → o ≡ none → o ≡ some x → ⊥
      not_both n s = cc

      not_object :
          {o : Option Json} {w : Json} {fs : Fields}
          → o ≡ some w
          → fields_of w ≡ none
          → o ≡ some (object fs)
          → ⊥
      not_object {w} {fs} a n b = let same : w ≡ object fs = cc in not_both n (ap fields_of same)

      same_fields :
          {o : Option Json} {w : Json} {fs gs : Fields}
          → o ≡ some w
          → fields_of w ≡ some fs
          → o ≡ some (object gs)
          → gs ≡ fs
      same_fields {w} {fs} {gs} a f b = let e = fields_of-object w fs f in cc

      same_annex :
          {gs fs : Fields}
          → gs ≡ fs
          → AnnexPasses (value_or_null (get_field k.plugin_annex gs))
          → AnnexPasses (value_or_null (get_field k.plugin_annex fs))
      same_annex e a = rw (← e) a
