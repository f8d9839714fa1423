-- ===== src/Bulk/Parameters.antt =====
-- The parameters of a recipient cover the variables of the body.
use noti.Common.{
  ℕ, ◌≡◌, refl, sym, ap, subst, ◌∙◌, Bool, true, false, not, ◌||◌, List, [], ◌∷◌, Option, none,
  some, if◌then◌else◌, is_empty, all, all_cons, arith, Bool-cases, Option-cases, Outcome-cases, inl,
  inr, ok,
}
use noti.Text.{Text, units, text_eq, text_eq_refl}
use noti.Json.{Json}
use noti.Sms.{or_empty}
use noti.Bulk.Users.{
  ManagedUser, get_mapping, set_parameter, parameters_of, build_recipient_template_parameters,
  resolve_managed_user_field_value,
}
use noti.Bulk.Body.{has_no_mapping}
use noti.Bulk.Draft.{parameters_for}

-- The parameter of a variable is there, and is not empty; `__proto__` cannot be one.
abbrev pub is_given : List (Text × Text) → Text → Bool
is_given parameters variable =
    text_eq variable (units "__proto__")
    || not (is_empty (or_empty (get_mapping variable parameters)))

abbrev pub parameters_in : Option (List (Text × Text)) → List (Text × Text)
parameters_in none = []
parameters_in (some parameters) = parameters

parameters_in-given :
    (given : List (Text × Text))
    → parameters_in (if is_empty given then none else some given) ≡ given
parameters_in-given [] = refl
parameters_in-given (p ∷ given) = refl

set_parameter-is_given :
    (variable value : Text) (parameters : List (Text × Text)) (variables : List Text)
    → is_empty value ≡ false
    → all (is_given parameters) variables ≡ true
    → all (is_given (set_parameter variable value parameters)) variables ≡ true
unfolding set_parameter get_mapping
set_parameter-is_given variable value parameters [] h k = refl
set_parameter-is_given variable value parameters (v ∷ variables) h k =
    elim (Bool-cases (text_eq variable (units "__proto__"))) [
      | inl t ↦ ground (arith, t, k)
      | inr t ↦ elim (Bool-cases (text_eq variable v)) [
        | inl u ↦
            ground (arith, t, u, h, k, set_parameter-is_given variable value parameters variables h)
        | inr u ↦
            ground (arith, t, u, h, k, set_parameter-is_given variable value parameters variables h)
      ]
    ]

set_parameter_own :
    (variable value : Text) (parameters : List (Text × Text))
    → is_empty value ≡ false
    → is_given (set_parameter variable value parameters) variable ≡ true
unfolding set_parameter get_mapping
set_parameter_own variable value parameters h =
    elim (Bool-cases (text_eq variable (units "__proto__"))) [
      | inl t ↦ ground (arith, t)
      | inr t ↦ ground (arith, t, h, text_eq_refl variable)
    ]

module _ (stringify : Json → Text) (is_inherited : Text → Bool) where
  pub parameters_of-is_given :
      (u : ManagedUser) (mappings : List (Text × Text)) (variables : List Text)
      (parameters : List (Text × Text))
      → all (λ v. not (has_no_mapping mappings v)) variables ≡ true
      → parameters_of stringify is_inherited u mappings variables ≡ ok parameters
      → all (is_given parameters) variables ≡ true
  unfolding parameters_of
  parameters_of-is_given u mappings [] parameters h e = refl
  parameters_of-is_given u mappings (variable ∷ variables) parameters h e =
      elim (Option-cases (get_mapping variable mappings)) [
        | inl g ↦ absurd (ground (arith, g, h))
        | inr (key, g) ↦ elim (Bool-cases (is_empty key)) [
          | inl t ↦ absurd (ground (arith, g, h, t))
          | inr t ↦
              elim (Option-cases (resolve_managed_user_field_value stringify is_inherited u key)) [
                | inl r ↦ absurd (ground (arith, g, t, r, e))
                | inr (value, r) ↦ elim (Bool-cases (is_empty value)) [
                  | inl b ↦ absurd (ground (arith, g, t, r, b, e))
                  | inr b ↦
                      elim (Outcome-cases
                        (parameters_of stringify is_inherited u mappings variables)) [
                          | inr (x, f) ↦ absurd (ground (arith, g, t, r, b, f, e))
                          | inl (rest, f) ↦
                              let same : set_parameter variable value rest ≡ parameters =
                                ground (arith, g, t, r, b, f, e) in
                              let later =
                                parameters_of-is_given u mappings variables rest (ground (arith, h))
                                  f in
                              subst (λ ps. all (is_given ps) (variable ∷ variables) ≡ true) same
                                (all_cons (is_given (set_parameter variable value rest)) variable
                                  variables (set_parameter_own variable value rest b)
                                  (set_parameter-is_given variable value rest variables b later))
                        ]
                ]
              ]
        ]
      ]

module _ (parse_date : Text → Option ℕ) (kst_parts : ℕ → ℕ × ℕ) (utc : ℕ → ℕ → ℕ)
    (stringify : Json → Text) (is_inherited : Text → Bool) (now : ℕ) where
  pub parameters_for-is_given :
      (u : ManagedUser) (mappings : List (Text × Text)) (required : List Text)
      (parameters : Option (List (Text × Text)))
      → all (λ v. not (has_no_mapping mappings v)) required ≡ true
      → parameters_for parse_date kst_parts utc stringify is_inherited now required mappings u
        ≡ ok parameters
      → all (is_given (parameters_in parameters)) required ≡ true
  unfolding parameters_for build_recipient_template_parameters
  parameters_for-is_given u mappings [] parameters h e = refl
  parameters_for-is_given u mappings (v ∷ required) parameters h e =
      elim (Outcome-cases (parameters_of stringify is_inherited u mappings (v ∷ required))) [
        | inr (x, f) ↦ absurd (ground (arith, e, f))
        | inl (given, f) ↦
            let all_given =
              parameters_of-is_given stringify is_inherited u mappings (v ∷ required) given h f in
            let same : parameters ≡ (if is_empty given then none else some given) =
              ground (arith, e, f) in
            let equal = parameters_in-given given in
            subst (λ ps. all (is_given ps) (v ∷ required) ≡ true)
              (sym (ap parameters_in same ∙ equal)) all_given
      ]
