-- ===== src/Bulk/Users.antt =====
-- The users that a campaign goes to: their phones, their columns as template values, and the
-- parameters of a recipient.
use noti.Common.{
  Bool, true, false, List, [], ◌∷◌, ◌++◌, Option, none, some, if◌then◌else◌, is_empty, find?, drop,
  Outcome, ok, err, ◌>>=◌,
}
use noti.Text.{Text, units, text_eq, trim, digits_only}
use noti.Json.{
  Json, undefined, null, function, boolean, number, string, array, object, Items, nil, item,
  lookup_field,
}
use noti.Sms.{or_empty}
use noti.Sms.Format.{after_prefix}
use noti.Quota.{QuotaError}

-- A column of a user: text, a flag, null, a list, a date by the text that `Intl.DateTimeFormat`
-- gives it, or what every object inherits.
pub data Column : Type 0 where
  json : Json → Column
  date : Text → Column
  inherited : Column

pub record ManagedUser : Type 0 where
  pub id : Text
  pub owner_user_id : Text
  pub name : Text
  pub phone : Option Text
  pub columns : List (Text × Column)
  pub custom_attributes : Json

-- The exceptions of the services for campaigns, and those of the quota.
pub data DraftError : Type 0 where
  schedule_not_a_date schedule_not_in_future no_user_selected too_many_users no_sender : DraftError
  some_user_not_found template_not_registered no_body no_080_number no_phone : DraftError
  no_channel channel_stopped template_not_approved no_template no_template_code : DraftError
  bad_image_link unsupported_message_type body_too_long too_many_buttons no_image : DraftError
  column_not_found : (variable key : Text) → DraftError
  missing_mappings : List Text → DraftError
  empty_value : (name key variable : Text) → DraftError
  quota : QuotaError → DraftError

-- `if (digits.startsWith('746010')) return digits.slice(3)`, and null without digits
unfoldable pub normalize_phone_number : Option Text → Option Text
unfolding digits_only after_prefix
normalize_phone_number value =
    let digits = digits_only (or_empty value) in
    if is_empty digits then none else elim (after_prefix (units "746010") digits) [
      | none ↦ some digits
      | some rest ↦ some (drop 3 digits)
    ]

abbrev pub join_with_comma : List Text → Text
join_with_comma [] = []
join_with_comma (t ∷ []) = t
join_with_comma (t ∷ u ∷ ts) = t ++ units ", " ++ join_with_comma (u ∷ ts)

-- a text that is not empty
abbrev pub filled : Text → Option Text
filled t = if is_empty t then none else some t

-- `map.get(key)`
unfoldable pub get_mapping : Text → List (Text × Text) → Option Text
unfolding text_eq
get_mapping k [] = none
get_mapping k ((j, v) ∷ m) = let rest = get_mapping k m in if text_eq j k then some v else rest

-- `parameters[variable] = value`, which an object ignores for `__proto__`
unfoldable pub set_parameter : Text → Text → List (Text × Text) → List (Text × Text)
unfolding text_eq
set_parameter variable value parameters =
    if text_eq variable (units "__proto__") then parameters else (variable, value) ∷ parameters

-- `stringify` is `JSON.stringify`; `is_inherited` says which keys `Object.prototype` has.
module _ (stringify : Json → Text) (is_inherited : Text → Bool) where
  unfoldable mutual
    unfolding trim

    pub stringify_template_value : Json → Option Text
    stringify_template_value undefined = none
    stringify_template_value null = none
    stringify_template_value function = none
    stringify_template_value (boolean b) = some (if b then units "true" else units "false")
    stringify_template_value (number t) = some t
    stringify_template_value (string t) = filled (trim t)
    stringify_template_value (array items) =
        let normalized = stringify_items items in
        if is_empty normalized then none else some (join_with_comma normalized)
    stringify_template_value (object fs) = some (stringify (object fs))

    -- `map(...).filter(...)`
    pub stringify_items : Items → List Text
    stringify_items nil = []
    stringify_items (item v vs) =
        let rest = stringify_items vs in
        elim (stringify_template_value v) [
          | none ↦ rest
          | some t ↦ if is_empty t then rest else t ∷ rest
        ]

  unfoldable pub stringify_column : Column → Option Text
  stringify_column (json v) = stringify_template_value v
  stringify_column (date t) = some t
  stringify_column inherited = none

  -- `user[fieldKey]`
  unfoldable pub column_of : Text → ManagedUser → Option Column
  unfolding text_eq
  column_of key u =
      if text_eq key (units "id")
      then some (json (string u.id))
      else if text_eq key (units "ownerUserId")
      then some (json (string u.owner_user_id))
      else if text_eq key (units "name")
      then some (json (string u.name))
      else if text_eq key (units "phone")
      then some
          (elim (normalize_phone_number u.phone) [ none ↦ json null | some p ↦ json (string p) ])
      else elim (find? (λ c. text_eq c.0 key) u.columns) [
        | none ↦ if is_inherited key then some inherited else none
        | some c ↦ some c.1
      ]

  unfoldable pub resolve_managed_user_field_value : ManagedUser → Text → Option Text
  unfolding lookup_field
  resolve_managed_user_field_value u key = elim (column_of key u) [
    | some c ↦ stringify_column c
    | none ↦ elim u.custom_attributes [
      | object fs ↦ stringify_template_value (lookup_field key fs)
      | _ ↦ none
    ]
  ]

  unfoldable pub parameters_of :
      ManagedUser → List (Text × Text) → List Text → Outcome DraftError (List (Text × Text))
  unfolding get_mapping set_parameter
  parameters_of u mappings [] = ok []
  parameters_of u mappings (variable ∷ variables) =
      let rest = parameters_of u mappings variables in
      elim (get_mapping variable mappings) [
        | none ↦ rest
        | some key ↦ elim (is_empty key) [
          | true ↦ rest
          | false ↦ elim (resolve_managed_user_field_value u key) [
            | none ↦ err (empty_value u.name key variable)
            | some value ↦ elim (is_empty value) [
              | true ↦ err (empty_value u.name key variable)
              | false ↦ do parameters ← rest; ok (set_parameter variable value parameters)
            ]
          ]
        ]
      ]

  -- `Object.keys(parameters).length > 0 ? parameters : undefined`
  unfoldable pub build_recipient_template_parameters :
      ManagedUser
      → List Text
      → List (Text × Text)
      → Outcome DraftError (Option (List (Text × Text)))
  build_recipient_template_parameters u required_variables variable_mappings = do
    parameters ← parameters_of u variable_mappings required_variables
    ok (if is_empty parameters then none else some parameters)
