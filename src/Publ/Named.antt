-- ===== src/Publ/Named.antt =====
-- `buildPublEventVariables`: the variables of an event, which are its primitive props and the value of
-- each enabled prop definition, under its alias and its label.
use noti.Common.{
  ◌≡◌, Bool, true, false, not, ◌&&◌, ◌||◌, List, [], ◌∷◌, Option, none, some, if◌then◌else◌,
  is_empty, arith, Outcome, ok, err, ◌>>=◌, inl, inr, Bool-cases, Outcome-cases,
}
use noti.Text.{Text, units, text_eq, trim, eq_of_text_eq}
use noti.Json.{Json, null, string, Fields}
use noti.Template.{Value, Variables, own}
use noti.Publ.{
  normalize_publ_variable_value, is_missing_publ_parser_value, assign_publ_variable,
  primitive_record, label_to_publ_variable, read_publ_path,
}
use noti.Publ.Parser.{EventRuntime, RangeError}
use noti.Publ.Pipeline.{apply_publ_parser_pipeline}

-- `PublEventPropDefinitionShape`
pub record PropDefinition : Type 0 where
  pub raw_path : Text
  pub alias : Text
  pub label : Text
  pub fallback : Option Text
  pub parser_pipeline : Json
  pub enabled : Bool

abbrev fallback_of : PropDefinition → Json
fallback_of prop = elim prop.fallback [ none ↦ null | some t ↦ string t ]

-- `value`, or the fallback where it is missing
abbrev or_fallback : PropDefinition → Json → Json
or_fallback prop value = if is_missing_publ_parser_value value then fallback_of prop else value

abbrev pub assign_value : PropDefinition → Option Value → Variables → Variables
assign_value prop none vs = vs
assign_value prop (some v) vs =
    assign_publ_variable (assign_publ_variable vs prop.alias v) (label_to_publ_variable prop.label)
      v

-- The names that an assignment under a key sets.
abbrev pub is_named : Text → Text → Bool
is_named key k = text_eq (trim key) k && not (is_empty k) && not (text_eq k (units "__proto__"))

abbrev pub names : PropDefinition → Text → Bool
names prop k = is_named prop.alias k || is_named (label_to_publ_variable prop.label) k

own-assign_publ_variable :
    (vs : Variables) (key k : Text) (v : Value)
    → own k (assign_publ_variable vs key v) ≡ (if is_named key k then some v else own k vs)
unfolding own assign_publ_variable
own-assign_publ_variable vs key k v = elim (Bool-cases (text_eq (trim key) k)) [
  | inl e ↦ let same = eq_of_text_eq (trim key) k e in ground (arith, e, same)
  | inr e ↦ ground (arith, e)
]

own-assign_value :
    (prop : PropDefinition) (vs : Variables) (k : Text) (v : Value)
    → own k (assign_value prop (some v) vs) ≡ (if names prop k then some v else own k vs)
own-assign_value prop vs k v =
    let label = label_to_publ_variable prop.label in
    let by_alias = assign_publ_variable vs prop.alias v in
    ground (
      arith,
      own-assign_publ_variable vs prop.alias k v,
      own-assign_publ_variable by_alias label k v,
    )

module _ (rt : EventRuntime) (props : Fields) where
  -- the value of a prop, where it has one
  unfoldable pub prop_value : PropDefinition → Outcome RangeError (Option Value)
  unfolding read_publ_path is_missing_publ_parser_value apply_publ_parser_pipeline
      normalize_publ_variable_value
  prop_value prop = do
    parsed ←
        apply_publ_parser_pipeline rt
          (or_fallback prop (read_publ_path rt.inherited props prop.raw_path)) prop.parser_pipeline
          props
    ok (normalize_publ_variable_value (or_fallback prop parsed))

  -- The loop over the definitions.
  unfoldable pub add_props : List PropDefinition → Variables → Outcome RangeError Variables
  unfolding prop_value assign_publ_variable label_to_publ_variable
  add_props [] vs = ok vs
  add_props (prop ∷ ps) vs = elim prop.enabled [
    | false ↦ add_props ps vs
    | true ↦ do value ← prop_value prop; add_props ps (assign_value prop value vs)
  ]

  unfoldable pub build_publ_event_variables : List PropDefinition → Outcome RangeError Variables
  unfolding primitive_record add_props
  build_publ_event_variables ps = add_props ps (primitive_record props)

  -- the value that a definition gives to a name
  abbrev pub given_by : PropDefinition → Text → Option Value
  given_by prop k =
      if prop.enabled && names prop k
      then elim (prop_value prop) [ ok value ↦ value | err e ↦ none ]
      else none

  -- the value that the last definition to give one gives to a name, or else the value before
  abbrev pub last_given : List PropDefinition → Text → Option Value → Option Value
  last_given [] k before = before
  last_given (prop ∷ ps) k before =
      last_given ps k (elim (given_by prop k) [ none ↦ before | some v ↦ some v ])

  add_props-last_given :
      (ps : List PropDefinition) (vs out : Variables) (k : Text)
      → add_props ps vs ≡ ok out
      → own k out ≡ last_given ps k (own k vs)
  unfolding add_props
  add_props-last_given [] vs out k e = ground (arith, e)
  add_props-last_given (prop ∷ ps) vs out k e = elim (Bool-cases prop.enabled) [
    | inr f ↦ ground (arith, f, add_props-last_given ps vs out k (ground (arith, e, f)))
    | inl f ↦ elim (Outcome-cases (prop_value prop)) [
      | inr (x, g) ↦ absurd (ground (arith, e, f, g))
      | inl (none, g) ↦
          ground (arith, f, g, add_props-last_given ps vs out k (ground (arith, e, f, g)))
      | inl (some v, g) ↦
          let next = assign_value prop (some v) vs in
          ground (
            arith,
            f,
            g,
            own-assign_value prop vs k v,
            add_props-last_given ps next out k (ground (arith, e, f, g)),
          )
    ]
  ]

  -- In the variables of an event a name has the value of the last enabled definition that has one and
  -- names it by its alias or by its label without white space, or else that of the event's own
  -- primitive prop, where it has one.
  pub build_publ_event_variables-last_given :
      (ps : List PropDefinition) (vs : Variables) (k : Text)
      → build_publ_event_variables ps ≡ ok vs
      → own k vs ≡ last_given ps k (own k (primitive_record props))
  unfolding build_publ_event_variables
  build_publ_event_variables-last_given ps vs k e =
      add_props-last_given ps (primitive_record props) vs k e
