-- ===== src/Publ/Pipeline.antt =====
-- The parser pipeline of a prop: its steps, applied one after the other.
use noti.Common.{List, [], ◌∷◌, ◌++◌, none, some, if◌then◌else◌, Outcome, ok, ◌>>=◌}
use noti.Text.{Text, units}
use noti.Json.{
  Json, array, string, object, Items, nil, item, Fields, as_string, lookup_field, or_else,
  first_item, is_text,
}
use noti.Publ.{normalize_publ_variable_value, is_missing_publ_parser_value}
use noti.Publ.Parser.{
  EventRuntime, RangeError, text_of, text_or, format_publ_phone, replace_publ_value,
  truncate_publ_value, format_publ_date, format_publ_currency, render_publ_parser_template,
}

abbrev pub map_items : (Json → Json) → Items → Items
map_items f nil = nil
map_items f (item v vs) = item (f v) (map_items f vs)

-- the texts of the items that have a value
unfoldable pub item_texts : Items → List Text
unfolding normalize_publ_variable_value
item_texts nil = []
item_texts (item v vs) =
    let rest = item_texts vs in
    elim (normalize_publ_variable_value v) [ none ↦ rest | some x ↦ text_of x ∷ rest ]

abbrev pub join_with : Text → List Text → Text
join_with separator [] = []
join_with separator (t ∷ []) = t
join_with separator (t ∷ u ∷ ts) = t ++ separator ++ join_with separator (u ∷ ts)

unfoldable pub join_items : Json → Fields → Json
unfolding item_texts lookup_field as_string
join_items (array items) step =
    string (join_with (text_or (lookup_field (units "separator") step) []) (item_texts items))
join_items value step = value

abbrev pub first_or_self : Json → Json
first_or_self (array items) = first_item (array items)
first_or_self value = value

-- `step.value ?? step.fallback ?? step.defaultValue`, in place of a missing value
unfoldable pub fallback_for : Json → Fields → Json
unfolding is_missing_publ_parser_value lookup_field or_else
fallback_for value step =
    if is_missing_publ_parser_value value
    then or_else
        (or_else (lookup_field (units "value") step) (lookup_field (units "fallback") step))
        (lookup_field (units "defaultValue") step)
    else value

module _ (rt : EventRuntime) where
  unfoldable pub apply_publ_map_template : Json → Text → Fields → Json
  unfolding render_publ_parser_template
  apply_publ_map_template value [] root = value
  apply_publ_map_template (array items) (c ∷ t) root =
      array (map_items (λ v. string (render_publ_parser_template rt (c ∷ t) v root)) items)
  apply_publ_map_template value (c ∷ t) root =
      string (render_publ_parser_template rt (c ∷ t) value root)

  unfoldable pub apply_publ_parser_step : Json → Fields → Fields → Outcome RangeError Json
  unfolding is_text lookup_field fallback_for first_item apply_publ_map_template as_string
      join_items format_publ_date format_publ_currency format_publ_phone truncate_publ_value
      replace_publ_value
  apply_publ_parser_step value step root =
      let type = lookup_field (units "type") step in
      if is_text (units "none") type
      then ok value
      else if is_text (units "fallback") type
      then ok (fallback_for value step)
      else if is_text (units "firstItem") type
      then ok (first_or_self value)
      else if is_text (units "mapTemplate") type
      then ok
          (apply_publ_map_template value (text_or (lookup_field (units "template") step) []) root)
      else if is_text (units "join") type
      then ok (join_items value step)
      else if is_text (units "dateFormat") type
      then format_publ_date rt value step
      else if is_text (units "currencyFormat") type
      then format_publ_currency rt value step root
      else if is_text (units "phoneFormat") type
      then ok (format_publ_phone value)
      else if is_text (units "truncate") type
      then ok (truncate_publ_value rt value step)
      else if is_text (units "replace") type
      then ok (replace_publ_value value step)
      else ok value

  -- `reduce` over the steps; what is not an object is skipped
  unfoldable pub apply_steps : Json → Items → Fields → Outcome RangeError Json
  unfolding apply_publ_parser_step
  apply_steps value nil root = ok value
  apply_steps value (item (object step) steps) root = do
    next ← apply_publ_parser_step value step root
    apply_steps next steps root
  apply_steps value (item _ steps) root = apply_steps value steps root

  unfoldable pub apply_publ_parser_pipeline : Json → Json → Fields → Outcome RangeError Json
  unfolding apply_steps
  apply_publ_parser_pipeline value (array steps) root = apply_steps value steps root
  apply_publ_parser_pipeline value parser_pipeline root = ok value
