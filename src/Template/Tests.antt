-- ===== src/Template/Tests.antt =====
-- Concrete bodies and variables for the templates.
use noti.Common.{◌≡◌, refl, List, [], ◌∷◌, Option, none, ok, err, All, inl, inr, arith}
use noti.Text.{Text, units}
use noti.Template.{
  scan, extract_required_variables, missing_required_variables, render_template, Value, str, get,
  missing_template_variable, key_of,
}
use noti.Template.Matches.{Parses, scan-Parses}
use noti.Template.Render.{Has, Renders, IsBlank, validated-render, blank-render}

abbrev greeting : Text
greeting = units "Hi {{ b }}, #{a}"

abbrev blank : Text
blank = units "x{{ }}"

abbrev values : List (Text × Value)
values = (units "a", str (units "1")) ∷ (units "b", str (units "2")) ∷ []

abbrev nothing_inherited : Text → Option Value
nothing_inherited k = none

greeting_keys : extract_required_variables greeting ≡ units "a" ∷ units "b" ∷ []
unfolding extract_required_variables
greeting_keys = refl

greeting_is_full : All (λ p. ¬ IsBlank p) (scan greeting)
unfolding scan key_of
greeting_is_full = ground arith

validated-render_example :
    (t : Text) × (render_template nothing_inherited greeting values ≡ ok t)
    × Renders (λ k. get nothing_inherited k values) (scan greeting) t
unfolding missing_required_variables extract_required_variables
validated-render_example = validated-render nothing_inherited values greeting refl greeting_is_full

blank-render_example :
    ¬ Has [] (extract_required_variables blank)
    × ((k : Text) × (render_template nothing_inherited blank values
          ≡ err (missing_template_variable k)))
unfolding get scan key_of
blank-render_example = blank-render nothing_inherited values blank refl (inr (inl refl))

scan-Parses_example : Parses greeting (scan greeting)
scan-Parses_example = scan-Parses greeting
