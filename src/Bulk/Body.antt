-- ===== src/Bulk/Body.antt =====
-- The body of a campaign: the provider's templates for display and back, the advertisement's marks,
-- and the mapping of the body's variables to the columns of the users.
use noti.Common.{
  ℕ, zero, suc, Bool, true, false, not, ◌&&◌, List, [], ◌∷◌, ◌++◌, Option, none, some,
  if◌then◌else◌, is_empty, any, keep, length, ◌==◌, Outcome, ok, err, ◌>>=◌, ◌>>◌, require,
}
use noti.Text.{Text, units, text_eq, trim}
use noti.Sms.{or_empty}
use noti.Sms.Format.{format_sms_body, sanitize_advertising_service_name}
use noti.Sms080.{Application, opt_out_text_of}
use noti.Template.{Piece, plain, hole, scan, key_of}
use noti.Bulk.Users.{
  DraftError, template_not_registered, no_body, no_080_number, column_not_found, missing_mappings,
  get_mapping,
}

-- the longest prefix without `#`, which is what `\s*([^#]+?)\s*` spans before the closing
unfoldable pub hash_run : Text → Text × Text
hash_run [] = ([], [])
hash_run (c ∷ s) = let (r, after) = hash_run s in if c == b'#' then ([], c ∷ s) else (c ∷ r, after)

close_hashes : Text → Text → Option (Text × Text)
close_hashes r (c ∷ d ∷ after) =
    if c == b'#' && d == b'#' && not (is_empty r) then some (r, after) else none
close_hashes r _ = none

-- a match of `/##\s*([^#]+?)\s*##/` at the head of the text, and what follows it
unfoldable pub match_hashes : Text → Option (Text × Text)
unfolding hash_run close_hashes
match_hashes (a ∷ b ∷ s) =
    let (r, after) = hash_run s in if a == b'#' && b == b'#' then close_hashes r after else none
match_hashes _ = none

-- `key.trim()`, in the form that the console shows
abbrev pub shown_key : Text → Text
shown_key r = if is_empty (trim r) then [] else units "#{" ++ trim r ++ units "}"

unfoldable pub ui_body_with : ℕ → Text → Text
unfolding match_hashes trim
ui_body_with zero s = []
ui_body_with (suc fuel) [] = []
ui_body_with (suc fuel) (c ∷ s) = elim (match_hashes (c ∷ s)) [
  | none ↦ c ∷ ui_body_with fuel s
  | some (r, after) ↦ shown_key r ++ ui_body_with fuel after
]

-- Every round consumes a code unit, so the length is fuel enough.
unfoldable pub normalize_nhn_sms_template_body_for_ui : Text → Text
unfolding ui_body_with
normalize_nhn_sms_template_body_for_ui body = ui_body_with (length body) body

-- each placeholder as the provider writes it
unfoldable pub provider_pieces : List Piece → Text
unfolding key_of
provider_pieces [] = []
provider_pieces (plain c ∷ ps) = c ∷ provider_pieces ps
provider_pieces (hole o r ∷ ps) =
    let rest = provider_pieces ps in
    if is_empty (key_of r) then rest else units "##" ++ key_of r ++ units "##" ++ rest

unfoldable pub normalize_nhn_template_body : Text → Text
unfolding scan provider_pieces
normalize_nhn_template_body body = provider_pieces (scan body)

-- The text of the template, where one is asked for and registered, or else the request's own.
unfoldable pub chosen_body : Option Text → Option Text → Option Text → Outcome DraftError Text
unfolding normalize_nhn_sms_template_body_for_ui trim
chosen_body template_id template body =
    if is_empty (or_empty template_id) then ok (trim (or_empty body)) else elim template [
      | none ↦ err template_not_registered
      | some t ↦ ok (trim (normalize_nhn_sms_template_body_for_ui t))
    ]

-- `getApprovedSms080OptOutText`, of the application that the database finds
unfoldable pub get_approved_sms080_opt_out_text : Option Application → Outcome DraftError Text
unfolding opt_out_text_of
get_approved_sms080_opt_out_text none = err no_080_number
get_approved_sms080_opt_out_text (some a) = elim (opt_out_text_of a) [
  | none ↦ err no_080_number
  | some text ↦ ok text
]

unfoldable pub opt_out_of : Bool → Option Application → Outcome DraftError (Option Text)
unfolding get_approved_sms080_opt_out_text
opt_out_of false service = ok none
opt_out_of true service = do text ← get_approved_sms080_opt_out_text service; ok (some text)

-- The body that is stored with a campaign.
unfoldable pub body_of :
    (template_id template body : Option Text) (is_advertisement : Bool) (name : Option Text)
    → Option Application
    → Outcome DraftError Text
unfolding sanitize_advertising_service_name format_sms_body
body_of template_id template body is_advertisement name service = do
  chosen ← chosen_body template_id template body
  require (not (is_empty chosen)) no_body
  opt_out ← opt_out_of is_advertisement service
  ok (
      format_sms_body chosen (record {
        is_advertisement = is_advertisement;
        advertising_service_name = some (sanitize_advertising_service_name name);
        opt_out_text = opt_out;
      }))

-- `new Map(...)`: a later entry of a key replaces the value of an earlier one
unfoldable pub set_mapping : Text → Text → List (Text × Text) → List (Text × Text)
unfolding text_eq
set_mapping k v [] = (k, v) ∷ []
set_mapping k v ((j, w) ∷ m) =
    let rest = set_mapping k v m in if text_eq j k then (j, v) ∷ m else (j, w) ∷ rest

unfoldable pub set_mappings : List (Text × Text) → List (Text × Text) → List (Text × Text)
unfolding set_mapping trim
set_mappings [] m = m
set_mappings ((variable, key) ∷ rest) m =
    let k = trim variable in
    let v = trim key in
    set_mappings rest (if is_empty k then m else if is_empty v then m else set_mapping k v m)

-- The loop over the entries of the map.
unfoldable pub check_columns :
    List Text → List Text → List (Text × Text) → Outcome DraftError (Unit {0})
unfolding text_eq
check_columns required available [] = ok tt
check_columns required available ((variable, key) ∷ m) =
    let rest = check_columns required available m in
    if not (any (λ v. text_eq v variable) required)
    then rest
    else if not (any (λ k. text_eq k key) available)
    then err (column_not_found variable key)
    else rest

abbrev pub has_no_mapping : List (Text × Text) → Text → Bool
has_no_mapping m variable = is_empty (or_empty (get_mapping variable m))

-- What the campaign throws about the mapping of its variables.
unfoldable pub check_mappings :
    List Text → List Text → List (Text × Text) → Outcome DraftError (Unit {0})
unfolding check_columns get_mapping
check_mappings required available m = do
  done ← check_columns required available m
  let missing = keep (has_no_mapping m) required
  require (is_empty missing) (missing_mappings missing)
