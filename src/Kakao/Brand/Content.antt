-- ===== src/Kakao/Brand/Content.antt =====
-- The content of a bulk brand message: its buttons, its image, and the checks of a free text or of a
-- template.
use noti.Common.{
  ℕ, zero, suc, Bool, true, false, not, ◌&&◌, ◌||◌, List, [], ◌∷◌, Option, none, some,
  if◌then◌else◌, is_empty, keep, map, length, leb, ◌==◌, Outcome, ok, ◌>>◌, require,
}
use noti.Text.{Text, units, trim}
use noti.Sms.{or_empty, or_text}
use noti.Template.{run, close_hash}
use noti.Delivery.Local.{after_any_case}
use noti.Bulk.Users.{
  DraftError, no_body, no_template_code, unsupported_message_type, body_too_long, too_many_buttons,
  no_image, filled,
}
use noti.Bulk.Rows.{distinct_ids}

pub data Mode : Type 0 where
  freestyle template : Mode

pub data MessageType : Type 0 where
  plain_text image wide wide_item_list carousel_feed premium_video commerce carousel_commerce :
      MessageType

-- WL, AL, BK and MD
pub data ButtonType : Type 0 where
  wl al bk md : ButtonType

pub record Button : Type 0 where
  pub type : ButtonType
  pub name : Text
  pub link_mo : Option Text
  pub link_pc : Option Text
  pub scheme_ios : Option Text
  pub scheme_android : Option Text

pub record Image : Type 0 where
  pub image_url : Option Text
  pub image_link : Option Text

pub record CreateBulkBrandMessageCampaignDto : Type 0 where
  pub title : Option Text
  pub sender_profile_id : Text
  pub mode : Option Mode
  pub message_type : Option MessageType
  pub content : Option Text
  pub template_code : Option Text
  pub template_name : Option Text
  pub template_body : Option Text
  pub required_variables : List Text
  pub template_variable_mappings : List (Text × Text)
  pub push_alarm : Option Bool
  pub adult : Option Bool
  pub stats_event_key : Option Text
  pub reseller_code : Option Text
  pub image : Option Image
  pub buttons : List Button
  pub user_ids : List Text
  pub scheduled_at : Option Text

-- What the two modes decide.
pub record BrandContent : Type 0 where
  pub body : Text
  pub template_name : Option Text
  pub template_code : Option Text
  pub required_variables : List Text

abbrev pub mode_of : CreateBulkBrandMessageCampaignDto → Mode
mode_of dto = elim dto.mode [ none ↦ freestyle | some m ↦ m ]

abbrev pub message_type_of : CreateBulkBrandMessageCampaignDto → MessageType
message_type_of dto = elim dto.message_type [ none ↦ plain_text | some t ↦ t ]

-- `value?.trim() || null`
abbrev pub trimmed : Option Text → Option Text
trimmed value = filled (trim (or_empty value))

abbrev normalize_button : Button → Button
normalize_button b = record {
  type = b.type;
  name = trim b.name;
  link_mo = trimmed b.link_mo;
  link_pc = trimmed b.link_pc;
  scheme_ios = trimmed b.scheme_ios;
  scheme_android = trimmed b.scheme_android;
}

-- the buttons that have a name
unfoldable pub normalize_buttons : List Button → List Button
unfolding trim
normalize_buttons buttons = keep (λ b. not (is_empty b.name)) (map normalize_button buttons)

abbrev pub image_link_of : CreateBulkBrandMessageCampaignDto → Option Text
image_link_of dto = elim dto.image [ none ↦ none | some i ↦ trimmed i.image_link ]

abbrev pub image_url_of : CreateBulkBrandMessageCampaignDto → Option Text
image_url_of dto = elim dto.image [ none ↦ none | some i ↦ trimmed i.image_url ]

abbrev starts_any_case : Text → Text → Bool
starts_any_case prefix s = elim (after_any_case prefix s) [ none ↦ false | some rest ↦ true ]

-- no link, or one of `/^https?:\/\//i`
unfoldable pub is_web_link : Option Text → Bool
unfolding after_any_case
is_web_link none = true
is_web_link (some link) =
    starts_any_case (units "http://") link || starts_any_case (units "https://") link

-- a match of `/#\{([^}]+)\}/` at the head of the text, and what follows it
match_brand_variable : Text → Option (Text × Text)
unfolding run close_hash
match_brand_variable (a ∷ b ∷ s) =
    let (r, after) = run s in
    if a == b'#' && b == b'{'
    then elim (close_hash r after) [ none ↦ none | some (p, rest) ↦ some (r, rest) ]
    else none
match_brand_variable _ = none

-- the matches, trimmed
unfoldable pub brand_variables_with : ℕ → Text → List Text
unfolding match_brand_variable trim
brand_variables_with zero s = []
brand_variables_with (suc fuel) [] = []
brand_variables_with (suc fuel) (c ∷ s) = elim (match_brand_variable (c ∷ s)) [
  | none ↦ brand_variables_with fuel s
  | some (r, after) ↦ trim r ∷ brand_variables_with fuel after
]

-- `[...new Set(names)]` of the names that are not empty
abbrev pub distinct_names : List Text → List Text
distinct_names names = distinct_ids [] (keep (λ v. not (is_empty v)) names)

-- Every round consumes a code unit, so the length is fuel enough.
unfoldable pub extract_brand_template_variables : Text → List Text
unfolding brand_variables_with distinct_ids
extract_brand_template_variables body = distinct_names (brand_variables_with (length body) body)

-- the variables of the request, or else those of the body
unfoldable pub brand_required_variables : List Text → Text → List Text
unfolding extract_brand_template_variables distinct_ids trim
brand_required_variables given body =
    let names = distinct_names (map trim given) in
    if is_empty names then extract_brand_template_variables body else names

unfoldable pub template_content :
    CreateBulkBrandMessageCampaignDto → Outcome DraftError BrandContent
unfolding trim brand_required_variables
template_content dto = do
  let code = trim (or_empty dto.template_code)
  let body = trim (or_empty dto.template_body)
  require (not (is_empty code)) no_template_code
  require (not (is_empty body)) no_body
  ok (record {
    body = body;
    template_name =
        some (or_text (trim (or_empty dto.template_name)) (or_text code (units "브랜드 템플릿")));
    template_code = some code;
    required_variables = brand_required_variables dto.required_variables body;
  })

abbrev pub is_free_type : MessageType → Bool
is_free_type plain_text = true
is_free_type image = true
is_free_type wide = true
is_free_type _ = false

abbrev pub is_text_type : MessageType → Bool
is_text_type plain_text = true
is_text_type _ = false

-- the bodies of images and of wide messages are short; the request bounds the others
abbrev pub fits_type : MessageType → Text → Bool
fits_type image body = leb (length body) 400
fits_type wide body = leb (length body) 76
fits_type _ body = true

abbrev pub button_limit : MessageType → ℕ
button_limit wide = 2
button_limit _ = 5

abbrev pub has_image : CreateBulkBrandMessageCampaignDto → Bool
has_image dto = elim (image_url_of dto) [ none ↦ false | some url ↦ true ]

-- What a free text throws, in this order.
unfoldable pub check_freestyle : CreateBulkBrandMessageCampaignDto → Outcome DraftError (Unit {0})
unfolding trim normalize_buttons
check_freestyle dto = do
  let type = message_type_of dto
  let body = trim (or_empty dto.content)
  require (not (is_empty body)) no_body
  require (is_free_type type) unsupported_message_type
  require (fits_type type body) body_too_long
  require (leb (length (normalize_buttons dto.buttons)) (button_limit type)) too_many_buttons
  require (is_text_type type || has_image dto) no_image

abbrev pub freestyle_content : CreateBulkBrandMessageCampaignDto → BrandContent
freestyle_content dto = record {
  body = trim (or_empty dto.content);
  template_name = none;
  template_code = none;
  required_variables = [];
}
