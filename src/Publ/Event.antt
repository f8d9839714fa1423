-- ===== src/Publ/Event.antt =====
-- `createFromPublEvent`: an event of the partner is checked against its account and its definition,
-- and becomes a request to the phone that its variables name.
use noti.Common.{
  ℕ, Bool, true, false, not, List, [], ◌∷◌, Option, none, some, if◌then◌else◌, is_empty, find?,
  Outcome, ok, err, ◌>>=◌, ◌>>◌, require,
}
use noti.Text.{Text, units, text_eq, trim}
use noti.Json.{Json, object, string, Fields, end, field}
use noti.Sms.{or_empty, or_text}
use noti.Template.{Value, Variables, own}
use noti.Publ.{primitive_record}
use noti.Publ.Parser.{EventRuntime, json_of, text_of}
use noti.Publ.Named.{PropDefinition, build_publ_event_variables}
use noti.Requests.Rows.{Row, Requests}
use noti.Requests.Accept.{Found, Input, CreateError, create_accepted_publ_event_request}

pub data AccessOrigin : Type 0 where
  direct publ : AccessOrigin

pub record AdminUser : Type 0 where
  pub id : Text
  pub provider_user_id : Text
  pub access_origin : AccessOrigin

-- An event with its props, by their order and path; `is_active` says that its status is ACTIVE.
pub record PublEventDefinition : Type 0 where
  pub event_key : Text
  pub is_active : Bool
  pub props : List PropDefinition

pub record CreatePublEventRequestDto : Type 0 where
  pub partner_key : Option Text
  pub provider_user_id : Text
  pub event_key : Text
  pub props : Fields
  pub metadata : Option Fields
  pub scheduled_at : Option Text

pub data PublError : Type 0 where
  partner_key_must_be_publ account_not_found missing_recipient_phone range_error : PublError
  event_not_found event_inactive : (event_key : Text) → PublError
  create_failed : CreateError → PublError

-- The tables that are read: the users, the events, and what is found for an owner and an event.
pub record PublTables : Type 0 where
  pub admin_users : List AdminUser
  pub publ_event_definitions : List PublEventDefinition
  pub found : (owner event_key : Text) → Found

-- an account of the partner
abbrev pub is_publ : Option AdminUser → Bool
is_publ none = false
is_publ (some u) = elim u.access_origin [ publ ↦ true | direct ↦ false ]

abbrev pub owner_or_error : Option AdminUser → Outcome PublError AdminUser
owner_or_error none = err account_not_found
owner_or_error (some u) = if is_publ (some u) then ok u else err account_not_found

abbrev pub event_or_error :
    Text → Option PublEventDefinition → Outcome PublError PublEventDefinition
event_or_error key none = err (event_not_found key)
event_or_error key (some e) = if e.is_active then ok e else err (event_inactive key)

abbrev pub shown_value : Option Value → Option Text
shown_value none = none
shown_value (some v) = some (text_of v)

-- `...toPrimitiveRecord(metadata)` after the base; of two fields with one name the first counts
abbrev pub record_fields : Variables → Fields → Fields
record_fields [] base = base
record_fields ((k, v) ∷ vs) base = field k (json_of v) (record_fields vs base)

abbrev pub no_fields_or : Option Fields → Fields
no_fields_or none = end
no_fields_or (some fs) = fs

-- the phone that the variables name
unfoldable pub recipient_phone_of : Variables → Text
unfolding own trim
recipient_phone_of vs = trim (or_empty (shown_value (own (units "targetPhoneNumber") vs)))

-- the input for the request
unfoldable pub publ_input :
    CreatePublEventRequestDto → (partner_key : Text) → AdminUser → Variables → Input
unfolding primitive_record recipient_phone_of own trim
publ_input dto partner_key owner vs = record {
  owner_user_id = owner.id;
  event_key = trim dto.event_key;
  recipient_phone = recipient_phone_of vs;
  recipient_user_id = shown_value (own (units "targetId") vs);
  variables = vs;
  metadata = object (
      record_fields (primitive_record (no_fields_or dto.metadata)) (
        field (units "partnerKey") (string partner_key)
          (field (units "providerUserId") (string (trim dto.provider_user_id)) end)));
  scheduled_at = dto.scheduled_at;
  retry_of_request_id = none;
}

-- `findUnique` and `findFirst`
unfoldable pub find_account : Text → PublTables → Option AdminUser
unfolding text_eq
find_account id tables = find? (λ u. text_eq u.provider_user_id id) tables.admin_users

unfoldable pub find_event : Text → PublTables → Option PublEventDefinition
unfolding text_eq
find_event key tables = find? (λ e. text_eq e.event_key key) tables.publ_event_definitions

module _ (rt : EventRuntime) (parse_date : Text → Option ℕ) (string_of : Json → Text)
    (inherited : Text → Option Value) (now : ℕ) where
  -- `buildPublEventVariables`, whose only exception is the runtime's
  abbrev pub variables_or_error : Fields → List PropDefinition → Outcome PublError Variables
  variables_or_error props ps = elim (build_publ_event_variables rt props ps) [
    | ok vs ↦ ok vs
    | err e ↦ err range_error
  ]

  abbrev pub created_or_error :
      Input → Found → Text → Text → Requests → Outcome PublError (Requests × Row × Bool)
  created_or_error input f key new_id s =
      elim (create_accepted_publ_event_request parse_date string_of inherited now input f key new_id
        s) [ ok result ↦ ok result | err e ↦ err (create_failed e) ]

  abbrev pub partner_key_of : CreatePublEventRequestDto → Text
  partner_key_of dto = rt.to_upper_case (or_text (trim (or_empty dto.partner_key)) (units "PUBL"))

  unfoldable pub create_from_publ_event :
      CreatePublEventRequestDto
      → PublTables
      → (key new_id : Text) → Requests
      → Outcome PublError (Requests × Row × Bool)
  unfolding trim text_eq find_account find_event recipient_phone_of publ_input
  create_from_publ_event dto tables key new_id s = do
    require (text_eq (partner_key_of dto) (units "PUBL")) partner_key_must_be_publ
    owner ← owner_or_error (find_account (trim dto.provider_user_id) tables)
    let event_key = trim dto.event_key
    event ← event_or_error event_key (find_event event_key tables)
    variables ← variables_or_error dto.props event.props
    require (not (is_empty (recipient_phone_of variables))) missing_recipient_phone
    created_or_error (publ_input dto (partner_key_of dto) owner variables)
        (tables.found owner.id event_key) key new_id s
