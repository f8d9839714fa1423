-- ===== src/Publ/Tests.antt =====
-- Publ events: the steps of a pipeline on small values, and an event that becomes a request.
use noti.Common.{◌≡◌, refl, true, false, [], ◌∷◌, none, some, ok, err}
use noti.Text.{Text, units, digits_only}
use noti.Json.{Json, string, number, array, object, undefined, Fields, nil, item, end, field}
use noti.Template.{
  Value, str, Variables, own, missing_required_variables, extract_required_variables,
}
use noti.Requests.Rows.{Row, Requests, find_by_key}
use noti.Requests.Accept.{
  create_accepted_publ_event_request, create_new, choose_template, failure_of, row_of, store_row,
  resolve_publ_alimtalk_sender_profile, get_template_required_variables, stored_variables,
}
use noti.Requests.Samples.{
  no_date, no_text, nothing_inherited, default_found, no_requests, event_row,
}
use noti.Publ.{normalize_publ_variable_value, primitive_record}
use noti.Publ.Parser.{EventRuntime, dated, format_publ_phone, text_of}
use noti.Publ.Named.{
  PropDefinition, build_publ_event_variables, last_given, build_publ_event_variables-last_given,
}
use noti.Publ.Phones.{format_publ_phone-digits}
use noti.Publ.Event.{
  AdminUser, publ, PublEventDefinition, CreatePublEventRequestDto, PublTables,
  create_from_publ_event, missing_recipient_phone,
}
use noti.Publ.Accepted.{create_from_publ_event-IsSent, IsSent}

-- a runtime in which nothing is a date and every amount is in one currency
abbrev runtime : EventRuntime
runtime = record {
  inherited = λ k. undefined;
  number_of = λ t. some t;
  integer_of = λ v. some 3;
  date_parts = λ z v. dated (record {
    year = units "2026";
    month = units "03";
    day = units "17";
    hour = units "12";
    minute = units "30";
  });
  format_number = λ locale t. some t;
  format_currency = λ locale currency t. none;
  to_upper_case = λ t. t;
}

abbrev step_of : Text → Json
step_of type = object (field (units "type") (string type) end)

-- `{ "to": "01012345678", "user": { "name": "Kim Min" }, "n": [1, "b"] }`
abbrev props : Fields
props = field (units "to") (string (units "01012345678")) (
    field (units "user") (object (field (units "name") (string (units "Kim Min")) end))
      (field (units "n") (array (item (number (units "1")) (item (string (units "b")) nil))) end))

abbrev phone_prop : PropDefinition
phone_prop = record {
  raw_path = units "to";
  alias = units "targetPhoneNumber";
  label = units "받는 번호";
  fallback = none;
  parser_pipeline = array (item (step_of (units "phoneFormat")) nil);
  enabled = true;
}

abbrev name_prop : PropDefinition
name_prop = record {
  raw_path = units "user. name";
  alias = units "a";
  label = units "";
  fallback = some (units "-");
  parser_pipeline = array (item (step_of (units "truncate")) nil);
  enabled = true;
}

abbrev event : PublEventDefinition
event = record { event_key = units "e"; is_active = true; props = phone_prop ∷ name_prop ∷ [] }

abbrev account : AdminUser
account = record { id = units "u"; provider_user_id = units "publ:1"; access_origin = publ }

abbrev tables : PublTables
tables = record {
  admin_users = account ∷ [];
  publ_event_definitions = event ∷ [];
  found = λ owner key. default_found;
}

abbrev dto : CreatePublEventRequestDto
dto = record {
  partner_key = none;
  provider_user_id = units " publ:1";
  event_key = units "e ";
  props = props;
  metadata = none;
  scheduled_at = none;
}

abbrev variables : Variables
variables =
    (units "a", str (units "Kim"))
    ∷ (units "받는번호", str (units "010-1234-5678"))
    ∷ (units "targetPhoneNumber", str (units "010-1234-5678"))
    ∷ (units "to", str (units "01012345678"))
    ∷ []

abbrev taken_row : Row
taken_row = record event_row {
  recipient_phone = units "010-1234-5678";
  variables = variables;
  metadata = object (
      field (units "partnerKey") (string (units "PUBL"))
        (field (units "providerUserId") (string (units "publ:1")) end));
}

abbrev taken_state : Requests
taken_state = record { rows = taken_row ∷ []; queued = units "m1" ∷ [] }

are_built : build_publ_event_variables runtime props event.props ≡ ok variables
unfolding build_publ_event_variables
are_built = refl

is_taken :
    create_from_publ_event runtime no_date no_text nothing_inherited 0 dto tables
      (units "k")
      (units "m1")
      no_requests
    ≡ ok (taken_state, taken_row, false)
unfolding create_from_publ_event build_publ_event_variables create_accepted_publ_event_request
    create_new choose_template failure_of row_of store_row resolve_publ_alimtalk_sender_profile
    get_template_required_variables stored_variables find_by_key missing_required_variables
    extract_required_variables
is_taken = refl

build_publ_event_variables-last_given_example :
    own (units "받는번호") variables
    ≡ last_given runtime props event.props
        (units "받는번호")
        (own (units "받는번호") (primitive_record props))
build_publ_event_variables-last_given_example =
    build_publ_event_variables-last_given runtime props event.props variables (units "받는번호")
      are_built

is_value :
    normalize_publ_variable_value (string (units "02) 123 4567"))
    ≡ some (str (units "02) 123 4567"))
unfolding normalize_publ_variable_value
is_value = refl

format_publ_phone-digits_example :
    (formatted : Value) × (normalize_publ_variable_value
        (format_publ_phone (string (units "02) 123 4567")))
      ≡ some formatted)
    × (digits_only (text_of formatted) ≡ digits_only (units "02) 123 4567"))
    × (format_publ_phone (format_publ_phone (string (units "02) 123 4567")))
        ≡ format_publ_phone (string (units "02) 123 4567")))
format_publ_phone-digits_example =
    format_publ_phone-digits (string (units "02) 123 4567")) (str (units "02) 123 4567")) is_value

create_from_publ_event-IsSent_example :
    IsSent runtime no_date no_text nothing_inherited 0 dto tables (units "k") taken_state taken_row
create_from_publ_event-IsSent_example =
    create_from_publ_event-IsSent runtime no_date no_text nothing_inherited 0 dto tables (units "k")
      (units "m1") no_requests taken_state taken_row is_taken refl

-- An event without a phone is refused, as is one whose definition puts none in its place.
no_phone :
    create_from_publ_event runtime no_date no_text nothing_inherited 0
      (record dto { props = end })
      tables
      (units "k")
      (units "m1")
      no_requests
    ≡ err missing_recipient_phone
unfolding create_from_publ_event build_publ_event_variables
no_phone = refl
