-- ===== src/Flow/Tests.antt =====
-- An event request that is stored and posted.
use noti.Common.{
  ◌≡◌, inl, inr, arith, refl, subst, [], ◌∷◌, none, some, Outcome, ok, err, true, false,
}
use noti.Text.{units}
use noti.Json.{Json, as_string, as_object, at_key}
use noti.Worker.{Runtime, WorkerError, unrecoverable, said}
use noti.Worker.Provider.{Payload}
use noti.Worker.Row.{ProviderTemplate}
use noti.Worker.Dispatch.{process_message}
use noti.Worker.Posting.{post_of}
use noti.Template.{scan, extract_required_variables, missing_required_variables}
use noti.Requests.{AlimtalkSenderProfile}
use noti.Requests.Accept.{
  PublTemplate, create_new, choose_template, get_template_required_variables, stored_variables,
  store_row, row_of, failure_of, resolve_publ_alimtalk_sender_profile,
  create_accepted_publ_event_request,
}
use noti.Requests.Rows.{find_by_key}
use noti.Requests.Backing.{IsBacked, required_by}
use noti.Requests.Samples.{
  no_date, no_text, nothing_inherited, approved_template, default_found, event_input, event_row,
  no_requests, one_request,
}
use noti.Flow.{Joins, load, fresh_store, IsComplete, accepted-posted}

abbrev runtime : Runtime
runtime = record {
  is_alimtalk_mock_mode = false;
  is_sms_api_mock_mode = false;
  positive_integer = λ v. none;
  is_zero = λ v. true;
  text_of = no_text;
  number_text = λ v. units "0";
  now_text = units "0";
  inherited = nothing_inherited;
}

abbrev codes : ProviderTemplate
codes = record {
  is_approved = true;
  template_code = some (units "code");
  kakao_template_code = none;
  nhn_template_id = none;
}

abbrev joins : Joins
joins = record {
  body_of = λ id. some (units "hi #{a}");
  provider_template_of = λ id. some codes;
  sender_key_of = λ id. some (units "key");
}

abbrev refuses : Payload → Outcome WorkerError Json
refuses p = err (unrecoverable (said "no"))

complete :
    (p : AlimtalkSenderProfile)
    → IsComplete joins
        (required_by no_date no_text nothing_inherited 0)
        approved_template
        p
        codes
        (units "key")
        (units "code")
unfolding extract_required_variables get_template_required_variables stored_variables scan
complete p = record {
  body_there = refl;
  provider_template_there = refl;
  codes_approved = refl;
  key_there = refl;
  key_filled = refl;
  code_there = (refl, refl);
  requires_all = (inl refl, tt);
  none_blank = ground arith;
}

any-IsComplete :
    (t : PublTemplate) (p : AlimtalkSenderProfile)
    → IsBacked nothing_inherited
        (required_by no_date no_text nothing_inherited 0)
        event_input
        default_found
        event_row
        t
        p
    → IsComplete joins
        (required_by no_date no_text nothing_inherited 0)
        t
        p
        codes
        (units "key")
        (units "code")
any-IsComplete t p backed = elim backed.chosen [
  | inl e ↦ absurd (ground (arith, e))
  | inr e ↦
      let same : approved_template ≡ t = ground (arith, e) in
      subst
        (λ t.
          IsComplete joins (required_by no_date no_text nothing_inherited 0) t p codes (units "key")
            (units "code"))
        same (complete p)
]

is_created :
    create_accepted_publ_event_request no_date no_text nothing_inherited 0 event_input default_found
      (units "k")
      (units "m1")
      no_requests
    ≡ ok (one_request, event_row, false)
unfolding create_accepted_publ_event_request find_by_key create_new choose_template
    missing_required_variables get_template_required_variables stored_variables
    extract_required_variables store_row row_of failure_of resolve_publ_alimtalk_sender_profile
is_created = refl

accepted-posted_example :
    (process_message runtime refuses (fresh_store (load joins event_row))).0.posted
    ≡ post_of (load joins event_row) (units "key") (units "code") ∷ []
unfolding as_string as_object at_key load
accepted-posted_example =
    accepted-posted no_date 0 runtime event_input default_found (units "k") (units "m1") no_requests
      one_request event_row joins codes (units "key") (units "code") refuses is_created refl
      any-IsComplete refl refl
