-- ===== src/Requests/Backing.antt =====
-- What stands behind an event request that was stored as ACCEPTED.
use noti.Common.{
  ℕ, ◌≡◌, ◌⊎◌, inl, inr, refl, Bool, false, List, [], Option, none, some, arith, ok, Option-cases,
  Outcome-cases, Bool-cases, is_empty,
}
use noti.Text.{Text}
use noti.Json.{Json}
use noti.Template.{Value, missing_required_variables}
use noti.Worker.{MessageChannel, MessageRequestStatus}
use noti.Requests.{apr, AlimtalkSenderProfile}
use noti.Requests.Rows.{Row, Requests, find_by_key}
use noti.Requests.Accept.{
  PublTemplate, Found, Input, Failure, choose_template, custom_template, failure_of, row_of,
  normalize_scheduled_at, missing_of, create_new, get_template_required_variables,
  create_accepted_publ_event_request, resolve_publ_alimtalk_sender_profile, preferred_profile,
  status_for,
}

-- The row repeats the input and names the template, which is approved, is the rule's own or the
-- upserted default, and has all its variables, and a sender profile.
pub record IsBacked (inherited : Text → Option Value) (required : PublTemplate → List Text)
    (input : Input) (f : Found) (r : Row) (t : PublTemplate) (p : AlimtalkSenderProfile)
    : Type 0 where
  pub approved : t.provider_status ≡ apr
  pub chosen : (custom_template f.rule ≡ some t) ⊎ (f.upserted ≡ ok t)
  pub none_missing : missing_required_variables inherited (required t) input.variables ≡ []
  pub template : r.resolved_template_id ≡ some t.template_id
  pub provider_template : r.resolved_provider_template_id ≡ some t.id
  pub sender : r.resolved_sender_profile_id ≡ some p.id
  pub channel : r.resolved_channel ≡ some MessageChannel.alimtalk
  pub no_manual_body : r.manual_body ≡ none
  pub variables : r.variables ≡ input.variables
  pub metadata : r.metadata ≡ input.metadata
  pub recipient : r.recipient_phone ≡ input.recipient_phone

no_failure :
    (failed : Option Failure) (t : Option PublTemplate) (p : Option AlimtalkSenderProfile)
    → status_for (failure_of failed t p) ≡ MessageRequestStatus.accepted
    → (q : PublTemplate) × (o : AlimtalkSenderProfile) × (failed ≡ none)
      × (t ≡ some q)
      × (p ≡ some o)
      × (q.provider_status ≡ apr)
unfolding failure_of
no_failure (some f) t p h = cc
no_failure none none p h = cc
no_failure none (some q) none h = absurd (ground (arith, h))
no_failure none (some q) (some o) h = (q, o, refl, refl, refl, ground (arith, h))

choose_template_lem :
    (f : Found) (t : PublTemplate)
    → choose_template f ≡ ok (some t, none)
    → (custom_template f.rule ≡ some t) ⊎ (f.upserted ≡ ok t)
unfolding choose_template
choose_template_lem f t h = elim (Option-cases (custom_template f.rule)) [
  | inr (q, e) ↦ inl (ground (arith, e, h))
  | inl e ↦ elim (Outcome-cases f.upserted) [
    | inl (q, g) ↦ inr (ground (arith, e, g, h))
    | inr (x, g) ↦ absurd (ground (arith, e, g, h))
  ]
]

module _ (parse_date : Text → Option ℕ) (text_of : Json → Text) (inherited : Text → Option Value)
    (now : ℕ) where
  abbrev pub required_by : PublTemplate → List Text
  required_by = get_template_required_variables parse_date text_of inherited now

  create_new-IsBacked :
      (input : Input) (f : Found) (key new_id : Text) (at : Option ℕ) (s s' : Requests) (r : Row)
      (again : Bool)
      → create_new parse_date text_of inherited now input f key new_id at s ≡ ok (s', r, again)
      → r.status ≡ MessageRequestStatus.accepted
      → (t : PublTemplate) × (p : AlimtalkSenderProfile) × IsBacked inherited required_by input f r
          t p
  unfolding create_new row_of
  create_new-IsBacked input f key new_id at s s' r again h accepted =
      elim (Outcome-cases (choose_template f)) [
        | inr (x, e) ↦ absurd (ground (arith, e, h))
        | inl ((t, failed), e) ↦
            let p =
              resolve_publ_alimtalk_sender_profile (preferred_profile f.rule)
                f.first_active_profile in
            let row = row_of input key new_id at t p (failure_of failed t p) in
            elim (Bool-cases
              (is_empty (missing_of parse_date text_of inherited now t input.variables))) [
                | inr g ↦ absurd (ground (arith, e, g, h))
                | inl g ↦
                    let same : row ≡ r = ground (arith, e, g, h) in
                    let (q, o, clean, is_t, is_p, is_ok) =
                      no_failure failed t p (ground (arith, accepted, same)) in
                    (
                      q,
                      o,
                      record {
                        approved = is_ok;
                        chosen = choose_template_lem f q (ground (arith, e, clean, is_t));
                        none_missing = ground (arith, g, is_t);
                        template = ground (arith, same, is_t);
                        provider_template = ground (arith, same, is_t);
                        sender = ground (arith, same, is_p);
                        channel = ground (arith, same);
                        no_manual_body = ground (arith, same);
                        variables = ground (arith, same);
                        metadata = ground (arith, same);
                        recipient = ground (arith, same);
                      },
                    )
              ]
      ]

  -- A new event request that is stored as ACCEPTED repeats its input and has behind it an approved
  -- template, the rule's own or the default, with no required variable missing, and a sender profile.
  pub create_accepted_publ_event_request-IsBacked :
      (input : Input) (f : Found) (key new_id : Text) (s s' : Requests) (r : Row)
      → create_accepted_publ_event_request parse_date text_of inherited now input f key new_id s
        ≡ ok (s', r, false)
      → r.status ≡ MessageRequestStatus.accepted
      → (t : PublTemplate) × (p : AlimtalkSenderProfile) × IsBacked inherited required_by input f r
          t p
  unfolding create_accepted_publ_event_request
  create_accepted_publ_event_request-IsBacked input f key new_id s s' r h accepted =
      elim (Outcome-cases
        (normalize_scheduled_at parse_date text_of inherited now input.scheduled_at)) [
          | inr (x, e) ↦ absurd (ground (arith, e, h))
          | inl (at, e) ↦ elim (Option-cases (find_by_key input.owner_user_id key s)) [
            | inr (q, g) ↦ absurd (ground (arith, e, g, h))
            | inl g ↦
                create_new-IsBacked input f key new_id at s s' r false (ground (arith, e, g, h))
                  accepted
          ]
        ]
