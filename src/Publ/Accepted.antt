-- ===== src/Publ/Accepted.antt =====
-- The requests that come of the partner's events: what stands behind them, and a second delivery of an
-- event.
use noti.Common.{
  ℕ, ◌≡◌, ◌∙◌, sym, subst, Bool, true, false, Option, none, some, is_empty, find?-passes, arith, ok,
  inl, inr, Bool-cases, Option-cases, Outcome-cases,
}
use noti.Text.{Text, units, text_eq, trim}
use noti.Json.{Json}
use noti.Template.{Value, Variables, own}
use noti.Worker.{MessageRequestStatus}
use noti.Publ.Parser.{EventRuntime, text_of}
use noti.Publ.Named.{build_publ_event_variables}
use noti.Publ.Event.{
  AdminUser, PublEventDefinition, CreatePublEventRequestDto, PublTables, is_publ, owner_or_error,
  event_or_error, recipient_phone_of, publ_input, find_account, find_event, partner_key_of,
  create_from_publ_event,
}
use noti.Requests.{AlimtalkSenderProfile}
use noti.Requests.Rows.{Row, Requests}
use noti.Requests.Accept.{
  Found, Input, PublTemplate, normalize_scheduled_at, create_accepted_publ_event_request,
}
use noti.Requests.Once.{table_of, create_accepted_publ_event_request-refines}
use noti.Requests.Backing.{IsBacked, required_by, create_accepted_publ_event_request-IsBacked}

owner_inv :
    (o : Option AdminUser) (u : AdminUser)
    → owner_or_error o ≡ ok u
    → (o ≡ some u) × (is_publ o ≡ true)
owner_inv none u e = cc
owner_inv (some v) u e = elim (Bool-cases (is_publ (some v))) [
  | inl f ↦ (ground (arith, e, f), f)
  | inr f ↦ absurd (ground (arith, e, f))
]

event_inv :
    (key : Text) (o : Option PublEventDefinition) (d : PublEventDefinition)
    → event_or_error key o ≡ ok d
    → (o ≡ some d) × (d.is_active ≡ true)
event_inv key none d e = cc
event_inv key (some c) d e = elim (Bool-cases c.is_active) [
  | inl f ↦ (ground (arith, e, f), ground (arith, e, f))
  | inr f ↦ absurd (ground (arith, e, f))
]

-- A phone that is not blank is the value of its variable.
phone_named :
    (vs : Variables)
    → is_empty (recipient_phone_of vs) ≡ false
    → (v : Value) × (own (units "targetPhoneNumber") vs ≡ some v)
      × (recipient_phone_of vs ≡ trim (text_of v))
unfolding recipient_phone_of trim
phone_named vs h = elim (Option-cases (own (units "targetPhoneNumber") vs)) [
  | inl e ↦ absurd (ground (arith, e, h))
  | inr (v, e) ↦ (v, e, ground (arith, e))
]

module _ (rt : EventRuntime) (parse_date : Text → Option ℕ) (string_of : Json → Text)
    (inherited : Text → Option Value) (now : ℕ) where
  -- What an event that was taken has gone through.
  pub record IsTaken (dto : CreatePublEventRequestDto) (tables : PublTables) (key new_id : Text)
      (s s' : Requests) (r : Row) (again : Bool) : Type 0 where
    pub owner : AdminUser
    pub event : PublEventDefinition
    pub variables : Variables
    pub account : find_account (trim dto.provider_user_id) tables ≡ some owner
    pub of_publ : is_publ (some owner) ≡ true
    pub defined : find_event (trim dto.event_key) tables ≡ some event
    pub active : event.is_active ≡ true
    pub built : build_publ_event_variables rt dto.props event.props ≡ ok variables
    pub partner :
        text_eq (partner_key_of rt parse_date string_of inherited now dto) (units "PUBL") ≡ true
    pub has_phone : is_empty (recipient_phone_of variables) ≡ false
    pub created :
        create_accepted_publ_event_request parse_date string_of inherited now
          (publ_input dto
            (partner_key_of rt parse_date string_of inherited now dto)
            owner
            variables)
          (tables.found owner.id (trim dto.event_key))
          key
          new_id
          s
        ≡ ok (s', r, again)

  create_from_publ_event-IsTaken :
      (dto : CreatePublEventRequestDto) (tables : PublTables) (key new_id : Text) (s s' : Requests)
      (r : Row) (again : Bool)
      → create_from_publ_event rt parse_date string_of inherited now dto tables key new_id s
        ≡ ok (s', r, again)
      → IsTaken dto tables key new_id s s' r again
  unfolding create_from_publ_event
  create_from_publ_event-IsTaken dto tables key new_id s s' r again e =
      let partner = partner_key_of rt parse_date string_of inherited now dto in
      let found = find_account (trim dto.provider_user_id) tables in
      let defined = find_event (trim dto.event_key) tables in
      elim (Bool-cases (text_eq partner (units "PUBL"))) [
        | inr f ↦ absurd (ground (arith, e, f))
        | inl f ↦ elim (Outcome-cases (owner_or_error found)) [
          | inr (x, g) ↦ absurd (ground (arith, e, f, g))
          | inl (owner, g) ↦ elim (Outcome-cases (event_or_error (trim dto.event_key) defined)) [
            | inr (x, h) ↦ absurd (ground (arith, e, f, g, h))
            | inl (event, h) ↦
                elim (Outcome-cases (build_publ_event_variables rt dto.props event.props)) [
                  | inr (x, k) ↦ absurd (ground (arith, e, f, g, h, k))
                  | inl (vs, k) ↦ elim (Bool-cases (is_empty (recipient_phone_of vs))) [
                    | inl m ↦ absurd (ground (arith, e, f, g, h, k, m))
                    | inr m ↦
                        elim (Outcome-cases (
                          create_accepted_publ_event_request parse_date string_of inherited now
                            (publ_input dto partner owner vs)
                            (tables.found owner.id (trim dto.event_key)) key new_id s)) [
                              | inr (x, n) ↦ absurd (ground (arith, e, f, g, h, k, m, n))
                              | inl (made, n) ↦
                                  let (by_id, of_publ) = owner_inv found owner g in
                                  let (by_key, active) =
                                    event_inv (trim dto.event_key) defined event h in
                                  record {
                                    owner = owner;
                                    event = event;
                                    variables = vs;
                                    account = by_id;
                                    of_publ = ground (arith, by_id, of_publ);
                                    defined = by_key;
                                    active = active;
                                    built = k;
                                    partner = f;
                                    has_phone = m;
                                    created = ground (arith, e, f, g, h, k, m, n);
                                  }
                            ]
                  ]
                ]
          ]
        ]
      ]

  accepted_again :
      (input : Input) (f : Found) (key new_id other : Text) (s s' : Requests) (r : Row)
      (again : Bool)
      → create_accepted_publ_event_request parse_date string_of inherited now input f key new_id s
        ≡ ok (s', r, again)
      → create_accepted_publ_event_request parse_date string_of inherited now input f key other s'
        ≡ ok (s', r, true)
  unfolding create_accepted_publ_event_request
  accepted_again input f key new_id other s s' r again e =
      let (held, _) =
        create_accepted_publ_event_request-refines parse_date string_of inherited now input f key
          new_id s s' r again input.owner_user_id key e in
      elim (Outcome-cases
        (normalize_scheduled_at parse_date string_of inherited now input.scheduled_at)) [
          | inr (x, g) ↦ absurd (ground (arith, e, g))
          | inl (at, g) ↦ ground (arith, g, held)
        ]

  -- An event that is delivered a second time with its idempotency key, at the same time of the clock
  -- and with the same tables, gives the request of the first time, and stores and queues nothing.
  pub create_from_publ_event-again :
      (dto : CreatePublEventRequestDto) (tables : PublTables) (key new_id other : Text)
      (s s' : Requests) (r : Row) (again : Bool)
      → create_from_publ_event rt parse_date string_of inherited now dto tables key new_id s
        ≡ ok (s', r, again)
      → create_from_publ_event rt parse_date string_of inherited now dto tables key other s'
        ≡ ok (s', r, true)
  unfolding create_from_publ_event
  create_from_publ_event-again dto tables key new_id other s s' r again e =
      let t = create_from_publ_event-IsTaken dto tables key new_id s s' r again e in
      let partner = partner_key_of rt parse_date string_of inherited now dto in
      let repeated =
        accepted_again (publ_input dto partner t.owner t.variables)
          (tables.found t.owner.id (trim dto.event_key)) key new_id other s s' r again t.created in
      ground (
        arith, t.partner, t.account, t.of_publ, t.defined, t.active, t.built, t.has_phone, repeated,
      )

  -- What stands behind a request of an event: the account, the event, the variables, the phone, and a
  -- template and a sender profile.
  pub record IsSent (dto : CreatePublEventRequestDto) (tables : PublTables) (key : Text)
      (s' : Requests) (r : Row) : Type 0 where
    pub owner : AdminUser
    pub event : PublEventDefinition
    pub template : PublTemplate
    pub profile : AlimtalkSenderProfile
    pub phone : Value
    pub account : find_account (trim dto.provider_user_id) tables ≡ some owner
    pub defined : find_event (trim dto.event_key) tables ≡ some event
    pub of_account : text_eq owner.provider_user_id (trim dto.provider_user_id) ≡ true
    pub of_publ : is_publ (some owner) ≡ true
    pub of_event : text_eq event.event_key (trim dto.event_key) ≡ true
    pub active : event.is_active ≡ true
    pub built : build_publ_event_variables rt dto.props event.props ≡ ok r.variables
    pub named : own (units "targetPhoneNumber") r.variables ≡ some phone
    pub recipient : r.recipient_phone ≡ trim (text_of phone)
    pub not_blank : is_empty r.recipient_phone ≡ false
    pub stored : table_of s' owner.id key ≡ some r
    pub backed :
        IsBacked inherited
          (required_by parse_date string_of inherited now)
          (publ_input dto
            (partner_key_of rt parse_date string_of inherited now dto)
            owner
            r.variables)
          (tables.found owner.id (trim dto.event_key))
          r
          template
          profile

  -- A new request of an event that is stored as ACCEPTED is stored for the account that the tables
  -- have for the event's provider id, which is a PUBL account, and the event that they have for its
  -- key is active; its variables are those that the event's props give, its phone is their
  -- `targetPhoneNumber`, trimmed and not blank; and an approved template with all its variables and
  -- a sender profile stand behind it.
  pub create_from_publ_event-IsSent :
      (dto : CreatePublEventRequestDto) (tables : PublTables) (key new_id : Text) (s s' : Requests)
      (r : Row)
      → create_from_publ_event rt parse_date string_of inherited now dto tables key new_id s
        ≡ ok (s', r, false)
      → r.status ≡ MessageRequestStatus.accepted
      → IsSent dto tables key s' r
  unfolding find_account find_event publ_input
  create_from_publ_event-IsSent dto tables key new_id s s' r e accepted =
      let t = create_from_publ_event-IsTaken dto tables key new_id s s' r false e in
      let partner = partner_key_of rt parse_date string_of inherited now dto in
      let input = publ_input dto partner t.owner t.variables in
      let found = tables.found t.owner.id (trim dto.event_key) in
      let (template, profile, backed) =
        create_accepted_publ_event_request-IsBacked parse_date string_of inherited now input found
          key new_id s s' r t.created accepted in
      let (stored, _) =
        create_accepted_publ_event_request-refines parse_date string_of inherited now input found
          key new_id s s' r false t.owner.id key t.created in
      let (phone, named, is_phone) = phone_named t.variables t.has_phone in
      let same : t.variables ≡ r.variables = sym backed.variables in
      record {
        owner = t.owner;
        event = t.event;
        template = template;
        profile = profile;
        phone = phone;
        account = t.account;
        defined = t.defined;
        of_account =
            find?-passes (λ u. text_eq u.provider_user_id (trim dto.provider_user_id))
              tables.admin_users t.owner t.account;
        of_publ = t.of_publ;
        of_event =
            find?-passes (λ d. text_eq d.event_key (trim dto.event_key))
              tables.publ_event_definitions t.event t.defined;
        active = t.active;
        built =
            subst (λ vs. build_publ_event_variables rt dto.props t.event.props ≡ ok vs) same
              t.built;
        named = subst (λ vs. own (units "targetPhoneNumber") vs ≡ some phone) same named;
        recipient = backed.recipient ∙ is_phone;
        not_blank = subst (λ x. is_empty x ≡ false) (sym backed.recipient) t.has_phone;
        stored = stored;
        backed =
            subst
              (λ vs.
                IsBacked inherited (required_by parse_date string_of inherited now)
                  (publ_input dto partner t.owner vs) found r template profile)
              same backed;
      }
