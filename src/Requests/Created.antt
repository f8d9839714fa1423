-- ===== src/Requests/Created.antt =====
-- What a request by a rule is when it was created, and the ledger beside it.
use noti.Common.{
  ℕ, ◌≡◌, ◌⊎◌, ◌≤◌, ◌<◌, ◌∙◌, refl, ap, subst, Bool, true, List, [], ◌∷◌, Option, none, some,
  is_empty, find?-passes, ◌&&◌, arith, Outcome, ok, inl, inr, Bool-cases, Option-cases,
  Outcome-cases,
}
use noti.Text.{Text, text_eq, text_eq_refl, eq_of_text_eq}
use noti.Json.{Json}
use noti.Template.{Value, missing_required_variables}
use noti.Quota.{Db, ensure_user, used_in, get_kst_month_window}
use noti.Quota.Limit.{reserve_manual-within}
use noti.Requests.{Conflict, AlimtalkTemplate, ResolutionResult, sms, alimtalk, resolve_channel}
use noti.Requests.Rows.{Row, has_key, find_by_key, add_row, enqueue}
use noti.Requests.Accept.{normalize_scheduled_at}
use noti.Requests.Channel.{IsReady, resolve_channel-IsReady}
use noti.Requests.Create.{
  EventRule, CreateMessageRequestDto, RequestDb, find_rule, enabled_rule,
  resolve_required_variables, created_row, reserve_for, store_created, create_by_rule, create,
}

enabled_inv :
    (o : Option EventRule) (r : EventRule)
    → enabled_rule o ≡ ok r
    → (o ≡ some r) × (r.enabled ≡ true)
enabled_inv none r e = cc
enabled_inv (some q) r e = elim (Bool-cases q.enabled) [
  | inl f ↦ (ground (arith, e, f), ground (arith, e, f))
  | inr f ↦ absurd (ground (arith, e, f))
]

find_rule_inv :
    (owner key : Text) (rules : List EventRule) (r : EventRule)
    → find_rule owner key rules ≡ some r
    → (r.owner_user_id ≡ owner) × (r.event_key ≡ key)
unfolding find_rule
find_rule_inv owner key rules r e =
    let both =
      find?-passes (λ q. text_eq q.owner_user_id owner && text_eq q.event_key key) rules r e in
    (
      eq_of_text_eq r.owner_user_id owner (ground (arith, both)),
      eq_of_text_eq r.event_key key (ground (arith, both)),
    )

module _ (kst_parts : ℕ → ℕ × ℕ) (utc : ℕ → ℕ → ℕ) (parse_date : Text → Option ℕ)
    (text_of : Json → Text) (inherited : Text → Option Value) (now : ℕ) where
  -- What stands behind a request that was created: the owner's enabled rule for the event, its
  -- variables, what it resolves to, the row, and the ledger's part.
  pub record IsByRule (dto : CreateMessageRequestDto) (rules : List EventRule)
      (snapshot : Outcome Conflict (List Text)) (upserted : Outcome Conflict AlimtalkTemplate)
      (key new_id : Text) (s s' : RequestDb) (r : Row) : Type 0 where
    pub rule : EventRule
    pub required : List Text
    pub resolution : ResolutionResult
    pub at : Option ℕ
    pub found : find_rule dto.owner_user_id dto.event_key rules ≡ some rule
    pub schedule : normalize_scheduled_at parse_date text_of inherited now dto.scheduled_at ≡ ok at
    pub of_owner : rule.owner_user_id ≡ dto.owner_user_id
    pub of_event : rule.event_key ≡ dto.event_key
    pub enabled : rule.enabled ≡ true
    pub asked : resolve_required_variables rule snapshot ≡ ok required
    pub none_missing : missing_required_variables inherited required dto.variables ≡ []
    pub ready : IsReady rule.bindings upserted resolution
    pub row : r ≡ created_row dto rule key new_id at resolution
    pub requests : s'.requests ≡ enqueue r.id (add_row r s.requests)
    pub reserved :
        reserve_for kst_parts utc parse_date text_of inherited now resolution dto.owner_user_id at
          r.id s.ledger
        ≡ ok s'.ledger

  store_created_inv :
      (r : Row) (resolution : ResolutionResult) (s s' : RequestDb)
      → store_created kst_parts utc parse_date text_of inherited now r resolution s ≡ ok s'
      → (s'.requests ≡ enqueue r.id (add_row r s.requests))
        × (reserve_for kst_parts utc parse_date text_of inherited now resolution r.owner_user_id
              r.scheduled_at r.id s.ledger
            ≡ ok s'.ledger)
  unfolding store_created
  store_created_inv r resolution s s' e =
      elim (Outcome-cases (
        reserve_for kst_parts utc parse_date text_of inherited now resolution r.owner_user_id
          r.scheduled_at r.id s.ledger)) [
            | inr (x, f) ↦ absurd (ground (arith, e, f))
            | inl (ledger, f) ↦ (ground (arith, e, f), ground (arith, e, f))
          ]

  create_by_rule-IsByRule :
      (dto : CreateMessageRequestDto) (rules : List EventRule)
      (snapshot : Outcome Conflict (List Text)) (upserted : Outcome Conflict AlimtalkTemplate)
      (key new_id : Text) (at : Option ℕ) (s s' : RequestDb) (r : Row) (again : Bool)
      → normalize_scheduled_at parse_date text_of inherited now dto.scheduled_at ≡ ok at
      → create_by_rule kst_parts utc parse_date text_of inherited now dto rules snapshot upserted
          key new_id at s
        ≡ ok (s', r, again)
      → IsByRule dto rules snapshot upserted key new_id s s' r
  unfolding create_by_rule
  create_by_rule-IsByRule dto rules snapshot upserted key new_id at s s' r again on_time e =
      elim (Outcome-cases (enabled_rule (find_rule dto.owner_user_id dto.event_key rules))) [
        | inr (x, f) ↦ absurd (ground (arith, e, f))
        | inl (rule, f) ↦ elim (Outcome-cases (resolve_required_variables rule snapshot)) [
          | inr (x, g) ↦ absurd (ground (arith, e, f, g))
          | inl (required, g) ↦
              elim (Bool-cases
                (is_empty (missing_required_variables inherited required dto.variables))) [
                  | inr h ↦ absurd (ground (arith, e, f, g, h))
                  | inl h ↦
                      elim (Outcome-cases
                        (resolve_channel rule.channel_strategy rule.bindings upserted)) [
                          | inr (x, k) ↦ absurd (ground (arith, e, f, g, h, k))
                          | inl (resolution, k) ↦
                              let made = created_row dto rule key new_id at resolution in
                              elim (Outcome-cases (
                                store_created kst_parts utc parse_date text_of inherited now made
                                  resolution s)) [
                                    | inr (x, m) ↦ absurd (ground (arith, e, f, g, h, k, m))
                                    | inl (s2, m) ↦
                                        let (found, enabled) =
                                          enabled_inv
                                            (find_rule dto.owner_user_id dto.event_key rules) rule
                                            f in
                                        let (of_owner, of_event) =
                                          find_rule_inv dto.owner_user_id dto.event_key rules rule
                                            found in
                                        let same : made ≡ r = ground (arith, e, f, g, h, k, m) in
                                        let state : s2 ≡ s' = ground (arith, e, f, g, h, k, m) in
                                        let (requests, reserved) =
                                          store_created_inv made resolution s s'
                                            (m ∙ ap ok state) in
                                        subst (IsByRule dto rules snapshot upserted key new_id s s')
                                          same
                                          (record {
                                            rule = rule;
                                            required = required;
                                            resolution = resolution;
                                            at = at;
                                            found = found;
                                            schedule = on_time;
                                            of_owner = of_owner;
                                            of_event = of_event;
                                            enabled = enabled;
                                            asked = g;
                                            none_missing = ground (arith, h);
                                            ready =
                                                resolve_channel-IsReady rule.channel_strategy
                                                  rule.bindings upserted resolution k;
                                            row = refl;
                                            requests = requests;
                                            reserved =
                                                subst
                                                  (λ o.
                                                    reserve_for kst_parts utc parse_date text_of
                                                      inherited now resolution o at new_id s.ledger
                                                    ≡ ok s'.ledger)
                                                  of_owner reserved;
                                          })
                                  ]
                        ]
                ]
        ]
      ]

  reserve_for-within :
      (resolution : ResolutionResult) (owner : Text) (at : Option ℕ) (id : Text) (db db' : Db)
      (other : Text) (window : ℕ × ℕ) (user : Text) (limit : ℕ)
      → ensure_user db other ≡ ok (user, limit)
      → used_in other window db.ledger ≤ limit
      → ((t : ℕ) → window.0 ≤ t → t < window.1 → get_kst_month_window kst_parts utc t ≡ window)
      → reserve_for kst_parts utc parse_date text_of inherited now resolution owner at id db
        ≡ ok db'
      → (used_in other window db'.ledger ≤ limit) × (ensure_user db' other ≡ ok (user, limit))
  unfolding reserve_for
  reserve_for-within (alimtalk p t q) owner at id db db' other window user limit known within month
        e =
      let same : db ≡ db' = ground (arith, e) in
      subst
        (λ d. (used_in other window d.ledger ≤ limit) × (ensure_user d other ≡ ok (user, limit)))
        same (within, known)
  reserve_for-within (sms n t) owner at id db db' other window user limit known within month e =
      let time = elim at as (λ x. ℕ) [ none ↦ now | some t ↦ t ] in
      reserve_manual-within kst_parts utc db db' owner other (some n) time (id ∷ []) window user
        limit known within (month time) e

  held :
      (dto : CreateMessageRequestDto) (rules : List EventRule)
      (snapshot : Outcome Conflict (List Text)) (upserted : Outcome Conflict AlimtalkTemplate)
      (key new_id : Text) (s s' : RequestDb) (r : Row)
      → IsByRule dto rules snapshot upserted key new_id s s' r
      → find_by_key dto.owner_user_id key s'.requests ≡ some r
  unfolding created_row find_by_key has_key add_row enqueue
  held dto rules snapshot upserted key new_id s s' r p =
      let owner : r.owner_user_id ≡ dto.owner_user_id =
        ap (λ x. x.owner_user_id) p.row ∙ p.of_owner in
      let by_key : r.idempotency_key ≡ key = ap (λ x. x.idempotency_key) p.row in
      ground (arith, p.requests, owner, by_key, text_eq_refl dto.owner_user_id, text_eq_refl key)

  create-IsCreated :
      (dto : CreateMessageRequestDto) (rules : List EventRule)
      (snapshot : Outcome Conflict (List Text)) (upserted : Outcome Conflict AlimtalkTemplate)
      (key new_id : Text) (s s' : RequestDb) (r : Row) (again : Bool)
      → create kst_parts utc parse_date text_of inherited now dto rules snapshot upserted key new_id
          s
        ≡ ok (s', r, again)
      → ((again ≡ true) × (s' ≡ s) × (find_by_key dto.owner_user_id key s.requests ≡ some r))
        ⊎ ((find_by_key dto.owner_user_id key s.requests ≡ none)
            × IsByRule dto rules snapshot upserted key new_id s s' r)
  unfolding create
  create-IsCreated dto rules snapshot upserted key new_id s s' r again e =
      elim (Outcome-cases
        (normalize_scheduled_at parse_date text_of inherited now dto.scheduled_at)) [
          | inr (x, f) ↦ absurd (ground (arith, e, f))
          | inl (at, f) ↦ elim (Option-cases (find_by_key dto.owner_user_id key s.requests)) [
            | inr (q, g) ↦
                inl (ground (arith, e, f, g), ground (arith, e, f, g), ground (arith, e, f, g))
            | inl g ↦ inr (
              g,
              create_by_rule-IsByRule dto rules snapshot upserted key new_id at s s' r again f
                  (ground (arith, e, f, g)),
            )
          ]
        ]

  -- A second request with the same key and a time that is still accepted gives the first one's row,
  -- and changes neither the requests nor the ledger.
  pub create-again :
      (dto : CreateMessageRequestDto) (rules : List EventRule)
      (snapshot : Outcome Conflict (List Text)) (upserted : Outcome Conflict AlimtalkTemplate)
      (key new_id other : Text) (s s' : RequestDb) (r : Row) (again : Bool)
      → create kst_parts utc parse_date text_of inherited now dto rules snapshot upserted key new_id
          s
        ≡ ok (s', r, again)
      → create kst_parts utc parse_date text_of inherited now dto rules snapshot upserted key other
          s'
        ≡ ok (s', r, true)
  unfolding create
  create-again dto rules snapshot upserted key new_id other s s' r again e =
      let there : find_by_key dto.owner_user_id key s'.requests ≡ some r =
        elim (create-IsCreated dto rules snapshot upserted key new_id s s' r again e) [
          | inl (x, same, found) ↦ ground (arith, same, found)
          | inr (absent, p) ↦ held dto rules snapshot upserted key new_id s s' r p
        ] in
      elim (Outcome-cases
        (normalize_scheduled_at parse_date text_of inherited now dto.scheduled_at)) [
          | inr (x, f) ↦ absurd (ground (arith, e, f))
          | inl (at, f) ↦ ground (arith, f, there)
        ]

  -- A request keeps every owner's SMS usage of a month within the owner's limit, if a time in the month
  -- has that month as its window; and it keeps the limits.
  pub create-within :
      (dto : CreateMessageRequestDto) (rules : List EventRule)
      (snapshot : Outcome Conflict (List Text)) (upserted : Outcome Conflict AlimtalkTemplate)
      (key new_id : Text) (s s' : RequestDb) (r : Row) (again : Bool) (other : Text)
      (window : ℕ × ℕ) (user : Text) (limit : ℕ)
      → ensure_user s.ledger other ≡ ok (user, limit)
      → used_in other window s.ledger.ledger ≤ limit
      → ((t : ℕ) → window.0 ≤ t → t < window.1 → get_kst_month_window kst_parts utc t ≡ window)
      → create kst_parts utc parse_date text_of inherited now dto rules snapshot upserted key new_id
          s
        ≡ ok (s', r, again)
      → (used_in other window s'.ledger.ledger ≤ limit)
        × (ensure_user s'.ledger other ≡ ok (user, limit))
  create-within dto rules snapshot upserted key new_id s s' r again other window user limit known
        within month e =
      elim (create-IsCreated dto rules snapshot upserted key new_id s s' r again e) [
        | inl (x, same, found) ↦ (ground (arith, same, within), ground (arith, same, known))
        | inr (absent, p) ↦
            reserve_for-within p.resolution dto.owner_user_id p.at r.id s.ledger s'.ledger other
              window user limit known within month p.reserved
      ]
