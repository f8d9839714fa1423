-- ===== src/Requests/Once.antt =====
-- What callers see of an accepted event request: a table of requests by owner and idempotency key,
-- in which a key is written once.
use noti.Common.{
  ℕ, ◌≡◌, ◌⊎◌, inl, inr, refl, sym, Bool, true, false, ◌&&◌, List, ◌∷◌, Option, none, some,
  if◌then◌else◌, arith, ok, Option-cases, Outcome-cases, Bool-cases, is_empty,
}
use noti.Text.{Text, text_eq, text_eq_refl}
use noti.Json.{Json}
use noti.Template.{Value}
use noti.Worker.{MessageRequestStatus}
use noti.Requests.{AlimtalkSenderProfile}
use noti.Requests.Rows.{Row, Requests, has_key, find_by_key}
use noti.Requests.Accept.{
  PublTemplate, Found, Input, Failure, choose_template, failure_of, row_of, store_row,
  normalize_scheduled_at, missing_of, create_new, create_accepted_publ_event_request,
  resolve_publ_alimtalk_sender_profile, preferred_profile, status_for,
}

-- The table, and the write of a key.
abbrev pub Table : Type 0
Table = Text → Text → Option Row

abbrev pub table_of : Requests → Table
table_of s owner key = find_by_key owner key s

abbrev pub put : Text → Text → Row → Table → Table
put owner key r table o k = if text_eq owner o && text_eq key k then some r else table o k

find_by_key-store_row :
    (r : Row) (failure : Option Failure) (s : Requests) (o k : Text)
    → table_of (store_row r failure s) o k
      ≡ put r.owner_user_id r.idempotency_key r (table_of s) o k
unfolding store_row find_by_key has_key
find_by_key-store_row r none s o k = refl
find_by_key-store_row r (some f) s o k = refl

queued-store_row :
    (r : Row) (failure : Option Failure) (s : Requests)
    → (store_row r failure s).queued
      ≡ (elim failure as (λ _. List Text) [ none ↦ r.id ∷ s.queued | some f ↦ s.queued ])
unfolding store_row
queued-store_row r none s = refl
queued-store_row r (some f) s = refl

-- What a created request is: a row of the input under its key, stored and queued without a failure.
pub record IsCreated (input : Input) (key new_id : Text) (s s' : Requests) (r : Row) : Type 0 where
  pub failure : Option Failure
  pub stored : s' ≡ store_row r failure s
  pub owner : r.owner_user_id ≡ input.owner_user_id
  pub by_key : r.idempotency_key ≡ key
  pub by_id : r.id ≡ new_id
  pub by_status : r.status ≡ status_for failure
  pub retry_of : r.retry_of_request_id ≡ input.retry_of_request_id

row_of-IsCreated :
    (input : Input) (key new_id : Text) (at : Option ℕ) (t : Option PublTemplate)
    (p : Option AlimtalkSenderProfile) (failure : Option Failure) (s : Requests)
    → IsCreated input key new_id s
        (store_row (row_of input key new_id at t p failure) failure s)
        (row_of input key new_id at t p failure)
unfolding row_of
row_of-IsCreated input key new_id at t p failure s = record {
  failure = failure;
  stored = refl;
  owner = refl;
  by_key = refl;
  by_id = refl;
  by_status = refl;
  retry_of = refl;
}

module _ (parse_date : Text → Option ℕ) (text_of : Json → Text) (inherited : Text → Option Value)
    (now : ℕ) where
  pub create_new-IsCreated :
      (input : Input) (f : Found) (key new_id : Text) (at : Option ℕ) (s s' : Requests) (r : Row)
      (again : Bool)
      → create_new parse_date text_of inherited now input f key new_id at s ≡ ok (s', r, again)
      → IsCreated input key new_id s s' r × (again ≡ false)
  unfolding create_new
  create_new-IsCreated input f key new_id at s s' r again h =
      elim (Outcome-cases (choose_template f)) [
        | inr (x, e) ↦ absurd (ground (arith, e, h))
        | inl ((t, failed), e) ↦
            let p =
              resolve_publ_alimtalk_sender_profile (preferred_profile f.rule)
                f.first_active_profile in
            let failure = failure_of failed t p in
            let row = row_of input key new_id at t p failure in
            elim (Bool-cases
              (is_empty (missing_of parse_date text_of inherited now t input.variables))) [
                | inr g ↦ absurd (ground (arith, e, g, h))
                | inl g ↦
                    let state : store_row row failure s ≡ s' = ground (arith, e, g, h) in
                    let same : row ≡ r = ground (arith, e, g, h) in
                    let new : false ≡ again = ground (arith, e, g, h) in
                    rw (sym state, sym same, sym new)
                      (row_of-IsCreated input key new_id at t p failure s, refl)
              ]
      ]

  -- A result is an existing request with the state unchanged, or a created one.
  pub IsCreated-or_found :
      (input : Input) (f : Found) (key new_id : Text) (s s' : Requests) (r : Row) (again : Bool)
      → create_accepted_publ_event_request parse_date text_of inherited now input f key new_id s
        ≡ ok (s', r, again)
      → ((again ≡ true) × (s' ≡ s) × (table_of s input.owner_user_id key ≡ some r))
        ⊎ ((again ≡ false)
            × (table_of s input.owner_user_id key ≡ none)
            × IsCreated input key new_id s s' r)
  unfolding create_accepted_publ_event_request
  IsCreated-or_found input f key new_id s s' r again h =
      elim (Outcome-cases
        (normalize_scheduled_at parse_date text_of inherited now input.scheduled_at)) [
          | inr (x, e) ↦ absurd (ground (arith, e, h))
          | inl (at, e) ↦ elim (Option-cases (find_by_key input.owner_user_id key s)) [
            | inr (q, g) ↦ inl (ground (arith, e, g, h))
            | inl g ↦
                let run : create_new parse_date text_of inherited now input f key new_id at s
                    ≡ ok (s', r, again) =
                  ground (arith, e, g, h) in
                let (created, new) = create_new-IsCreated input f key new_id at s s' r again run in
                inr (new, g, created)
          ]
        ]

  -- A request for an event implements a write-once table. Its result is what the table holds at the key
  -- afterwards. A key that was there keeps its request, and nothing is stored or queued. Else the
  -- table changes at this key only, to the new request, which is queued exactly if it was stored as
  -- ACCEPTED and not as SEND_FAILED.
  pub create_accepted_publ_event_request-refines :
      (input : Input) (f : Found) (key new_id : Text) (s s' : Requests) (r : Row) (again : Bool)
      (o k : Text)
      → create_accepted_publ_event_request parse_date text_of inherited now input f key new_id s
        ≡ ok (s', r, again)
      → (table_of s' input.owner_user_id key ≡ some r)
        × (((again ≡ true) × (s' ≡ s))
            ⊎ ((again ≡ false)
                × (table_of s input.owner_user_id key ≡ none)
                × (table_of s' o k ≡ put input.owner_user_id key r (table_of s) o k)
                × (((r.status ≡ MessageRequestStatus.accepted) × (s'.queued ≡ r.id ∷ s.queued))
                    ⊎ ((r.status ≡ MessageRequestStatus.send_failed) × (s'.queued ≡ s.queued)))))
  create_accepted_publ_event_request-refines input f key new_id s s' r again o k h =
      elim (IsCreated-or_found input f key new_id s s' r again h) [
        | inl (new, same, there) ↦ (ground (arith, same, there), inl (new, same))
        | inr (new, absent, c) ↦
            let wrote : (x y : Text)
                → table_of s' x y ≡ put input.owner_user_id key r (table_of s) x y =
              λ x y.
                ground
                  (arith, c.stored, c.owner, c.by_key, find_by_key-store_row r c.failure s x y) in
            (
              ground (
                arith,
                wrote input.owner_user_id key,
                text_eq_refl input.owner_user_id,
                text_eq_refl key,
              ),
              inr (
                new,
                absent,
                wrote o k,
                ground (arith, c.stored, c.by_status, queued-store_row r c.failure s),
              ),
            )
      ]

  -- A request under a key that a request of the same owner was created or found with is that request,
  -- whatever it asks for and whatever the other tables then hold, and it changes nothing, if its schedule is
  -- accepted.
  pub create_accepted_publ_event_request-once :
      (input input' : Input) (f f' : Found) (key new_id new_id' : Text) (s s' : Requests) (r : Row)
      (again : Bool) (at : Option ℕ)
      → create_accepted_publ_event_request parse_date text_of inherited now input f key new_id s
        ≡ ok (s', r, again)
      → input'.owner_user_id ≡ input.owner_user_id
      → normalize_scheduled_at parse_date text_of inherited now input'.scheduled_at ≡ ok at
      → create_accepted_publ_event_request parse_date text_of inherited now input' f' key new_id' s'
        ≡ ok (s', r, true)
  unfolding create_accepted_publ_event_request
  create_accepted_publ_event_request-once input input' f f' key new_id new_id' s s' r again at h
        same e =
      let (there, _) =
        create_accepted_publ_event_request-refines input f key new_id s s' r again
          input.owner_user_id key h in
      ground (arith, same, e, there)
