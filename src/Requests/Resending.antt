-- ===== src/Requests/Resending.antt =====
-- Resending, over the life of the requests: of the retries of a request at most one has not failed.
use noti.Common.{
  find?-passes, ℕ, ◌≤◌, ◌≡◌, ◌⊎◌, inl, inr, refl, sym, Bool, true, false, ◌&&◌, [], ◌∷◌, Option,
  none, some, arith, ok, Option-cases, Outcome-cases, Bool-cases, map,
}
use noti.Text.{Text, text_eq, text_eq_iff}
use noti.Json.{Json}
use noti.Template.{Value}
use noti.Worker.{MessageRequestStatus}
use noti.Requests.Rows.{Row, Requests, find_by_id, add_row, enqueue}
use noti.Requests.Accept.{Found, Input, Failure, store_row, create_accepted_publ_event_request}
use noti.Requests.Once.{IsCreated, IsCreated-or_found}
use noti.Requests.Retry.{
  root_of, latest_retry, retry_input, retry_copy, may_retry, create_retry, retry_for_user,
}
use noti.Requests.Retries.{
  live_retries, OnlyNewest, live_retries-le, none_live, progress, OnlyNewest-progress,
  OnlyNewest-add,
}

rows-store_row :
    (r : Row) (failure : Option Failure) (s : Requests) → (store_row r failure s).rows ≡ r ∷ s.rows
unfolding store_row
rows-store_row r none s = refl
rows-store_row r (some f) s = refl

found_id : (owner id : Text) (s : Requests) (r : Row) → find_by_id owner id s ≡ some r → r.id ≡ id
unfolding find_by_id
found_id owner id s r h =
    let passed = find?-passes (λ q. text_eq q.id id && text_eq q.owner_user_id owner) s.rows r h in
    (text_eq_iff r.id id).0 (ground (arith, passed))

module _ (parse_date : Text → Option ℕ) (text_of : Json → Text) (inherited : Text → Option Value)
    (now : ℕ) where
  -- What changes the requests: a new request of an event or by hand, a retry, and the news of a message.
  pub data Step (s s' : Requests) : Type 0 where
    accepted :
        (input : Input) (f : Found) (key new_id : Text) (r : Row) (again : Bool)
        → input.retry_of_request_id ≡ none
        → create_accepted_publ_event_request parse_date text_of inherited now input f key new_id s
          ≡ ok (s', r, again)
        → Step s s'
    entered : (r : Row) → r.retry_of_request_id ≡ none → s' ≡ enqueue r.id (add_row r s) → Step s s'
    retried :
        (definition : Option Bool) (f : Found) (owner request_id key requested_at new_id : Text)
        (r : Row)
        → retry_for_user parse_date text_of inherited now definition f owner request_id key
            requested_at new_id s
          ≡ ok (s', r)
        → Step s s'
    progressed :
        (id : Text) (status : MessageRequestStatus)
        → s'.rows ≡ map (progress id status) s.rows
        → Step s s'

  pub data Reach (s : Requests) : Requests → Type 0 where
    here : Reach s s
    next : {t u : Requests} → Reach s t → Step t u → Reach s u

  IsCreated-OnlyNewest :
      (root : Text) (input : Input) (key new_id : Text) (s s' : Requests) (r : Row)
      → ((input.retry_of_request_id ≡ none)
          ⊎ ((other : Text) × (input.retry_of_request_id ≡ some other)
              × (live_retries other s.rows ≡ 0)))
      → IsCreated input key new_id s s' r
      → OnlyNewest root s.rows
      → OnlyNewest root s'.rows
  IsCreated-OnlyNewest root input key new_id s s' r reason c h =
      let added = OnlyNewest-add root r s.rows (ground (arith, reason, c.retry_of)) h in
      rw (c.stored, rows-store_row r c.failure s) added

  accepted-OnlyNewest :
      (root : Text) (input : Input) (f : Found) (key new_id : Text) (s s' : Requests) (r : Row)
      (again : Bool)
      → ((input.retry_of_request_id ≡ none)
          ⊎ ((other : Text) × (input.retry_of_request_id ≡ some other)
              × (live_retries other s.rows ≡ 0)))
      → create_accepted_publ_event_request parse_date text_of inherited now input f key new_id s
        ≡ ok (s', r, again)
      → OnlyNewest root s.rows
      → OnlyNewest root s'.rows
  accepted-OnlyNewest root input f key new_id s s' r again reason e h =
      elim (IsCreated-or_found parse_date text_of inherited now input f key new_id s s' r again e) [
        | inl (new, same, there) ↦ rw same h
        | inr (new, absent, c) ↦ IsCreated-OnlyNewest root input key new_id s s' r reason c h
      ]

  -- A retry that was created is one of a request none of whose retries is live.
  create_retry-OnlyNewest :
      (root : Text) (definition : Option Bool) (f : Found) (owner : Text) (q : Row)
      (other key requested_at new_id : Text) (s s' : Requests) (r : Row)
      → live_retries other s.rows ≡ 0
      → create_retry parse_date text_of inherited now definition f owner q other key requested_at
          new_id s
        ≡ ok (s', r)
      → OnlyNewest root s.rows
      → OnlyNewest root s'.rows
  unfolding create_retry add_row enqueue retry_copy
  create_retry-OnlyNewest root none f owner q other key requested_at new_id s s' r z e h =
      let copy = retry_copy owner q other requested_at key new_id in
      let added = OnlyNewest-add root copy s.rows (inr (other, refl, z)) h in
      let is : copy ∷ s.rows ≡ s'.rows = ground (arith, e) in rw (sym is) added
  create_retry-OnlyNewest root (some false) f owner q other key requested_at new_id s s' r z e h =
      absurd (ground (arith, e))
  create_retry-OnlyNewest root (some true) f owner q other key requested_at new_id s s' r z e h =
      let input = retry_input owner q other requested_at in
      elim (Outcome-cases (
        create_accepted_publ_event_request parse_date text_of inherited now input f key new_id s)) [
          | inr (x, g) ↦ absurd (ground (arith, e, g))
          | inl ((t, created, again), g) ↦
              let is : t ≡ s' = ground (arith, e, g) in
              rw (sym is) (
                accepted-OnlyNewest root input f key new_id s t created again (inr (other, refl, z))
                  g h)
        ]

  -- What a retry that was created has checked.
  retry_for_user-checked :
      (definition : Option Bool) (f : Found) (owner request_id key requested_at new_id : Text)
      (s s' : Requests) (r : Row)
      → retry_for_user parse_date text_of inherited now definition f owner request_id key
          requested_at new_id s
        ≡ ok (s', r)
      → (q : Row) × (may_retry (latest_retry (root_of q) s) ≡ true)
        × (create_retry parse_date text_of inherited now definition f owner q
              (root_of q)
              key
              requested_at
              new_id
              s
            ≡ ok (s', r))
  unfolding retry_for_user
  retry_for_user-checked definition f owner request_id key requested_at new_id s s' r e =
      elim (Option-cases (find_by_id owner request_id s)) [
        | inl g ↦ absurd (ground (arith, e, g))
        | inr (q, g) ↦ elim (Bool-cases (text_eq (root_of q) q.id)) [
          | inl t ↦
              let same = text_eq_iff (root_of q) q.id in
              (q, ground (arith, e, g, t, same), ground (arith, e, g, t))
          | inr t ↦ elim (Option-cases (find_by_id owner (root_of q) s)) [
            | inl u ↦ absurd (ground (arith, e, g, t, u))
            | inr (o, u) ↦
                let same = found_id owner (root_of q) s o u in
                (q, ground (arith, e, g, t, u, same), ground (arith, e, g, t, u))
          ]
        ]
      ]

  Step-OnlyNewest :
      {s s' : Requests}
      → Step s s'
      → ((root : Text) → OnlyNewest root s.rows)
      → (root : Text) → OnlyNewest root s'.rows
  unfolding add_row enqueue latest_retry
  Step-OnlyNewest {s} {s'} (accepted input f key new_id r again none_of e) h root =
      accepted-OnlyNewest root input f key new_id s s' r again (inl none_of) e (h root)
  Step-OnlyNewest {s} {s'} (entered r none_of e) h root =
      rw e (OnlyNewest-add root r s.rows (inl none_of) (h root))
  Step-OnlyNewest {s} {s'} (retried definition f owner request_id key requested_at new_id r e) h
        root =
      let (q, may, made) =
        retry_for_user-checked definition f owner request_id key requested_at new_id s s' r e in
      create_retry-OnlyNewest root definition f owner q (root_of q) key requested_at new_id s s' r
        (none_live (root_of q) s.rows (h (root_of q)) may) made (h root)
  Step-OnlyNewest {s} {s'} (progressed id status e) h root =
      rw e (OnlyNewest-progress root id status s.rows (h root))

  Reach-OnlyNewest :
      {s t : Requests}
      → Reach s t
      → ((root : Text) → OnlyNewest root s.rows)
      → (root : Text) → OnlyNewest root t.rows
  Reach-OnlyNewest here h root = h root
  Reach-OnlyNewest (next reached step) h root =
      Step-OnlyNewest step (Reach-OnlyNewest reached h) root

  -- From an empty table, after any sequence of event requests, entered messages, retries and news of
  -- messages, each request has at most one retry that has not failed.
  pub live_retries-reached :
      (root : Text) (t : Requests)
      → Reach (record { rows = []; queued = [] }) t
      → live_retries root t.rows ≤ 1
  live_retries-reached root t reached =
      live_retries-le root t.rows (Reach-OnlyNewest reached (λ other. tt) root)
