-- ===== src/Quota/Limit.antt =====
-- The monthly limit holds after every reservation, of messages one by one or of a campaign at once.
use noti.Common.{
  ℕ, ◌+◌, ◌≡◌, ◌≤◌, ◌<◌, ◌⊎◌, ◌∙◌, sym, refl, Bool, true, ◌&&◌, List, [], ◌∷◌, Option, arith,
  if◌then◌else◌, leb, ltb, length, ok, err, Bool-cases, Outcome-cases, inl, inr,
}
use noti.Text.{Text, text_eq, eq_of_text_eq, text_eq_refl}
use noti.Quota.{
  Usage, bulk_sms_campaign, message_request, limit_exceeded, Db, ensure_user, is_in_window, used_in,
  reserve_usage, reserve_each, Entry, get_kst_month_window, assert_can_reserve_usage,
  reserve_manual, reserve_campaign,
}

-- whether usage of the owner at the time counts for another owner's window
abbrev counts_for : Text → Text → ℕ × ℕ → ℕ → Bool
counts_for owner other (start, end) t = text_eq owner other && leb start t && ltb t end

used_in-reserve_usage :
    (other : Text) (window : ℕ × ℕ) (e : Entry) (db : Db)
    → used_in other window (reserve_usage e db).ledger ≡ (
        if counts_for e.owner_user_id other window e.usage_at
        then e.quantity + used_in other window db.ledger
        else used_in other window db.ledger)
unfolding reserve_usage used_in is_in_window
used_in-reserve_usage other window e db = refl

ensure_user-reserve_usage :
    (other : Text) (e : Entry) (db : Db)
    → ensure_user (reserve_usage e db) other ≡ ensure_user db other
unfolding reserve_usage ensure_user
ensure_user-reserve_usage other e db = refl

abbrev entry_of : Text → Option Text → ℕ → Text → Entry
entry_of owner sender t id = record {
  owner_user_id = owner;
  sender_number_id = sender;
  quantity = 1;
  usage_at = t;
  subject = message_request id;
}

used_in-reserve_each :
    (owner other : Text) (window : ℕ × ℕ) (sender : Option Text) (t : ℕ) (ids : List Text) (db : Db)
    → used_in other window (reserve_each owner sender t ids db).ledger ≡ (
        if counts_for owner other window t
        then length ids + used_in other window db.ledger
        else used_in other window db.ledger)
unfolding reserve_each
used_in-reserve_each owner other window sender t [] db = ground arith
used_in-reserve_each owner other window sender t (id ∷ ids) db = ground (
  arith,
  used_in-reserve_usage other window (entry_of owner sender t id) db,
  used_in-reserve_each owner other window sender t ids
      (reserve_usage (entry_of owner sender t id) db),
)

ensure_user-reserve_each :
    (owner other : Text) (sender : Option Text) (t : ℕ) (ids : List Text) (db : Db)
    → ensure_user (reserve_each owner sender t ids db) other ≡ ensure_user db other
unfolding reserve_each
ensure_user-reserve_each owner other sender t [] db = refl
ensure_user-reserve_each owner other sender t (id ∷ ids) db =
    let e = entry_of owner sender t id in
    ensure_user-reserve_each owner other sender t ids (reserve_usage e db)
    ∙ ensure_user-reserve_usage other e db

module _ (kst_parts : ℕ → ℕ × ℕ) (utc : ℕ → ℕ → ℕ) where
  -- A check that passed leaves room in the month of the usage.
  assert_leaves_room :
      (db : Db) (owner : Text) (quantity t limit : ℕ) (user : Text) (usage : Usage)
      → ensure_user db owner ≡ ok (user, limit)
      → assert_can_reserve_usage kst_parts utc db owner quantity t ≡ ok usage
      → used_in owner (get_kst_month_window kst_parts utc t) db.ledger + quantity ≤ limit
  unfolding assert_can_reserve_usage
  assert_leaves_room db owner quantity t limit user usage e h = ground (arith, e, h)

  -- If the usage counts for the owner's window, it is what was checked, and so there is room.
  counted_has_room :
      (db : Db) (owner other : Text) (quantity t : ℕ) (window : ℕ × ℕ) (user : Text) (limit : ℕ)
      (usage : Usage)
      → ensure_user db other ≡ ok (user, limit)
      → (window.0 ≤ t → t < window.1 → get_kst_month_window kst_parts utc t ≡ window)
      → assert_can_reserve_usage kst_parts utc db owner quantity t ≡ ok usage
      → counts_for owner other window t ≡ true
      → used_in other window db.ledger + quantity ≤ limit
  counted_has_room db owner other quantity t window user limit usage e month run c =
      let same : owner ≡ other = eq_of_text_eq owner other (ground (arith, c)) in
      let w : get_kst_month_window kst_parts utc t ≡ window =
        month (ground (arith, c)) (ground (arith, c)) in
      let e' : ensure_user db owner ≡ ok (user, limit) = rw same e in
      ground (arith, same, w, assert_leaves_room db owner quantity t limit user usage e' run)

  -- A transaction of manual messages keeps every owner's usage of a month within the owner's limit,
  -- if a time in the month has that month as its window; and it keeps the limits.
  pub reserve_manual-within :
      (db db' : Db) (owner other : Text) (sender : Option Text) (t : ℕ) (ids : List Text)
      (window : ℕ × ℕ) (user : Text) (limit : ℕ)
      → ensure_user db other ≡ ok (user, limit)
      → used_in other window db.ledger ≤ limit
      → (window.0 ≤ t → t < window.1 → get_kst_month_window kst_parts utc t ≡ window)
      → reserve_manual kst_parts utc db owner sender t ids ≡ ok db'
      → (used_in other window db'.ledger ≤ limit) × (ensure_user db' other ≡ ok (user, limit))
  unfolding reserve_manual
  reserve_manual-within db db' owner other sender t ids window user limit e h month run =
      elim (Outcome-cases (assert_can_reserve_usage kst_parts utc db owner (length ids) t)) [
        | inr (x, f) ↦ absurd (ground (arith, f, run))
        | inl (usage, f) ↦
            let is : reserve_each owner sender t ids db ≡ db' = ground (arith, f, run) in
            let room =
              counted_has_room db owner other (length ids) t window user limit usage e month f in
            rw (sym is) (
              ground (arith, used_in-reserve_each owner other window sender t ids db, room, h),
              ensure_user-reserve_each owner other sender t ids db ∙ e,
            )
      ]

  -- So does the transaction of a bulk campaign, which reserves for all its recipients at once: every
  -- owner's usage of a month stays within the owner's limit, if a time in the month has that month as
  -- its window, and the limits stay.
  pub reserve_campaign-within :
      (db db' : Db) (owner other : Text) (sender : Option Text) (t count : ℕ) (campaign : Text)
      (window : ℕ × ℕ) (user : Text) (limit : ℕ)
      → ensure_user db other ≡ ok (user, limit)
      → used_in other window db.ledger ≤ limit
      → (window.0 ≤ t → t < window.1 → get_kst_month_window kst_parts utc t ≡ window)
      → reserve_campaign kst_parts utc db owner sender t count campaign ≡ ok db'
      → (used_in other window db'.ledger ≤ limit) × (ensure_user db' other ≡ ok (user, limit))
  unfolding reserve_campaign
  reserve_campaign-within db db' owner other sender t count campaign window user limit e h month
        run =
      elim (Outcome-cases (assert_can_reserve_usage kst_parts utc db owner count t)) [
        | inr (x, f) ↦ absurd (ground (arith, f, run))
        | inl (usage, f) ↦
            let entry : Entry = record {
              owner_user_id = owner;
              sender_number_id = sender;
              quantity = count;
              usage_at = t;
              subject = bulk_sms_campaign campaign;
            } in
            let is : reserve_usage entry db ≡ db' = ground (arith, f, run) in
            let room = counted_has_room db owner other count t window user limit usage e month f in
            rw (sym is) (
              ground (arith, used_in-reserve_usage other window entry db, room, h),
              ensure_user-reserve_usage other entry db ∙ e,
            )
      ]

  -- The messages of one transaction are all reserved or none: for a user that is there it fails
  -- exactly when the messages do not fit in what is left of the month, and otherwise they fit and the
  -- owner's usage grows by their number, if the time is in its window.
  pub reserve_manual_all :
      (db : Db) (owner : Text) (sender : Option Text) (t : ℕ) (ids : List Text) (user : Text)
      (limit : ℕ)
      → ensure_user db owner ≡ ok (user, limit)
      → (get_kst_month_window kst_parts utc t).0 ≤ t
      → t < (get_kst_month_window kst_parts utc t).1
      → (limit < used_in owner (get_kst_month_window kst_parts utc t) db.ledger + length ids
          × (reserve_manual kst_parts utc db owner sender t ids
              ≡ err (
                  limit_exceeded
                    (used_in owner (get_kst_month_window kst_parts utc t) db.ledger)
                    limit)))
        ⊎ ((db' : Db) × (reserve_manual kst_parts utc db owner sender t ids ≡ ok db')
            × (used_in owner (get_kst_month_window kst_parts utc t) db'.ledger
                ≡ used_in owner (get_kst_month_window kst_parts utc t) db.ledger + length ids)
            × (used_in owner (get_kst_month_window kst_parts utc t) db.ledger + length ids ≤ limit))
  unfolding reserve_manual assert_can_reserve_usage
  reserve_manual_all db owner sender t ids user limit e from to =
      let window = get_kst_month_window kst_parts utc t in
      elim (Bool-cases (leb (used_in owner window db.ledger + length ids) limit)) [
        | inl f ↦ inr (
          reserve_each owner sender t ids db,
          ground (arith, e, f),
          ground (
            arith,
            used_in-reserve_each owner owner window sender t ids db,
            text_eq_refl owner,
            from,
            to,
          ),
          ground (arith, f),
        )
        | inr f ↦ inl (ground (arith, f), ground (arith, e, f))
      ]
