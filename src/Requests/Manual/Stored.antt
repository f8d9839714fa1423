-- ===== src/Requests/Manual/Stored.antt =====
-- What a manual SMS stores, puts in the queue and takes of the month's quota.
use noti.Common.{
  is_empty, ltb, Bool-cases, ℕ, ◌+◌, ◌≡◌, ◌≤◌, ◌<◌, ◌∙◌, inl, inr, refl, sym, ap, subst, List, [],
  ◌∷◌, Option, some, map, length, arith, ok, Outcome-cases, All, Some,
}
use noti.Text.{Text, units, text_eq}
use noti.Sms080.{Application}
use noti.Senders.{SenderNumber}
use noti.Json.{Json, at_key, lookup_field}
use noti.Template.{Value}
use noti.Quota.{Db, ensure_user, used_in, get_kst_month_window, reserve_manual}
use noti.Quota.Limit.{reserve_manual_all}
use noti.Worker.{MessageChannel, MessageRequestStatus}
use noti.Requests.Rows.{Row, Requests, add_row, enqueue}
use noti.Requests.Accept.{normalize_scheduled_at}
use noti.Requests.Create.{RequestDb}
use noti.Requests.Manual.{CreateManualSmsRequestDto, ManualSms, check_manual_sms}
use noti.Requests.Manual.Rows.{
  items_of, manual_metadata, manual_row, manual_rows, add_rows, enqueue_all, usage_time,
  create_manual_sms_requests,
}
use noti.Requests.Manual.Checked.{IsChecked, check_manual_sms-IsChecked}

-- The files of a message, as its metadata has them.
abbrev pub stored_files : (ℕ → Text) → List ℕ → Json
stored_files shown [] = Json.undefined
stored_files shown (id ∷ ids) = Json.array (items_of shown (id ∷ ids))

-- a row of the list is the row
abbrev pub Has : List Row → Row → Type 0
Has rows r = Some (λ q. q ≡ r) rows

-- the id is in the queue
abbrev pub IsQueued : List Text → Row → Type 0
IsQueued queued r = Some (λ id. id ≡ r.id) queued

Some-add_rows :
    (P : Row → Type 0) (rs : List Row) (s : Requests) → Some P s.rows → Some P (add_rows rs s).rows
unfolding add_rows add_row
Some-add_rows P [] s h = h
Some-add_rows P (r ∷ rs) s h = Some-add_rows P rs (add_row r s) (inr h)

add_rows-all : (rs : List Row) (s : Requests) → All (Has (add_rows rs s).rows) rs
unfolding add_rows add_row
add_rows-all [] s = tt
add_rows-all (r ∷ rs) s =
    (Some-add_rows (λ q. q ≡ r) rs (add_row r s) (inl refl), add_rows-all rs (add_row r s))

Some-enqueue_all :
    (P : Text → Type 0) (rs : List Row) (s : Requests)
    → Some P s.queued
    → Some P (enqueue_all rs s).queued
unfolding enqueue_all enqueue
Some-enqueue_all P [] s h = h
Some-enqueue_all P (r ∷ rs) s h = Some-enqueue_all P rs (enqueue r.id s) (inr h)

enqueue_all-all : (rs : List Row) (s : Requests) → All (IsQueued (enqueue_all rs s).queued) rs
unfolding enqueue_all enqueue
enqueue_all-all [] s = tt
enqueue_all-all (r ∷ rs) s = (
  Some-enqueue_all (λ id. id ≡ r.id) rs (enqueue r.id s) (inl refl),
  enqueue_all-all rs (enqueue r.id s),
)

rows-enqueue_all : (rs : List Row) (s : Requests) → (enqueue_all rs s).rows ≡ s.rows
unfolding enqueue_all enqueue
rows-enqueue_all [] s = refl
rows-enqueue_all (r ∷ rs) s = rows-enqueue_all rs (enqueue r.id s)

-- The row is the owner's and accepted, and sends the body and the files by SMS from the sender
-- number.
pub record IsRowOf (shown : ℕ → Text) (owner : Text) (m : ManualSms) (r : Row) : Type 0 where
  pub of_owner : r.owner_user_id ≡ owner
  pub body : r.manual_body ≡ some m.body
  pub channel : r.resolved_channel ≡ some MessageChannel.sms
  pub sender : r.resolved_sender_number_id ≡ some m.sender.id
  pub at : r.scheduled_at ≡ m.scheduled_at
  pub accepted : r.status ≡ MessageRequestStatus.accepted
  pub files :
      at_key (units "smsTemplateAttachmentFileIds") r.metadata ≡ stored_files shown m.file_ids

files_at :
    (shown : ℕ → Text) (dto : CreateManualSmsRequestDto) (m : ManualSms) (batch_id : Text) (i : ℕ)
    → at_key (units "smsTemplateAttachmentFileIds") (manual_metadata shown dto m batch_id i)
      ≡ stored_files shown m.file_ids
unfolding manual_metadata at_key lookup_field text_eq
files_at shown dto m batch_id i = elim (Bool-cases (is_empty m.file_ids)) [
  | inr e ↦ ground (arith, e)
  | inl e ↦ elim (Bool-cases (ltb 0 m.attachment_count)) [
    | inl f ↦ elim (Bool-cases dto.is_advertisement) [
      | inl g ↦ ground (arith, e, f, g)
      | inr g ↦ ground (arith, e, f, g)
    ]
    | inr f ↦ elim (Bool-cases dto.is_advertisement) [
      | inl g ↦ ground (arith, e, f, g)
      | inr g ↦ ground (arith, e, f, g)
    ]
  ]
]

module _ (shown : ℕ → Text) (owner : Text) (dto : CreateManualSmsRequestDto) (m : ManualSms)
    (batch_id : Text) (new_id : ℕ → Text) where
  manual_rows-phones :
      (i : ℕ) (phones : List Text)
      → map (λ r. r.recipient_phone) (manual_rows shown owner dto m batch_id new_id i phones)
        ≡ phones
  unfolding manual_rows manual_row
  manual_rows-phones i [] = refl
  manual_rows-phones i (p ∷ ps) = rw (manual_rows-phones (i + 1) ps)

  manual_rows-all :
      (i : ℕ) (phones : List Text)
      → All (IsRowOf shown owner m) (manual_rows shown owner dto m batch_id new_id i phones)
  unfolding manual_rows manual_row
  manual_rows-all i [] = tt
  manual_rows-all i (p ∷ ps) = (
    record {
      of_owner = refl;
      body = refl;
      channel = refl;
      sender = refl;
      at = refl;
      accepted = refl;
      files = files_at shown dto m batch_id i;
    },
    manual_rows-all (i + 1) ps,
  )

length-map : {A B : Type 0} (f : A → B) (xs : List A) → length (map f xs) ≡ length xs
length-map f [] = refl
length-map f (x ∷ xs) = omega (arith, length-map f xs)

reserved_lem :
    (kst_parts : ℕ → ℕ × ℕ) (utc : ℕ → ℕ → ℕ) (db db' : Db) (owner : Text) (sender : Option Text)
    (t : ℕ) (ids : List Text) (user : Text) (limit count : ℕ)
    → length ids ≡ count
    → ensure_user db owner ≡ ok (user, limit)
    → (get_kst_month_window kst_parts utc t).0 ≤ t
    → t < (get_kst_month_window kst_parts utc t).1
    → reserve_manual kst_parts utc db owner sender t ids ≡ ok db'
    → (used_in owner (get_kst_month_window kst_parts utc t) db'.ledger
        ≡ used_in owner (get_kst_month_window kst_parts utc t) db.ledger + count)
      × (used_in owner (get_kst_month_window kst_parts utc t) db'.ledger ≤ limit)
reserved_lem kst_parts utc db db' owner sender t ids user limit count long known from to taken =
    let window = get_kst_month_window kst_parts utc t in
    elim (reserve_manual_all kst_parts utc db owner sender t ids user limit known from to) [
      | inl (full, e) ↦ absurd (ground (arith, e, taken))
      | inr (d, e, grown, fits) ↦
          let same : d ≡ db' = ground (arith, e, taken) in
          let all : used_in owner window db'.ledger ≡ used_in owner window db.ledger + count =
            rw (← same) (rw (← long) grown) in
          (all, omega (arith, all, long, fits))
    ]

module _ {File : Type 0} (parse_date : Text → Option ℕ) (text_of : Json → Text)
    (inherited : Text → Option Value) (now : ℕ) (upload : File → Option ℕ) where
  module _ (kst_parts : ℕ → ℕ × ℕ) (utc : ℕ → ℕ → ℕ) (shown : ℕ → Text) where
    -- What stands behind the rows: the checks, the transaction, and one row for each phone in order,
    -- which is in the table and in the queue.
    pub record IsManual (owner : Text) (dto : CreateManualSmsRequestDto)
        (numbers : List SenderNumber) (service : Option Application) (s s' : RequestDb)
        (rows : List Row) : Type 0 where
      pub sms : ManualSms
      pub schedule :
          normalize_scheduled_at parse_date text_of inherited now dto.scheduled_at
          ≡ ok sms.scheduled_at
      pub checked : IsChecked owner dto numbers service sms
      pub recipients : map (λ r. r.recipient_phone) rows ≡ sms.phones
      pub of_sms : All (IsRowOf shown owner sms) rows
      pub stored : All (Has s'.requests.rows) rows
      pub queued : All (IsQueued s'.requests.queued) rows
      pub taken :
          reserve_manual kst_parts utc s.ledger owner
            (some sms.sender.id)
            (usage_time now sms.scheduled_at)
            (map (λ r. r.id) rows)
          ≡ ok s'.ledger

    pub create_manual_sms_requests-IsManual :
        (owner : Text) (dto : CreateManualSmsRequestDto) (numbers : List SenderNumber)
        (service : Option Application) (allowed : List ℕ) (files : List File) (batch_id : Text)
        (new_id : ℕ → Text) (s s' : RequestDb) (rows : List Row)
        → create_manual_sms_requests parse_date text_of inherited now upload kst_parts utc shown
            owner dto numbers service allowed files batch_id new_id s
          ≡ ok (s', rows)
        → IsManual owner dto numbers service s s' rows
    unfolding create_manual_sms_requests
    create_manual_sms_requests-IsManual owner dto numbers service allowed files batch_id new_id s s'
          rows h =
        elim (Outcome-cases (
          check_manual_sms parse_date text_of inherited now upload owner dto numbers service allowed
            files)) [
              | inr (x, a) ↦ absurd (ground (arith, a, h))
              | inl (m, a) ↦
                  let (scheduled, checked) =
                    check_manual_sms-IsChecked parse_date text_of inherited now upload owner dto
                      numbers service allowed files m a in
                  let made = manual_rows shown owner dto m batch_id new_id 1 m.phones in
                  elim (Outcome-cases (
                    reserve_manual kst_parts utc s.ledger owner (some m.sender.id)
                      (usage_time now m.scheduled_at) (map (λ r. r.id) made))) [
                        | inr (x, b) ↦ absurd (ground (arith, a, b, h))
                        | inl (ledger, b) ↦
                            let same : made ≡ rows = ground (arith, a, b, h) in
                            let requests : s'.requests
                                ≡ enqueue_all made (add_rows made s.requests) =
                              ground (arith, a, b, h) in
                            let is_ledger : ledger ≡ s'.ledger = ground (arith, a, b, h) in
                            let added = add_rows made s.requests in
                            subst (IsManual owner dto numbers service s s') same (record {
                              sms = m;
                              schedule = scheduled;
                              checked = checked;
                              recipients =
                                  manual_rows-phones shown owner dto m batch_id new_id 1 m.phones;
                              of_sms = manual_rows-all shown owner dto m batch_id new_id 1 m.phones;
                              stored =
                                  subst (λ q. All (Has q) made)
                                    (sym (ap (λ q. q.rows) requests ∙ rows-enqueue_all made added))
                                    (add_rows-all made s.requests);
                              queued =
                                  subst (λ q. All (IsQueued q.queued) made) (sym requests)
                                    (enqueue_all-all made added);
                              taken = b ∙ ap ok is_ledger;
                            })
                      ]
            ]

    -- A manual SMS takes one of the month's quota for each row and stays within the owner's limit, if
    -- its time is in the window of its month.
    pub create_manual_sms_requests-used :
        (owner : Text) (dto : CreateManualSmsRequestDto) (numbers : List SenderNumber)
        (service : Option Application) (allowed : List ℕ) (files : List File) (batch_id : Text)
        (new_id : ℕ → Text) (s s' : RequestDb) (rows : List Row) (at : Option ℕ) (user : Text)
        (limit : ℕ)
        → normalize_scheduled_at parse_date text_of inherited now dto.scheduled_at ≡ ok at
        → ensure_user s.ledger owner ≡ ok (user, limit)
        → (get_kst_month_window kst_parts utc (usage_time now at)).0 ≤ usage_time now at
        → usage_time now at < (get_kst_month_window kst_parts utc (usage_time now at)).1
        → create_manual_sms_requests parse_date text_of inherited now upload kst_parts utc shown
            owner dto numbers service allowed files batch_id new_id s
          ≡ ok (s', rows)
        → (used_in owner (get_kst_month_window kst_parts utc (usage_time now at)) s'.ledger.ledger
            ≡ used_in owner (get_kst_month_window kst_parts utc (usage_time now at)) s.ledger.ledger
              + length rows)
          × (used_in owner (get_kst_month_window kst_parts utc (usage_time now at)) s'.ledger.ledger
              ≤ limit)
    create_manual_sms_requests-used owner dto numbers service allowed files batch_id new_id s s'
          rows at user limit scheduled known from to h =
        let p =
          create_manual_sms_requests-IsManual owner dto numbers service allowed files batch_id
            new_id s s' rows h in
        let t = usage_time now at in
        let ids = map (λ r. r.id) rows in
        let same : p.sms.scheduled_at ≡ at = ground (arith, p.schedule, scheduled) in
        let taken : reserve_manual kst_parts utc s.ledger owner (some p.sms.sender.id) t ids
            ≡ ok s'.ledger =
          subst
            (λ x.
              reserve_manual kst_parts utc s.ledger owner (some p.sms.sender.id) (usage_time now x)
                ids
              ≡ ok s'.ledger)
            same p.taken in
        reserved_lem kst_parts utc s.ledger s'.ledger owner (some p.sms.sender.id) t ids user limit
          (length rows) (length-map (λ r. r.id) rows) known from to taken
