-- ===== src/Requests/Manual/Checked.antt =====
-- What the checks of a manual SMS make sure of: the sender, the phones and the limits.
use noti.Common.{
  refl, ℕ, ◌+◌, ◌≡◌, ◌≤◌, ◌∙◌, inl, inr, ap, subst, Bool, true, false, List, [], ◌∷◌, ◌++◌, Option,
  find?, some, Some, find?-passes, find?-Some, ltb, length, length-append, arith, ok, Bool-cases,
  Option-cases, Outcome-cases,
}
use noti.Text.{Text, eq_of_text_eq}
use noti.Sms.{classify_domestic_sms_body, get_domestic_sms_byte_length}
use noti.Sms080.{Application}
use noti.Senders.{SenderNumber, SenderNumberStatus, is_approved}
use noti.Json.{Json}
use noti.Template.{Value}
use noti.Worker.Compose.{is_over_limit}
use noti.Requests.{resolve_manual_recipient_phones}
use noti.Requests.Accept.{normalize_scheduled_at}
use noti.Requests.Manual.{
  CreateManualSmsRequestDto, ManualSms, mms_attachment_max_count, is_sender_for, sender_or_error,
  manual_body_of, manual_attachments, resolve_manual_sms_template_attachment_file_ids,
  upload_manual_sms_attachments, manual_schedule, manual_phones, check_manual_sms,
}

length-upload :
    {File : Type 0} (upload : File → Option ℕ) (files : List File) (ids : List ℕ)
    → upload_manual_sms_attachments upload files ≡ ok ids
    → length ids ≡ length files
unfolding upload_manual_sms_attachments
length-upload upload [] ids h = ground (arith, h)
length-upload upload (f ∷ fs) ids h = elim (Option-cases (upload f)) [
  | inl e ↦ absurd (ground (arith, e, h))
  | inr (id, e) ↦ elim (Outcome-cases (upload_manual_sms_attachments upload fs)) [
    | inr (x, g) ↦ absurd (ground (arith, e, g, h))
    | inl (rest, g) ↦ ground (arith, e, g, h, length-upload upload fs rest g)
  ]
]

-- A sender number of the table, which is the owner's, approved and the one that was asked for.
pub record IsSender (owner id : Text) (numbers : List SenderNumber) (s : SenderNumber)
    : Type 0 where
  pub listed : Some (λ n. n ≡ s) numbers
  pub asked_for : s.id ≡ id
  pub of_owner : s.owner_user_id ≡ owner
  pub is_approved : s.status ≡ SenderNumberStatus.approved

approved_lem :
    (status : SenderNumberStatus) → is_approved status ≡ true → status ≡ SenderNumberStatus.approved
approved_lem SenderNumberStatus.approved h = refl
approved_lem _ h = cc

sender_lem :
    (owner id : Text) (numbers : List SenderNumber) (s : SenderNumber)
    → sender_or_error owner id numbers ≡ ok s
    → IsSender owner id numbers s
unfolding sender_or_error is_sender_for
sender_lem owner id numbers s h =
    let found : find? (is_sender_for owner id) numbers ≡ some s = ground (arith, h) in
    let passes = find?-passes (is_sender_for owner id) numbers s found in
    record {
      listed = find?-Some (is_sender_for owner id) numbers s found;
      asked_for = eq_of_text_eq s.id id (ground (arith, passes));
      of_owner = eq_of_text_eq s.owner_user_id owner (ground (arith, passes));
      is_approved = approved_lem s.status (ground (arith, passes));
    }

within_limit :
    (body : Text) (attached : Bool)
    → is_over_limit (classify_domestic_sms_body body attached) ≡ false
    → get_domestic_sms_byte_length body ≤ 2000
unfolding classify_domestic_sms_body
within_limit body true h = ground (arith, h)
within_limit body false h = ground (arith, h)

-- What the checks have made sure of.
pub record IsChecked (owner : Text) (dto : CreateManualSmsRequestDto) (numbers : List SenderNumber)
    (service : Option Application) (m : ManualSms) : Type 0 where
  pub phones :
      resolve_manual_recipient_phones dto.recipient_phone dto.recipient_phones ≡ ok m.phones
  pub sender : IsSender owner dto.sender_number_id numbers m.sender
  pub written : manual_body_of dto service ≡ ok m.body
  pub fits : get_domestic_sms_byte_length m.body ≤ 2000
  pub few_images : m.attachment_count ≤ mms_attachment_max_count
  pub files : length m.file_ids ≡ m.attachment_count

phones_lem :
    (dto : CreateManualSmsRequestDto) (phones : List Text)
    → manual_phones dto ≡ ok phones
    → resolve_manual_recipient_phones dto.recipient_phone dto.recipient_phones ≡ ok phones
phones_lem dto phones h =
    elim (Outcome-cases
      (resolve_manual_recipient_phones dto.recipient_phone dto.recipient_phones)) [
        | inl (ps, e) ↦ ground (arith, e, h)
        | inr (x, e) ↦ absurd (ground (arith, e, h))
      ]

attachments_lem :
    {File : Type 0} (upload : File → Option ℕ) (allowed : List ℕ) (ids : Option (List ℕ))
    (files : List File) (count : ℕ) (file_ids : List ℕ)
    → manual_attachments upload allowed ids files ≡ ok (count, file_ids)
    → (count ≤ mms_attachment_max_count) × (length file_ids ≡ count)
unfolding manual_attachments
attachments_lem upload allowed ids files count file_ids h =
    elim (Outcome-cases (resolve_manual_sms_template_attachment_file_ids allowed ids)) [
      | inr (x, e) ↦ absurd (ground (arith, e, h))
      | inl (from, e) ↦
          elim (Bool-cases (ltb mms_attachment_max_count (length from + length files))) [
            | inl f ↦ absurd (ground (arith, e, f, h))
            | inr f ↦ elim (Outcome-cases (upload_manual_sms_attachments upload files)) [
              | inr (x, g) ↦ absurd (ground (arith, e, f, g, h))
              | inl (uploaded, g) ↦
                  let is_count : length from + length files ≡ count = ground (arith, e, f, g, h) in
                  let are : from ++ uploaded ≡ file_ids = ground (arith, e, f, g, h) in
                  let long = length-upload upload files uploaded g in
                  (
                    ground (arith, f, is_count),
                    rw (← are) (omega (arith, is_count, long, length-append from uploaded)),
                  )
            ]
          ]
    ]

module _ {File : Type 0} (parse_date : Text → Option ℕ) (text_of : Json → Text)
    (inherited : Text → Option Value) (now : ℕ) (upload : File → Option ℕ) where
  schedule_lem :
      (value : Option Text) (at : Option ℕ)
      → manual_schedule parse_date text_of inherited now value ≡ ok at
      → normalize_scheduled_at parse_date text_of inherited now value ≡ ok at
  schedule_lem value at h =
      elim (Outcome-cases (normalize_scheduled_at parse_date text_of inherited now value)) [
        | inl (t, e) ↦ ground (arith, e, h)
        | inr (x, e) ↦ absurd (ground (arith, e, h))
      ]

  pub check_manual_sms-IsChecked :
      (owner : Text) (dto : CreateManualSmsRequestDto) (numbers : List SenderNumber)
      (service : Option Application) (allowed : List ℕ) (files : List File) (m : ManualSms)
      → check_manual_sms parse_date text_of inherited now upload owner dto numbers service allowed
          files
        ≡ ok m
      → (normalize_scheduled_at parse_date text_of inherited now dto.scheduled_at
          ≡ ok m.scheduled_at)
        × IsChecked owner dto numbers service m
  unfolding check_manual_sms
  check_manual_sms-IsChecked owner dto numbers service allowed files m h =
      elim (Outcome-cases (manual_schedule parse_date text_of inherited now dto.scheduled_at)) [
        | inr (x, a) ↦ absurd (ground (arith, a, h))
        | inl (at, a) ↦ elim (Outcome-cases (manual_phones dto)) [
          | inr (x, b) ↦ absurd (ground (arith, a, b, h))
          | inl (phones, b) ↦
              elim (Outcome-cases (sender_or_error owner dto.sender_number_id numbers)) [
                | inr (x, c) ↦ absurd (ground (arith, a, b, c, h))
                | inl (sender, c) ↦ elim (Outcome-cases (manual_body_of dto service)) [
                  | inr (x, d) ↦ absurd (ground (arith, a, b, c, d, h))
                  | inl (body, d) ↦
                      elim (Outcome-cases (
                        manual_attachments upload allowed dto.template_attachment_file_ids files)) [
                          | inr (x, e) ↦ absurd (ground (arith, a, b, c, d, e, h))
                          | inl ((count, ids), e) ↦
                              elim (Bool-cases
                                (is_over_limit (classify_domestic_sms_body body (ltb 0 count)))) [
                                  | inl f ↦ absurd (ground (arith, a, b, c, d, e, f, h))
                                  | inr f ↦
                                      let checked : ManualSms = record {
                                        scheduled_at = at;
                                        phones = phones;
                                        sender = sender;
                                        body = body;
                                        attachment_count = count;
                                        file_ids = ids;
                                      } in
                                      let same : checked ≡ m =
                                        ground (arith, a, b, c, d, e, f, h) in
                                      let (few, all_files) =
                                        attachments_lem upload allowed
                                          dto.template_attachment_file_ids files count ids e in
                                      (
                                        schedule_lem dto.scheduled_at at a
                                            ∙ ap (λ x. ok x.scheduled_at) same,
                                        subst (IsChecked owner dto numbers service) same (record {
                                          phones = phones_lem dto phones b;
                                          sender =
                                              sender_lem owner dto.sender_number_id numbers sender
                                                c;
                                          written = d;
                                          fits = within_limit body (ltb 0 count) f;
                                          few_images = few;
                                          files = all_files;
                                        }),
                                      )
                                ]
                        ]
                ]
              ]
        ]
      ]
