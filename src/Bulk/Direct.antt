-- ===== src/Bulk/Direct.antt =====
-- `createCampaign`: a campaign that is posted at once, and how its rows compare with those that the
-- worker leaves for the same answer. The updates of the recipients run one after the other.
use noti.Common.{
  ◌≡◌, refl, ap, Bool, true, false, not, ◌&&◌, ◌||◌, List, [], ◌∷◌, Option, none, some,
  if◌then◌else◌, is_empty, any, all, map, arith, Option-cases, inl, inr,
}
use noti.Text.{Text, text_eq}
use noti.Sms.{or_empty}
use noti.Worker.Bulk.{
  CampaignStatus, sent_to_provider, partial_failed, Recipient, RecipientStatus, SendResultItem,
  same_key, is_accepted, mark, mark_all, status_of, submitted,
}
use noti.Bulk.Users.{normalize_phone_number, filled}
use noti.Bulk.Rows.{RecipientDraft, BulkSmsCampaign, CampaignDraft}
use noti.Bulk.Posting.{load_campaign}

-- an item of the provider's answer, which names its recipient in one way or another
pub record BulkSendItem : Type 0 where
  pub item : SendResultItem
  pub recipient_no : Option Text

pub data RecipientWhere : Type 0 where
  by_grouping_key by_phone : Text → RecipientWhere

-- a text that is there and not empty
abbrev pub truthy : Option Text → Option Text
truthy none = none
truthy (some t) = filled t

unfoldable pub build_bulk_recipient_where :
    (grouping_key recipient_no fallback_grouping_key : Option Text) → Option RecipientWhere
unfolding normalize_phone_number
build_bulk_recipient_where grouping_key recipient_no fallback = elim (truthy grouping_key) [
  | some k ↦ some (by_grouping_key k)
  | none ↦ elim (normalize_phone_number recipient_no) [
    | some phone ↦ some (by_phone phone)
    | none ↦ elim (truthy fallback) [ none ↦ none | some k ↦ some (by_grouping_key k) ]
  ]
]

abbrev pub is_where : RecipientWhere → Recipient → Bool
is_where (by_grouping_key k) r = same_key k r.recipient_grouping_key
is_where (by_phone phone) r = text_eq r.recipient_phone phone

-- `updateMany` with the data of an item
unfoldable pub update_recipient : SendResultItem → RecipientWhere → Recipient → Recipient
unfolding is_accepted
update_recipient i w r =
    if is_where w r
    then (if is_accepted i
        then record r { recipient_seq = i.recipient_seq }
        else record r { recipient_seq = i.recipient_seq; status = RecipientStatus.failed })
    else r

-- The grouping key of the draft with the item's index, where there is one.
abbrev pub fallback_key : List RecipientDraft → Option Text
fallback_key [] = none
fallback_key (d ∷ ds) = some d.recipient_grouping_key

abbrev pub later : List RecipientDraft → List RecipientDraft
later [] = []
later (d ∷ ds) = ds

-- The loop over the items, with the drafts from the same index on.
unfoldable pub update_recipients :
    List BulkSendItem → List RecipientDraft → List Recipient → List Recipient
unfolding build_bulk_recipient_where update_recipient
update_recipients [] ds rs = rs
update_recipients (b ∷ bs) ds rs =
    update_recipients bs (later ds)
      (elim (build_bulk_recipient_where b.item.recipient_grouping_key b.recipient_no
        (fallback_key ds)) [ none ↦ rs | some w ↦ map (update_recipient b.item w) rs ])

-- `hasAcceptedRecipient` and `hasFailedRecipient` as the loop leaves them
unfoldable pub accepted_and_failed : List BulkSendItem → Bool × Bool → Bool × Bool
unfolding is_accepted
accepted_and_failed [] flags = flags
accepted_and_failed (b ∷ bs) (accepted, failed) =
    accepted_and_failed bs (accepted || is_accepted b.item, failed || not (is_accepted b.item))

unfoldable pub campaign_status : Bool × Bool → CampaignStatus
campaign_status (accepted, failed) =
    if accepted && not failed
    then sent_to_provider
    else if accepted
    then partial_failed
    else CampaignStatus.failed

-- The rest of `createCampaign` after the post of a prepared campaign.
unfoldable pub submit_campaign :
    CampaignDraft → (request_id : Text) → List BulkSendItem → BulkSmsCampaign
unfolding update_recipients accepted_and_failed campaign_status
submit_campaign c request_id items = record c.campaign {
  status = campaign_status (accepted_and_failed items (false, false));
  nhn_request_id = some request_id;
  recipients = update_recipients items c.recipient_drafts c.campaign.recipients;
}

abbrev pub is_keyed : BulkSendItem → Bool
is_keyed b = not (is_empty (or_empty b.item.recipient_grouping_key))

abbrev pub items_of : List BulkSendItem → List SendResultItem
items_of = map (λ b. b.item)

accepted_and_failed-any :
    (bs : List BulkSendItem) (x y : Bool)
    → accepted_and_failed bs (x, y)
      ≡ (x || any is_accepted (items_of bs), y || any (λ i. not (is_accepted i)) (items_of bs))
unfolding accepted_and_failed
accepted_and_failed-any [] x y = ground arith
accepted_and_failed-any (b ∷ bs) x y =
    ground
      (arith, accepted_and_failed-any bs (x || is_accepted b.item) (y || not (is_accepted b.item)))

campaign_status-status_of :
    (bs : List BulkSendItem)
    → campaign_status (accepted_and_failed bs (false, false)) ≡ status_of (items_of bs)
unfolding campaign_status status_of
campaign_status-status_of bs = ap campaign_status (accepted_and_failed-any bs false false)

map-mark :
    (i : SendResultItem) (k : Text) (rs : List Recipient)
    → map (update_recipient i (by_grouping_key k)) rs ≡ map (mark i k) rs
unfolding update_recipient mark
map-mark i k [] = refl
map-mark i k (r ∷ rs) = ground (arith, map-mark i k rs)

update_recipients-mark_all :
    (bs : List BulkSendItem) (ds : List RecipientDraft) (rs : List Recipient)
    → all is_keyed bs ≡ true
    → update_recipients bs ds rs ≡ mark_all (items_of bs) rs
unfolding update_recipients mark_all build_bulk_recipient_where
update_recipients-mark_all [] ds rs h = refl
update_recipients-mark_all (b ∷ bs) ds rs h = elim (Option-cases b.item.recipient_grouping_key) [
  | inl e ↦ absurd (ground (arith, e, h))
  | inr (k, e) ↦
      let next =
        update_recipients-mark_all bs (later ds) (map (mark b.item k) rs) (ground (arith, h)) in
      ground (arith, e, h, map-mark b.item k rs, next)
]

-- When each item of the provider's answer has a grouping key, the campaign that is posted at once has
-- the rows that the worker leaves for that answer: the same status, request id and recipients.
pub submit_campaign-submitted :
    (c : CampaignDraft) (request_id : Text) (items : List BulkSendItem)
    → all is_keyed items ≡ true
    → load_campaign (submit_campaign c request_id items) c.sender_number
      ≡ submitted
          (record { request_id = request_id; send_result_list = items_of items })
          (load_campaign c.campaign c.sender_number)
unfolding submit_campaign submitted load_campaign
submit_campaign-submitted c request_id items h = ground (
  arith,
  campaign_status-status_of items,
  update_recipients-mark_all items c.recipient_drafts c.campaign.recipients h,
)
