-- ===== src/Requests/Retries.antt =====
-- Rows of which at most the newest retry of a request has not failed, and what keeps them so.
use noti.Common.{
  ℕ, suc, ◌≤◌, ◌≡◌, ◌⊎◌, inl, inr, refl, ◌∙◌, Bool, true, false, not, ◌&&◌, List, [], ◌∷◌, none,
  some, if◌then◌else◌, arith, Bool-cases, map, find?,
}
use noti.Text.{Text, text_eq, text_eq_iff}
use noti.Worker.{MessageRequestStatus, is_terminal}
use noti.Requests.Rows.{Row}
use noti.Requests.Retry.{is_failed, is_retry_of, may_retry}

-- the retries of a request that have not failed
abbrev pub is_live : Text → Row → Bool
is_live root r = is_retry_of root r && not (is_failed r.status)

abbrev pub live_retries : Text → List Row → ℕ
live_retries root [] = 0
live_retries root (r ∷ rs) =
    if is_live root r then suc (live_retries root rs) else live_retries root rs

-- Only the newest retry may be live.
abbrev pub OnlyNewest : Text → List Row → Type 0
OnlyNewest root [] = Unit
OnlyNewest root (r ∷ rs) =
    ((is_retry_of root r ≡ true) × (live_retries root rs ≡ 0))
    ⊎ ((is_retry_of root r ≡ false) × OnlyNewest root rs)

pub live_retries-le : (root : Text) (rs : List Row) → OnlyNewest root rs → live_retries root rs ≤ 1
live_retries-le root [] h = omega arith
live_retries-le root (r ∷ rs) h = ground (arith, live_retries-le root rs)

-- If the newest retry has failed, none is live.
pub none_live :
    (root : Text) (rs : List Row)
    → OnlyNewest root rs
    → may_retry (find? (is_retry_of root) rs) ≡ true
    → live_retries root rs ≡ 0
none_live root [] h m = refl
none_live root (r ∷ rs) h m = ground (arith, none_live root rs)

-- A status that the worker or the provider's news change: that of a row that is not over.
abbrev pub progress : Text → MessageRequestStatus → Row → Row
progress id status r =
    if text_eq r.id id && not (is_terminal r.status) then record r { status = status } else r

progress_live :
    (root id : Text) (status : MessageRequestStatus) (r : Row)
    → (is_retry_of root (progress id status r) ≡ is_retry_of root r)
      × ((is_live root r ≡ true) ⊎ (is_live root (progress id status r) ≡ false))
unfolding is_retry_of is_failed is_terminal
progress_live root id status r = ground arith

live_retries-progress :
    (root id : Text) (status : MessageRequestStatus) (rs : List Row)
    → live_retries root rs ≡ 0
    → live_retries root (map (progress id status) rs) ≡ 0
live_retries-progress root id status [] h = refl
live_retries-progress root id status (r ∷ rs) h =
    ground (arith, progress_live root id status r, live_retries-progress root id status rs)

pub OnlyNewest-progress :
    (root id : Text) (status : MessageRequestStatus) (rs : List Row)
    → OnlyNewest root rs
    → OnlyNewest root (map (progress id status) rs)
OnlyNewest-progress root id status [] h = tt
OnlyNewest-progress root id status (r ∷ rs) (inl (e, h)) =
    inl ((progress_live root id status r).0 ∙ e, live_retries-progress root id status rs h)
OnlyNewest-progress root id status (r ∷ rs) (inr (e, h)) =
    inr ((progress_live root id status r).0 ∙ e, OnlyNewest-progress root id status rs h)

-- A new row that is no retry, or a retry of a request none of whose retries is live.
pub OnlyNewest-add :
    (root : Text) (r : Row) (rs : List Row)
    → ((r.retry_of_request_id ≡ none)
        ⊎ ((other : Text) × (r.retry_of_request_id ≡ some other) × (live_retries other rs ≡ 0)))
    → OnlyNewest root rs
    → OnlyNewest root (r ∷ rs)
unfolding is_retry_of
OnlyNewest-add root r rs (inl e) h = inr (ground (arith, e), h)
OnlyNewest-add root r rs (inr (other, e, z)) h = elim (Bool-cases (text_eq other root)) [
  | inl t ↦
      let same : other ≡ root = (text_eq_iff other root).0 t in
      inl (ground (arith, e, t), rw (← same) z)
  | inr t ↦ inr (ground (arith, e, t), h)
]
