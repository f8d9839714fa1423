-- ===== src/Requests/Channel.antt =====
-- The channel that a rule resolves to is one whose template and sender are approved, and
-- AlimTalk comes before SMS.
use noti.Common.{
  ◌≡◌, ◌↔◌, ◌⊎◌, ◌≢◌, inl, inr, Option, none, some, arith, Outcome, ok, err, Outcome-cases,
  Bool-cases,
}
use noti.Text.{Text}
use noti.Requests.{
  ChannelStrategy, sms_only, alimtalk_only, alimtalk_then_sms, alimtalk_template_not_approved,
  TemplateStatus, SenderNumberStatus, ProviderTemplateStatus, SenderProfileStatus, SmsTemplate,
  SmsSenderNumber, AlimtalkTemplate, AlimtalkSenderProfile, Rule, ResolutionResult, sms, alimtalk,
  Conflict, resolve_channel, ready_alimtalk, ready_sms, by_strategy, is_default,
  AlimtalkTemplateBindingMode,
}

-- the provider template that the rule's binding uses
abbrev pub BoundTo : Rule → Outcome Conflict AlimtalkTemplate → AlimtalkTemplate → Type 0
BoundTo rule upserted t = elim rule.alimtalk_template_binding_mode [
  | AlimtalkTemplateBindingMode.default_binding ↦ upserted ≡ ok t
  | AlimtalkTemplateBindingMode.custom_binding ↦ rule.alimtalk_template ≡ some t
]

-- A result is ready when its ids are those of an approved sender and template of the rule.
abbrev pub IsReady : Rule → Outcome Conflict AlimtalkTemplate → ResolutionResult → Type 0
IsReady rule upserted (sms n t) =
    (rule.sms_template ≡ some (record { id = t; status = TemplateStatus.published }))
    × (rule.sms_sender_number ≡ some (record { id = n; status = SenderNumberStatus.approved }))
IsReady rule upserted (alimtalk p t q) =
    BoundTo rule upserted
      (record { id = q; provider_status = ProviderTemplateStatus.apr; template_id = t })
    × (rule.alimtalk_sender_profile ≡ some (record { id = p; status = SenderProfileStatus.active }))

ready_sms_lem :
    (t : Option SmsTemplate) (n : Option SmsSenderNumber) (r : ResolutionResult)
    → ready_sms t n ≡ some r
    → (i j : Text) × (r ≡ sms j i)
      × (t ≡ some (record { id = i; status = TemplateStatus.published }))
      × (n ≡ some (record { id = j; status = SenderNumberStatus.approved }))
unfolding ready_sms
ready_sms_lem none n r h = ground arith
ready_sms_lem (some t) none r h = ground arith
ready_sms_lem (some t) (some n) r h = (t.id, n.id, ground arith, ground arith, ground arith)

ready_alimtalk_lem :
    (t : Option AlimtalkTemplate) (p : Option AlimtalkSenderProfile) (r : ResolutionResult)
    → ready_alimtalk t p ≡ some r
    → (i j k : Text) × (r ≡ alimtalk k j i)
      × (t
          ≡ some (record { id = i; provider_status = ProviderTemplateStatus.apr; template_id = j }))
      × (p ≡ some (record { id = k; status = SenderProfileStatus.active }))
unfolding ready_alimtalk
ready_alimtalk_lem none n r h = ground arith
ready_alimtalk_lem (some t) none r h = ground arith
ready_alimtalk_lem (some t) (some n) r h =
    (t.id, t.template_id, n.id, ground arith, ground arith, ground arith)

by_strategy_lem :
    (strategy : ChannelStrategy) (a s : Option ResolutionResult) (r : ResolutionResult)
    → by_strategy strategy a s ≡ ok r
    → (a ≡ some r) ⊎ (s ≡ some r)
unfolding by_strategy
by_strategy_lem sms_only a s r h = ground arith
by_strategy_lem alimtalk_only a s r h = ground arith
by_strategy_lem alimtalk_then_sms a s r h = ground arith

by_strategy_turn :
    (a s : Option ResolutionResult) (r : ResolutionResult)
    → (by_strategy alimtalk_then_sms a s ≡ ok r) ↔ (
        (by_strategy alimtalk_only a s ≡ ok r)
        ⊎ ((by_strategy alimtalk_only a s ≡ err alimtalk_template_not_approved)
            × (by_strategy sms_only a s ≡ ok r)))
unfolding by_strategy
by_strategy_turn a s r = ground arith

-- A choice among a template and the rule's profile and SMS sender is a ready one.
chosen-IsReady :
    (strategy : ChannelStrategy) (rule : Rule) (upserted : Outcome Conflict AlimtalkTemplate)
    (t : Option AlimtalkTemplate) (r : ResolutionResult)
    → ((q : AlimtalkTemplate) → t ≡ some q → BoundTo rule upserted q)
    → by_strategy strategy
        (ready_alimtalk t rule.alimtalk_sender_profile)
        (ready_sms rule.sms_template rule.sms_sender_number)
      ≡ ok r
    → IsReady rule upserted r
chosen-IsReady strategy rule upserted t r bound h =
    elim (by_strategy_lem strategy (ready_alimtalk t rule.alimtalk_sender_profile)
      (ready_sms rule.sms_template rule.sms_sender_number) r h) [
        | inl e ↦
            let (i, j, k, f, g, p) = ready_alimtalk_lem t rule.alimtalk_sender_profile r e in
            rw f (
              bound
                  (record { id = i; provider_status = ProviderTemplateStatus.apr; template_id = j })
                  g,
              p,
            )
        | inr e ↦
            let (i, j, f, g, p) = ready_sms_lem rule.sms_template rule.sms_sender_number r e in
            rw f (g, p)
      ]

-- Whatever the strategy, the channel that is chosen is ready: an SMS result names a published
-- template and an approved sender number of the rule, an AlimTalk result an active sender profile and
-- an approved provider template, the upserted one under the default binding.
pub resolve_channel-IsReady :
    (strategy : ChannelStrategy) (rule : Rule) (upserted : Outcome Conflict AlimtalkTemplate)
    (r : ResolutionResult)
    → resolve_channel strategy rule upserted ≡ ok r
    → IsReady rule upserted r
unfolding resolve_channel
resolve_channel-IsReady strategy rule upserted r h =
    elim (Bool-cases (is_default rule.alimtalk_template_binding_mode)) [
      | inl e ↦ elim (Outcome-cases upserted) [
        | inl (t, f) ↦
            chosen-IsReady strategy rule upserted (some t) r (λ q g. ground (arith, e, f, g))
              (ground (arith, e, f, h))
        | inr (x, f) ↦ ground (arith, e, f, h)
      ]
      | inr e ↦
          chosen-IsReady strategy rule upserted rule.alimtalk_template r
            (λ q g. ground (arith, e, g)) (ground (arith, e, h))
    ]

-- ALIMTALK_THEN_SMS is the two other strategies in turn: where the upsert itself does not fail with
-- the conflict of an unapproved template, it resolves to a channel exactly when ALIMTALK_ONLY resolves to it,
-- or ALIMTALK_ONLY fails for want of an approved template and SMS_ONLY resolves to it.
pub resolve_channel-in_turn :
    (rule : Rule) (upserted : Outcome Conflict AlimtalkTemplate) (r : ResolutionResult)
    → upserted ≢ err alimtalk_template_not_approved
    → (resolve_channel alimtalk_then_sms rule upserted ≡ ok r) ↔ (
        (resolve_channel alimtalk_only rule upserted ≡ ok r)
        ⊎ ((resolve_channel alimtalk_only rule upserted ≡ err alimtalk_template_not_approved)
            × (resolve_channel sms_only rule upserted ≡ ok r)))
unfolding resolve_channel
resolve_channel-in_turn rule upserted r h =
    let s = ready_sms rule.sms_template rule.sms_sender_number in
    elim (Bool-cases (is_default rule.alimtalk_template_binding_mode)) [
      | inl e ↦ elim (Outcome-cases upserted) [
        | inl (t, f) ↦ ground (
          arith,
          e,
          f,
          by_strategy_turn (ready_alimtalk (some t) rule.alimtalk_sender_profile) s r,
        )
        | inr (x, f) ↦ ground (arith, e, f, h)
      ]
      | inr e ↦ ground (
        arith,
        e,
        by_strategy_turn (ready_alimtalk rule.alimtalk_template rule.alimtalk_sender_profile) s r,
      )
    ]
