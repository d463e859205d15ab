-- ===== src/Quota/Preview.antt =====
-- gate_one_quota_integration.py: previews before a request and the next action, over the quota manager.
use Prim.Native.String.{◌++◌ as str_append}
use sovereignty_ai_gate.Prelude.{String, Bool, not, List, Option, none, some, if◌then◌else◌}
use sovereignty_ai_gate.Prelude.Int.{ℤ, pos, ◌-ℤ◌, ltb_ℤ}
use sovereignty_ai_gate.Platform.{Platform}
use sovereignty_ai_gate.Quota.{
  QuotaManager, Clock, UsageEstimate, get_limits, maybe_reset, estimate_usage,
}

-- What `get_status` reads that `next_best_action` needs.
unfoldable pub remaining_of : QuotaManager → ℤ
unfolding get_limits
remaining_of m = (get_limits m).total_tokens -ℤ m.current_usage.total

-- `GateOneQuotaIntegration.next_best_action`
unfoldable pub next_best_action : QuotaManager → Clock → QuotaManager × Option String
unfolding maybe_reset remaining_of
next_best_action m c =
    let m' = maybe_reset m c in
    let remaining = remaining_of m' in
    (
      m',
      if not (ltb_ℤ (pos 0) remaining)
          then some "wait_for_reset"
          else if ltb_ℤ remaining (pos 2000)
          then some "reduce_context"
          else none,
    )

pub record QuotaPrompt : Type 0 where
  pub title : String
  pub message : String
  pub can_proceed : Bool
  pub guidance : List String

module _ (p : Platform) where
  unfoldable pub warning_of : QuotaManager → UsageEstimate → String
  unfolding get_limits
  warning_of m e = str_append "This request would exceed your " (
      str_append e.tier (
        str_append " weekly quota. Used: " (
          str_append (p.show e.total_used)
            (str_append "/" (str_append (p.show (get_limits m).total_tokens) ".")))))

  unfoldable pub passed_of : UsageEstimate → String
  passed_of e = str_append "Remaining quota: " (
      str_append (p.show e.remaining) (
        str_append " tokens. Voice used: " (
          str_append (p.show e.voice_used)
            (str_append ", text used: " (str_append (p.show e.text_used) ".")))))

  -- `GateOneQuotaIntegration.preview_request`
  unfoldable pub preview_request : QuotaManager → Clock → ℤ → Bool → QuotaManager × QuotaPrompt
  unfolding estimate_usage warning_of passed_of
  preview_request m c tokens is_voice =
      let (m', e) = estimate_usage m c tokens is_voice in
      (
        m',
        record {
          title = if e.would_throttle then "Quota warning" else "Quota check passed";
          message = if e.would_throttle then warning_of m' e else passed_of e;
          can_proceed = not e.would_throttle;
          guidance = e.guidance;
        },
      )
