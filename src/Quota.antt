-- ===== src/Quota.antt =====
-- quota_manager.py: shared weekly quotas. Times are microseconds; a
-- reading of the clock is an argument. A message's numbers are texts by Python's `str`.
pub mod Preview
pub mod Accounting
mod Tests
use Prim.Native.String.{◌++◌ as str_append}
use sovereignty_ai_gate.Prelude.{
  ℕ, ◌+◌, String, Bool, true, false, not, List, [], ◌∷◌, Option, none, some, str_eq, leb,
  if◌then◌else◌,
}
use sovereignty_ai_gate.Prelude.Int.{ℤ, pos, ◌+ℤ◌, ◌-ℤ◌, ltb_ℤ}
use sovereignty_ai_gate.Platform.{Platform}

pub record TierLimits : Type 0 where
  pub voice_tokens : ℤ
  pub text_tokens : ℤ
  pub total_tokens : ℤ
  pub can_bypass_throttle : Bool
  pub guidance_options : List String

abbrev pub limits_of : ℕ → ℕ → ℕ → Bool → List String → TierLimits
limits_of voice text total bypass guidance = record {
  voice_tokens = pos voice;
  text_tokens = pos text;
  total_tokens = pos total;
  can_bypass_throttle = bypass;
  guidance_options = guidance;
}

-- `TIER_LIMITS.get(tier, TIER_LIMITS["free"])`
unfoldable pub tier_limits : String → TierLimits
tier_limits tier =
    if str_eq tier "root"
    then limits_of 1000000 1000000 2000000 true []
    else if str_eq tier "admin"
    then limits_of 500000 500000 800000 true []
    else if str_eq tier "developer"
    then limits_of 250000 250000 400000 true
        ("reduce_context" ∷ "split_request" ∷ "switch_mode" ∷ [])
    else if str_eq tier "supergrok"
    then limits_of 120000 120000 200000 false
        ("reduce_context" ∷ "switch_mode" ∷ "wait_for_reset" ∷ [])
    else if str_eq tier "paid"
    then limits_of 60000 60000 100000 false
        ("reduce_context" ∷ "wait_for_reset" ∷ "switch_mode" ∷ [])
    else limits_of 25000 25000 40000 false
        ("reduce_context" ∷ "wait_for_reset" ∷ "switch_mode" ∷ [])

pub record Usage : Type 0 where
  pub voice : ℤ
  pub text : ℤ
  pub total : ℤ

abbrev pub no_usage : Usage
no_usage = record { voice = pos 0; text = pos 0; total = pos 0 }

pub record QuotaManager : Type 0 where
  pub tier : String
  pub current_usage : Usage
  pub last_reset : ℕ
  pub weekly_reset : ℕ

-- `timedelta(days=7)`
abbrev pub week : ℕ
week = 604800000000

unfoldable pub new_manager : Platform → String → ℕ → QuotaManager
new_manager p user_tier now = record {
  tier = p.lower user_tier;
  current_usage = no_usage;
  last_reset = now;
  weekly_reset = now + week;
}

unfoldable pub get_limits : QuotaManager → TierLimits
unfolding tier_limits
get_limits m = tier_limits m.tier

unfoldable pub reset : QuotaManager → ℕ → QuotaManager
reset m now = record m { current_usage = no_usage; last_reset = now; weekly_reset = now + week }

-- The two readings of the clock that a call can make: its own, and the one of `reset`.
pub record Clock : Type 0 where
  pub now : ℕ
  pub at_reset : ℕ

-- `_maybe_reset`
unfoldable pub maybe_reset : QuotaManager → Clock → QuotaManager
unfolding reset
maybe_reset m c = if leb m.weekly_reset c.now then reset m c.at_reset else m

pub record UsageEstimate : Type 0 where
  pub tier : String
  pub voice_used : ℤ
  pub text_used : ℤ
  pub total_used : ℤ
  pub remaining : ℤ
  pub would_throttle : Bool
  pub can_bypass : Bool
  pub guidance : List String

-- `estimate_usage`, on the manager that `_maybe_reset` leaves.
unfoldable pub estimate_on : QuotaManager → ℤ → Bool → UsageEstimate
unfolding get_limits
estimate_on m tokens is_voice =
    let limits = get_limits m in
    let voice = m.current_usage.voice +ℤ (if is_voice then tokens else pos 0) in
    let text = m.current_usage.text +ℤ (if is_voice then pos 0 else tokens) in
    let total = voice +ℤ text in
    record {
      tier = m.tier;
      voice_used = voice;
      text_used = text;
      total_used = total;
      remaining = limits.total_tokens -ℤ total;
      would_throttle = ltb_ℤ limits.total_tokens total;
      can_bypass = limits.can_bypass_throttle;
      guidance = limits.guidance_options;
    }

unfoldable pub estimate_usage : QuotaManager → Clock → ℤ → Bool → QuotaManager × UsageEstimate
unfolding maybe_reset estimate_on
estimate_usage m c tokens is_voice =
    let m' = maybe_reset m c in (m', estimate_on m' tokens is_voice)

-- The two dicts that `record_usage` returns: a key that one has not is `none`.
pub record UsageReport : Type 0 where
  pub status : String
  pub tier : String
  pub voice_used : ℤ
  pub text_used : ℤ
  pub total_used : ℤ
  pub remaining : ℤ
  pub message : Option String
  pub guidance : Option (List String)
  pub can_bypass : Option Bool

unfoldable pub added : Usage → ℤ → Bool → Usage
added u tokens is_voice =
    let voice = if is_voice then u.voice +ℤ tokens else u.voice in
    let text = if is_voice then u.text else u.text +ℤ tokens in
    record { voice = voice; text = text; total = voice +ℤ text }

unfoldable pub report_of : QuotaManager → UsageReport
unfolding get_limits
report_of m =
    let limits = get_limits m in
    let u = m.current_usage in
    let throttled = ltb_ℤ limits.total_tokens u.total in
    record {
      status = if throttled then "throttled" else "ok";
      tier = m.tier;
      voice_used = u.voice;
      text_used = u.text;
      total_used = u.total;
      remaining = limits.total_tokens -ℤ u.total;
      message =
          if throttled
          then some (str_append "Shared weekly limit reached for " (str_append m.tier " tier."))
          else none;
      guidance = if throttled then some limits.guidance_options else none;
      can_bypass = if throttled then none else some limits.can_bypass_throttle;
    }

unfoldable pub record_usage : QuotaManager → Clock → ℤ → Bool → QuotaManager × UsageReport
unfolding maybe_reset added report_of
record_usage m c tokens is_voice =
    let fresh = maybe_reset m c in
    let m' : QuotaManager = record fresh {
      current_usage = added fresh.current_usage tokens is_voice;
    } in
    (m', report_of m')
