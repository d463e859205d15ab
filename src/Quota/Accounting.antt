-- ===== src/Quota/Accounting.antt =====
-- The usage that quota_manager.py accounts for, and the previews of gate_one_quota_integration.py beside
-- its commits.
use sovereignty_ai_gate.Prelude.{
  ℕ, String, ◌≡◌, ◌↔◌, refl, ap, inl, inr, Bool, true, false, not, arith, leb, eq_iff, Bool-cases,
  if◌then◌else◌,
}
use sovereignty_ai_gate.Prelude.Int.{ℤ, pos, ◌+ℤ◌, +ℤ_parts, eq_of_parts}
use sovereignty_ai_gate.Platform.{Platform}
use sovereignty_ai_gate.Quota.Preview.{preview_request}
use sovereignty_ai_gate.Quota.{
  QuotaManager, Clock, new_manager, reset, maybe_reset, get_limits, estimate_on, estimate_usage,
  added, report_of, record_usage,
}

-- One call on a manager that may change it. A preview and a status only reset it.
pub data Step : QuotaManager → QuotaManager → Type 0 where
  resets : (m : QuotaManager) (now : ℕ) → Step m (reset m now)
  reads : (m : QuotaManager) (c : Clock) → Step m (maybe_reset m c)
  records :
      (m : QuotaManager) (c : Clock) (tokens : ℤ) (is_voice : Bool)
      → Step m (record_usage m c tokens is_voice).0

pub data Reachable (p : Platform) (tier : String) (start : ℕ) : QuotaManager → Type 0 where
  created : Reachable p tier start (new_manager p tier start)
  next : {m m' : QuotaManager} → Reachable p tier start m → Step m m' → Reachable p tier start m'

abbrev pub IsBalanced : QuotaManager → Type 0
IsBalanced m = m.current_usage.total ≡ m.current_usage.voice +ℤ m.current_usage.text

reset-IsBalanced : (m : QuotaManager) (now : ℕ) → IsBalanced (reset m now)
unfolding reset ◌+ℤ◌
reset-IsBalanced m now = refl

maybe_reset-IsBalanced :
    (m : QuotaManager) (c : Clock) → IsBalanced m → IsBalanced (maybe_reset m c)
unfolding maybe_reset
maybe_reset-IsBalanced m c b = elim (Bool-cases (leb m.weekly_reset c.now)) [
  | inl due ↦ rw due (reset-IsBalanced m c.at_reset)
  | inr early ↦ rw early b
]

Step-IsBalanced : {m m' : QuotaManager} → Step m m' → IsBalanced m → IsBalanced m'
unfolding record_usage added
Step-IsBalanced (resets m now) b = reset-IsBalanced m now
Step-IsBalanced (reads m c) b = maybe_reset-IsBalanced m c b
Step-IsBalanced (records m c tokens is_voice) b = refl

-- In every manager that calls can reach from a new one, the total is the sum of voice and text.
pub Reachable-IsBalanced :
    (p : Platform) (tier : String) (start : ℕ) {m : QuotaManager}
    → Reachable p tier start m
    → IsBalanced m
unfolding new_manager ◌+ℤ◌
Reachable-IsBalanced p tier start created = refl
Reachable-IsBalanced p tier start (next r s) =
    Step-IsBalanced s (Reachable-IsBalanced p tier start r)

add_zero : (a : ℤ) → a +ℤ pos 0 ≡ a
add_zero a = eq_of_parts _ _ (omega (arith, +ℤ_parts a (pos 0)))

estimated :
    (m : QuotaManager) (tokens : ℤ) (is_voice : Bool)
    → (estimate_on m tokens is_voice).total_used ≡ (added m.current_usage tokens is_voice).total
unfolding estimate_on added
estimated m tokens true =
    ap (λ t. m.current_usage.voice +ℤ tokens +ℤ t) (add_zero m.current_usage.text)
estimated m tokens false =
    ap (λ v. v +ℤ (m.current_usage.text +ℤ tokens)) (add_zero m.current_usage.voice)

abbrev chosen_status : Bool → String
chosen_status throttled = if throttled then "throttled" else "ok"

status_ok : (throttled : Bool) → (not throttled ≡ true) ↔ (chosen_status throttled ≡ "ok")
status_ok true = (λ h. absurd (ground arith), λ h. cc ((eq_iff (chosen_status true) "ok").1 h))
status_ok false = (λ h. refl, λ h. refl)

-- A preview changes nothing but the weekly reset that is due; it lets a request proceed exactly when
-- committing the same request at that time reports "ok"; and the estimate's total is the one that the
-- commit reports.
pub preview-commit :
    (p : Platform) (m : QuotaManager) (c : Clock) (tokens : ℤ) (is_voice : Bool)
    → ((preview_request p m c tokens is_voice).0 ≡ maybe_reset m c)
      × (((preview_request p m c tokens is_voice).1.can_proceed ≡ true)
          ↔ ((record_usage m c tokens is_voice).1.status ≡ "ok"))
      × ((estimate_usage m c tokens is_voice).1.total_used
          ≡ (record_usage m c tokens is_voice).1.total_used)
unfolding preview_request estimate_usage record_usage report_of estimate_on get_limits
preview-commit p m c tokens is_voice =
    let m' = maybe_reset m c in
    let same = estimated m' tokens is_voice in (refl, rw (← same) (status_ok _), same)
