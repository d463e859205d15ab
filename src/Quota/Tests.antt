-- ===== src/Quota/Tests.antt =====
-- Runs of quota_manager.py.
use sovereignty_ai_gate.Prelude.{◌≡◌, ◌↔◌, refl, true, some}
use sovereignty_ai_gate.Prelude.Int.{pos, ◌+ℤ◌, ◌-ℤ◌}
use sovereignty_ai_gate.Platform.Toy.{toy}
use sovereignty_ai_gate.Quota.Preview.{preview_request, next_best_action, remaining_of}
use sovereignty_ai_gate.Quota.{
  QuotaManager, Clock, new_manager, maybe_reset, get_limits, tier_limits, added, report_of,
  record_usage, estimate_usage,
}
use sovereignty_ai_gate.Quota.Accounting.{preview-commit}

abbrev manager : QuotaManager
manager = new_manager toy "free" 0

abbrev soon : Clock
soon = record { now = 5; at_reset = 6 }

throttled : (record_usage manager soon (pos 40001) true).1.status ≡ "throttled"
unfolding record_usage new_manager maybe_reset added report_of get_limits tier_limits ◌+ℤ◌ ◌-ℤ◌
throttled = refl

almost_out :
    (next_best_action (record_usage manager soon (pos 39000) true).0 soon).1 ≡ some "reduce_context"
unfolding next_best_action remaining_of record_usage new_manager maybe_reset added report_of
    get_limits tier_limits ◌+ℤ◌ ◌-ℤ◌
almost_out = refl

preview-commit_example :
    ((preview_request toy manager soon (pos 40001) true).0 ≡ maybe_reset manager soon)
    × (((preview_request toy manager soon (pos 40001) true).1.can_proceed ≡ true)
        ↔ ((record_usage manager soon (pos 40001) true).1.status ≡ "ok"))
    × ((estimate_usage manager soon (pos 40001) true).1.total_used
        ≡ (record_usage manager soon (pos 40001) true).1.total_used)
preview-commit_example = preview-commit toy manager soon (pos 40001) true
