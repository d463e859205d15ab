-- ===== src/Capabilities/Tests.antt =====
-- Runs of src/sia/capability_manager.py: one capability is issued, evaluated and revoked.
use sovereignty_ai_gate.Prelude.{
  value_error, String, ◌≡◌, refl, ◌↔◌, [], ◌∷◌, some, none, ok, err, lookup, insert, has_key,
  delegation_invalid,
}
use sovereignty_ai_gate.Platform.Toy.{toy}
use sovereignty_ai_gate.Utils.Json.{end}
use sovereignty_ai_gate.Delegation
use sovereignty_ai_gate.Delegation.{
  DelegationToken, Authorizer, no_tokens, revoke_at, get_place, deref, max_depth,
  validate_structure, validate_parent_scope,
}
use sovereignty_ai_gate.Capabilities.{
  CapabilityManager, Now, Parent, IssueRequest, new_token, issued_payload, revoked_payload,
  store_grant, record_event, issue, revoke, parent_of, get, is_empty,
}
use sovereignty_ai_gate.Capabilities.Access.{AccessRequest}
use sovereignty_ai_gate.Capabilities.WellFormed.{
  IsWellFormed, no_grants, new_manager, new_manager-IsWellFormed, issue-IsWellFormed,
}
use sovereignty_ai_gate.Capabilities.Revocation.{
  issued, revoked, here, next, revocation_final, Refuses,
}
use sovereignty_ai_gate.Capabilities.Reachable.{Reachable-IsWellFormed}
use sovereignty_ai_gate.Capabilities.Soundness.{Allows, authorize_exact}
use sovereignty_ai_gate.Capabilities.Evaluation.{Permitted}

abbrev monday : Now
monday = record { instant = 1; text = "monday" }

abbrev request : String → IssueRequest
request capability_id = record {
  capability_id = capability_id;
  subject_id = "alice";
  scope = "read" ∷ "read" ∷ [];
  resource_id = some "vault";
  expires_at = some "friday";
  parent_capability_id = none;
  constraints = end;
}

abbrev root_parent : Parent
root_parent = record { grantor_id = "owner"; depth = 0; scope = none }

abbrev start : CapabilityManager
start = no_grants "owner" no_tokens (some [])

started : new_manager "owner" none (some []) ≡ ok start
unfolding new_manager
started = refl

no_owner : new_manager "" none none ≡ err value_error
unfolding new_manager
no_owner = refl

abbrev one_token : Authorizer
one_token = record {
  heap = new_token monday (request "c1") root_parent ∷ [];
  tokens = ("c1", 0) ∷ [];
}

abbrev holding : CapabilityManager
holding =
    (record_event toy monday (store_grant start (request "c1") one_token 0) "capability.issued"
      (issued_payload (request "c1"))).0

issue_succeeds : issue toy monday start (request "c1") ≡ ok holding
unfolding issue parent_of record_event store_grant Delegation.issue validate_structure
    validate_parent_scope is_empty insert new_token has_key
issue_succeeds = refl

holding-IsWellFormed : IsWellFormed holding
holding-IsWellFormed =
    issue-IsWellFormed toy monday start holding (request "c1") issue_succeeds
      (new_manager-IsWellFormed "owner" none (some []) started)

no_second_issue : issue toy monday holding (request "c1") ≡ err delegation_invalid
unfolding issue record_event store_grant is_empty has_key insert
no_second_issue = refl

abbrev revoked_token : Authorizer
revoked_token = record one_token { heap = revoke_at one_token.heap 0 }

abbrev dropped : CapabilityManager
dropped =
    (record_event toy monday (record holding { authorizer = revoked_token }) "capability.revoked"
      (revoked_payload "c1" "alice" (some "vault"))).0

revoke_succeeds : revoke toy monday holding "c1" ≡ ok dropped
unfolding revoke get record_event store_grant Delegation.revoke get_place deref revoke_at new_token
    lookup insert
revoke_succeeds = refl

abbrev reading : AccessRequest
reading = record {
  capability_id = "c1";
  subject_id = "alice";
  action = "read";
  resource_id = some "vault";
}

Reachable-IsWellFormed_example : IsWellFormed dropped
Reachable-IsWellFormed_example = Reachable-IsWellFormed toy "owner" none (some []) started (
    next (next here (issued monday (request "c1") issue_succeeds))
      (revoked monday "c1" revoke_succeeds))

revocation_final_example : Refuses toy "c1" monday dropped reading
revocation_final_example =
    revocation_final toy "c1" monday monday dropped reading holding-IsWellFormed revoke_succeeds
      here refl

authorize_exact_example : Allows toy monday holding reading ↔ Permitted toy monday holding reading
authorize_exact_example = authorize_exact toy monday holding reading holding-IsWellFormed
