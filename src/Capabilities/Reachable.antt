-- ===== src/Capabilities/Reachable.antt =====
-- The managers of src/sia/capability_manager.py that calls reach from a new one.
use sovereignty_ai_gate.Prelude.{String, ◌≡◌, Option, ok}
use sovereignty_ai_gate.Platform.{Platform}
use sovereignty_ai_gate.Audit.{AuditLedger}
use sovereignty_ai_gate.Delegation.{Authorizer}
use sovereignty_ai_gate.Capabilities.{CapabilityManager}
use sovereignty_ai_gate.Capabilities.WellFormed.{
  IsWellFormed, new_manager, new_manager-IsWellFormed, issue-IsWellFormed, revoke-IsWellFormed,
  authorize-IsWellFormed,
}
use sovereignty_ai_gate.Capabilities.Revocation.{
  Step, issued, revoked, evaluated, Steps, here, next,
}

module _ (p : Platform) where
  Step-IsWellFormed : {m m' : CapabilityManager} → Step p m m' → IsWellFormed m → IsWellFormed m'
  Step-IsWellFormed (issued {m} {m'} now r h) w = issue-IsWellFormed p now m m' r h w
  Step-IsWellFormed (revoked {m} {m'} now id h) w = revoke-IsWellFormed p now m m' id h w
  Step-IsWellFormed (evaluated {m} {m'} now r d h) w = authorize-IsWellFormed p now m m' r d h w

  -- In every manager that calls of `issue`, `revoke` and `authorize` that return, at any times, reach
  -- from a new one, on an authorizer of its own or one given, each grant's token is on the heap under the grant's id, no deeper than the
  -- maximum, and is the object that the authorizer has for that id.
  pub Reachable-IsWellFormed :
      (owner : String) (authorizer : Option Authorizer) (ledger : Option AuditLedger)
      {start m : CapabilityManager}
      → new_manager owner authorizer ledger ≡ ok start
      → Steps p start m
      → IsWellFormed m
  Reachable-IsWellFormed owner authorizer ledger created here =
      new_manager-IsWellFormed owner authorizer ledger created
  Reachable-IsWellFormed owner authorizer ledger created (next r s) =
      Step-IsWellFormed s (Reachable-IsWellFormed owner authorizer ledger created r)
