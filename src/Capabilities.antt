-- ===== src/Capabilities.antt =====
-- src/sia/capability_manager.py: issuing, revoking and evaluating capabilities, with audit records.
-- A grant holds the token object that the authorizer holds too, as its place on the heap. The
-- manager's `_record` writes to the recorder's ledger, where there is one.
pub mod Access
pub mod Inversion
pub mod WellFormed
pub mod Revocation
pub mod Reachable
pub mod Evaluation
pub mod Soundness
mod Tests
use sovereignty_ai_gate.Prelude.{
  ℕ, ◌+◌, String, Bool, true, false, not, ◌&&◌, ◌||◌, List, [], ◌∷◌, ◌++◌, Option, none, some,
  Result, ok, err, ◌>>=◌, ◌>>◌, raise_if, require, Error, delegation_invalid, delegation_expired,
  delegation_revoked, delegation_scope, length, contains, Dict, lookup, insert, has_key, str_eq,
  if◌then◌else◌,
}
use sovereignty_ai_gate.Platform.{Platform}
use sovereignty_ai_gate.Utils.Json.{
  Value, null, bool, str, arr, Fields, end, field, optional, texts,
}
use sovereignty_ai_gate.Utils.{sort_texts}
use sovereignty_ai_gate.Audit
use sovereignty_ai_gate.Audit.{AuditLedger, LedgerEntry}
use sovereignty_ai_gate.Delegation
use sovereignty_ai_gate.Delegation.{DelegationToken, Authorizer, deref, is_valid}

pub record CapabilityGrant : Type 0 where
  pub token : ℕ
  pub resource_id : Option String
  pub constraints : Fields

pub record CapabilityDecision : Type 0 where
  pub allowed : Bool
  pub capability_id : String
  pub subject_id : String
  pub action : String
  pub resource_id : Option String
  pub reason_code : String
  pub reason : String
  pub evidence_sequence : Option ℕ

pub record CapabilityManager : Type 0 where
  pub owner_identity : String
  pub authorizer : Authorizer
  pub ledger : Option AuditLedger
  pub grants : Dict CapabilityGrant

-- `list(dict.fromkeys(scope))`: the first of equal texts is kept.
without_text : String → List String → List String
without_text s [] = []
without_text s (x ∷ xs) = let rest = without_text s xs in if str_eq s x then rest else x ∷ rest

unfoldable pub from_keys : List String → List String
unfolding without_text
from_keys [] = []
from_keys (x ∷ xs) = x ∷ without_text x (from_keys xs)

-- `not scope`
unfoldable pub is_empty : List String → Bool
is_empty [] = true
is_empty (x ∷ xs) = false

-- `_get`
unfoldable pub get : CapabilityManager → String → Result CapabilityGrant
get m capability_id = elim (lookup capability_id m.grants) [
  | none ↦ err delegation_invalid
  | some g ↦ ok g
]

-- The time of a call: the clock's reading, and its text in the ledger's and in a token's form.
pub record Now : Type 0 where
  pub instant : ℕ
  pub text : String

-- What a parent adds to a new grant: the grantor, the depth and the scope that bounds it.
pub record Parent : Type 0 where
  pub grantor_id : String
  pub depth : ℕ
  pub scope : Option (List String)

module _ (p : Platform) (now : Now) where
  -- `_record`: the manager after it, and the new entry's id.
  unfoldable pub record_event : CapabilityManager → String → Fields → CapabilityManager × Option ℕ
  record_event m event_type payload = elim m.ledger [
    | none ↦ (m, none)
    | some ledger ↦ (
      record m {
        ledger =
            some
              (Audit.append p ledger event_type payload m.owner_identity (some now.text) now.text);
      },
      some (length ledger),
    )
  ]

  unfoldable pub parent_of : CapabilityManager → String → Option String → Result Parent
  unfolding get
  parent_of m subject_id none =
      ok (record { grantor_id = m.owner_identity; depth = 0; scope = none })
  parent_of m subject_id (some parent_capability_id) = get m parent_capability_id >>= λ parent.
      deref m.authorizer.heap parent.token >>= λ token.
      (if str_eq token.grantee_id m.owner_identity then ok true else is_valid p now.instant token)
      >>= λ usable.
          raise_if (not usable) delegation_invalid
          >> raise_if
              (not (str_eq token.grantee_id subject_id) && str_eq subject_id m.owner_identity)
              delegation_scope
          >> ok (record {
            grantor_id = token.grantee_id;
            depth = token.depth + 1;
            scope = some token.scope;
          })

-- The arguments of `issue`.
pub record IssueRequest : Type 0 where
  pub capability_id : String
  pub subject_id : String
  pub scope : List String
  pub resource_id : Option String
  pub expires_at : Option String
  pub parent_capability_id : Option String
  pub constraints : Fields

-- The token that `issue` creates.
unfoldable pub new_token : Now → IssueRequest → Parent → DelegationToken
new_token now r parent = record {
  token_id = r.capability_id;
  grantor_id = parent.grantor_id;
  grantee_id = r.subject_id;
  scope = from_keys r.scope;
  issued_at = now.text;
  expires_at = r.expires_at;
  depth = parent.depth;
  revoked = false;
  parent_id = r.parent_capability_id;
  schema_version = "1.0";
}

unfoldable pub issued_payload : IssueRequest → Fields
issued_payload r = field "capability_id" (str r.capability_id) (
    field "subject_id" (str r.subject_id) (
      field "resource_id" (optional r.resource_id) (
        field "scope" (arr (texts (sort_texts (from_keys r.scope)))) (
          field "parent_capability_id" (optional r.parent_capability_id)
            (field "expires_at" (optional r.expires_at) end)))))

unfoldable pub revoked_payload : String → String → Option String → Fields
revoked_payload capability_id subject_id resource_id =
    field "capability_id" (str capability_id)
      (field "subject_id" (str subject_id) (field "resource_id" (optional resource_id) end))

-- `self._grants[capability_id] = grant`, once the authorizer has taken the token.
unfoldable pub store_grant : CapabilityManager → IssueRequest → Authorizer → ℕ → CapabilityManager
store_grant m r authorizer place = record m {
  authorizer = authorizer;
  grants =
      insert r.capability_id
        (record { token = place; resource_id = r.resource_id; constraints = r.constraints })
        m.grants;
}

module _ (p : Platform) (now : Now) where
  -- `CapabilityManager.issue`, which returns the grant it has stored.
  unfoldable pub issue : CapabilityManager → IssueRequest → Result CapabilityManager
  unfolding parent_of record_event new_token store_grant
  issue m r = do
    raise_if (str_eq r.capability_id "" || str_eq r.subject_id "") delegation_invalid
    raise_if (is_empty r.scope) delegation_invalid
    raise_if (has_key r.capability_id m.grants) delegation_invalid
    parent ← parent_of p now m r.subject_id r.parent_capability_id
    issued ← Delegation.issue m.authorizer (new_token now r parent) parent.scope
    ok
        (record_event p now (store_grant m r issued.0 issued.1) "capability.issued"
          (issued_payload r)).0

  -- `CapabilityManager.revoke`
  unfoldable pub revoke : CapabilityManager → String → Result CapabilityManager
  unfolding get record_event
  revoke m capability_id = get m capability_id >>= λ grant.
      Delegation.revoke m.authorizer capability_id >>= λ authorizer.
      deref authorizer.heap grant.token >>= λ token.
      ok
        (record_event p now (record m { authorizer = authorizer }) "capability.revoked"
          (revoked_payload capability_id token.grantee_id grant.resource_id)).0
