-- ===== src/Authority/Evidence.antt =====
-- What each outcome of `execute_tool_authorized` of src/sia/authority.py leaves in the records.
use sovereignty_ai_gate.Prelude.{
  ℕ, String, ◌≡◌, ◌⊎◌, inl, inr, refl, ap, ◌∙◌, true, false, not, List, [], ◌∷◌, ◌++◌, map, none,
  some, Error, Result, ok, err, arith, Bool-cases, str_eq, eq_iff, if◌then◌else◌,
}
use sovereignty_ai_gate.Prelude.Effects.{◌>>◌}
use sovereignty_ai_gate.Platform.{Platform, Moment}
use sovereignty_ai_gate.Audit.{AuditLedger, LedgerEntry, append, new_entry}
use sovereignty_ai_gate.Recorder.{AuditEvent, record_event, tool_operation, untimed}
use sovereignty_ai_gate.Tools.{ToolExecutionContext, ToolExecutionResult}
use sovereignty_ai_gate.Operations.{
  Capability, capability_record, capability_token, delegation_token, other_object, CapabilityRecord,
  OperationRequest, AuthorizationDecision,
}
use sovereignty_ai_gate.Verifier.{adapt, verify_capability}
use sovereignty_ai_gate.Adapters.{verify_identity}
use sovereignty_ai_gate.Adapters.Authorization.{Authorized}
use sovereignty_ai_gate.Authority.{SovereignAuthority, log}
use sovereignty_ai_gate.Authority.Execution.{
  Messages, ToolCall, Answer, id_of, is_mismatch, context_of, log_tool, after_run,
}

-- The types of a ledger's entries, in order.
abbrev pub trace : AuditLedger → List String
trace = map (λ (e : LedgerEntry). e.event_type)

trace-append :
    (l : AuditLedger) (e : LedgerEntry) → trace (l ++ e ∷ []) ≡ trace l ++ e.event_type ∷ []
trace-append [] e = refl
trace-append (x ∷ l) e = ap (λ t. x.event_type ∷ t) (trace-append l e)

append-two : (t : List String) (a b : String) → (t ++ a ∷ []) ++ b ∷ [] ≡ t ++ a ∷ b ∷ []
append-two [] a b = refl
append-two (x ∷ t) a b = ap (λ u. x ∷ u) (append-two t a b)

module _ (p : Platform) where
  pub one-event :
      (l : AuditLedger) (e : AuditEvent) (now : String)
      → trace (record_event p l e now) ≡ trace l ++ e.event_type ∷ []
  unfolding record_event append new_entry
  one-event l e now = trace-append l _

  two-events :
      (l : AuditLedger) (e f : AuditEvent) (now now' : String)
      → trace (record_event p (record_event p l e now) f now')
        ≡ trace l ++ e.event_type ∷ f.event_type ∷ []
  two-events l e f now now' =
      one-event (record_event p l e now) f now'
      ∙ ap (λ t. t ++ f.event_type ∷ []) (one-event l e now)
      ∙ append-two (trace l) e.event_type f.event_type

-- The id that the gate decides on is the request's.
unlike-false : (a b : String) → a ≡ b → not (str_eq a b) ≡ false
unlike-false a b e = ground (arith, (eq_iff a b).1 e)

record_mismatch :
    (a b : String) → a ≡ b → is_mismatch (if str_eq a "" then none else some a) (some b) ≡ false
unfolding is_mismatch
record_mismatch a b e = elim (Bool-cases (str_eq a "")) [
  | inl empty ↦ rw empty refl
  | inr named ↦ rw named (unlike-false a b e)
]

pub adapt-is_mismatch :
    (c : Capability) (a : CapabilityRecord)
    → adapt (some c) ≡ ok (some a)
    → is_mismatch (id_of (some c)) (some a.capability_id) ≡ false
unfolding adapt is_mismatch id_of
adapt-is_mismatch (capability_record r) a h = record_mismatch r.capability_id a.capability_id (cc h)
adapt-is_mismatch (capability_token t) a h = unlike-false t.token_id a.capability_id (cc h)
adapt-is_mismatch (delegation_token t) a h = unlike-false t.token_id a.capability_id (cc h)
adapt-is_mismatch (other_object v) a h = cc

module _ (p : Platform) (say : Messages) (clock : ℕ → Moment) (request : OperationRequest)
    (executor : ToolExecutionContext → Result ToolExecutionResult) (call : ToolCall) where
  -- The context that the executor is given on a decision.
  abbrev pub issued : AuthorizationDecision → ToolExecutionContext
  issued d = record (context_of p say (clock 0) request call d) { marker = true }

  abbrev Outcome : Type 0
  Outcome = SovereignAuthority × Result (Answer p say clock request executor call)

  -- A verified identity presents a capability, its verification raises, and the call the same.
  pub record Raised (s : SovereignAuthority) (o : Outcome) : Type 0 where
    pub error : Error
    pub known : (verify_identity s.identity request.identity).0 ≡ true
    pub raised : verify_capability p (clock 1) request ≡ err error
    pub outcome : o ≡ (s, err error)

  pub record Denied (s : SovereignAuthority) (o : Outcome) : Type 0 where
    pub decision : AuthorizationDecision
    pub refused : decision.allowed ≡ false
    pub returned : o.1 ≡ ok (decision, none)
    pub traced : trace o.0.ledger ≡ trace s.ledger ++ "tool.operation.denied" ∷ []
    pub evidence :
        Authorized p (clock 1) s.identity s.policy request s.evidence o.0.evidence decision

  -- The executor was given the issued context, and this is what it answered.
  pub record Ran (s : SovereignAuthority) (o : Outcome) (answer : Result ToolExecutionResult)
      (last : String) : Type 0 where
    pub decision : AuthorizationDecision
    pub allowed : decision.allowed ≡ true
    pub answered : executor (issued decision) ≡ answer
    pub traced : trace o.0.ledger ≡ trace s.ledger ++ "tool.operation.started" ∷ last ∷ []
    pub evidence :
        Authorized p (clock 1) s.identity s.policy request s.evidence o.0.evidence decision

  pub record Failed (s : SovereignAuthority) (o : Outcome) : Type 0 where
    pub error : Error
    pub outcome : o.1 ≡ err error
    pub run : Ran s o (err error) "tool.operation.failed"

  pub record Completed (s : SovereignAuthority) (o : Outcome) : Type 0 where
    pub result : ToolExecutionResult
    pub run : Ran s o (ok result) "tool.operation.completed"
    pub outcome : o.1 ≡ ok (run.decision, some result)

  abbrev pub ToolOutcome : SovereignAuthority → Outcome → Type 0
  ToolOutcome s o = Raised s o ⊎ Denied s o ⊎ Failed s o ⊎ Completed s o

  -- After a decision that the gate recorded in `evidence`.
  pub run-ToolOutcome :
      (s : SovereignAuthority) (evidence : _) (d : AuthorizationDecision)
      (m : Result ToolExecutionResult)
      → Authorized p (clock 1) s.identity s.policy request s.evidence evidence d
      → d.allowed ≡ true
      → executor (issued d) ≡ m
      → ToolOutcome s (
          (log_tool p say clock request executor call
                (clock 2)
                "tool.operation.started"
                d
                "authorized"
                "started"
                none
                (clock 0).text
              >> after_run p say clock request executor call d m)
            (record s { evidence = evidence }))
  unfolding after_run log_tool log tool_operation untimed
  run-ToolOutcome s evidence d (err e) a allowed answered = inr (
      inr (
        inl (record {
          error = e;
          outcome = refl;
          run = record {
            decision = d;
            allowed = allowed;
            answered = answered;
            traced = two-events p s.ledger _ _ _ _;
            evidence = a;
          };
        })))
  run-ToolOutcome s evidence d (ok r) a allowed answered = inr (
      inr (
        inr (record {
          result = r;
          run = record {
            decision = d;
            allowed = allowed;
            answered = answered;
            traced = two-events p s.ledger _ _ _ _;
            evidence = a;
          };
          outcome = refl;
        })))
