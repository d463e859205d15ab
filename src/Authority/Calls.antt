-- ===== src/Authority/Calls.antt =====
-- Tool and provider calls of src/sia/authority.py keep the records intact.
use sovereignty_ai_gate.Prelude.{
  ℕ, suc, String, List, [], ◌∷◌, Option, Bool, not, Result, ok, err, raise_if, value_error,
}
use sovereignty_ai_gate.Prelude.Effects.{
  Keeps, >>=-keeps, lift-keeps, reads-keeps, return-keeps, if-keeps,
}
use sovereignty_ai_gate.Platform.{Platform, Moment}
use sovereignty_ai_gate.Utils.Json.{Fields}
use sovereignty_ai_gate.Recorder.{RequestContext, ProviderEventType, tool_operation}
use sovereignty_ai_gate.Tools.{ToolExecutionContext, ToolExecutionResult, issue_context}
use sovereignty_ai_gate.Operations.{OperationRequest, operation_name, AuthorizationDecision}
use sovereignty_ai_gate.Authority.Execution.{
  Messages, ToolCall, id_of, is_mismatch, tool_evidence, context_of, log_tool, after_run,
  run_authorized, after_decision, execute_tool_authorized,
}
use sovereignty_ai_gate.Authority.Providers.{
  AiProvider, is_other, create_context, log_provider, read_all, after_call, call_authorized,
  decided, call_provider_authorized,
}
use sovereignty_ai_gate.Authority.Invariant.{
  IsIntact, log-keeps, require_initialized-keeps, authorize_operation-keeps,
}
use sovereignty_ai_gate.Authority.Preservation.{read_memory-keeps}

module _ (p : Platform) (say : Messages) (clock : ℕ → Moment) (request : OperationRequest)
    (executor : ToolExecutionContext → Result ToolExecutionResult) (call : ToolCall) where
  log_tool-keeps :
      (now : Moment) (event_type : String) (d : AuthorizationDecision) (verdict status : String)
      (reason : Option String) (timestamp : String)
      → Keeps (IsIntact p) (
          log_tool p say clock request executor call now event_type d verdict status reason
            timestamp)
  unfolding log_tool
  log_tool-keeps now event_type d verdict status reason timestamp =
      >>=-keeps (IsIntact p) (reads-keeps (IsIntact p) (λ s. s.owner_id)) (λ owner_id.
        log-keeps p now (
          tool_operation owner_id event_type
            (tool_evidence p say (clock 0) request call d verdict status reason timestamp)))

  after_run-keeps :
      (d : AuthorizationDecision) (m : Result ToolExecutionResult)
      → Keeps (IsIntact p) (after_run p say clock request executor call d m)
  unfolding after_run
  after_run-keeps d (err e) =
      >>=-keeps (IsIntact p) (log_tool-keeps _ _ d _ _ _ _) (λ _. lift-keeps (IsIntact p) (err e))
  after_run-keeps d (ok r) =
      >>=-keeps (IsIntact p) (log_tool-keeps _ _ d _ _ _ _) (λ _. return-keeps (IsIntact p) _)

  after_decision-keeps :
      (d : AuthorizationDecision)
      → Keeps (IsIntact p) (after_decision p say clock request executor call d)
  unfolding after_decision run_authorized
  after_decision-keeps d =
      if-keeps (IsIntact p) (not d.allowed)
        (>>=-keeps (IsIntact p) (log_tool-keeps _ _ d _ _ _ _) (λ _. return-keeps (IsIntact p) _))
        (if-keeps (IsIntact p) (is_mismatch (id_of request.capability) d.capability_id)
          (>>=-keeps (IsIntact p) (log_tool-keeps _ _ d _ _ _ _) (λ _. return-keeps (IsIntact p) _))
          (>>=-keeps (IsIntact p)
            (lift-keeps (IsIntact p) (issue_context (context_of p say (clock 0) request call d)))
            (λ ctx.
              >>=-keeps (IsIntact p) (log_tool-keeps _ _ d _ _ _ _)
                (λ _. after_run-keeps d (executor ctx)))))

  pub execute_tool_authorized-keeps :
      Keeps (IsIntact p) (execute_tool_authorized p say clock request executor call)
  unfolding execute_tool_authorized
  execute_tool_authorized-keeps = >>=-keeps (IsIntact p) (require_initialized-keeps p) (λ _.
      >>=-keeps (IsIntact p) (authorize_operation-keeps p (clock 1) request) after_decision-keeps)

module _ (p : Platform) where
  log_provider-keeps :
      (now : Moment) (t : ProviderEventType) (ctx : RequestContext)
      (provider_id code category : Option String) (retryable : Option Bool)
      → Keeps (IsIntact p) (log_provider p now t ctx provider_id code category retryable)
  unfolding log_provider
  log_provider-keeps now t ctx provider_id code category retryable = log-keeps p now _

  read_all-keeps :
      (clock : ℕ → Moment) (i : ℕ) (provider_id : String) (ids : List String)
      → Keeps (IsIntact p) (read_all p clock i provider_id ids)
  unfolding read_all
  read_all-keeps clock i provider_id [] = return-keeps (IsIntact p) []
  read_all-keeps clock i provider_id (record_id ∷ ids) =
      >>=-keeps (IsIntact p) (read_memory-keeps p (clock i) record_id provider_id) (λ r.
        >>=-keeps (IsIntact p) (read_all-keeps clock (suc i) provider_id ids)
          (λ rs. return-keeps (IsIntact p) (r ∷ rs)))

module _ (p : Platform) (say : Messages) (clock : ℕ → Moment) (request : OperationRequest)
    (provider : AiProvider) (record_ids : List String) where
  after_call-keeps :
      (ctx : RequestContext) (selected : AiProvider) (d : AuthorizationDecision) (m : Result Fields)
      → Keeps (IsIntact p) (after_call p say clock request provider record_ids ctx selected d m)
  unfolding after_call
  after_call-keeps ctx selected d (err e) =
      >>=-keeps (IsIntact p) (log_provider-keeps p _ _ ctx _ _ _ _)
        (λ _. lift-keeps (IsIntact p) (err e))
  after_call-keeps ctx selected d (ok r) =
      >>=-keeps (IsIntact p) (log_provider-keeps p _ _ ctx _ _ _ _)
        (λ _. return-keeps (IsIntact p) _)

  call_authorized-keeps :
      (ctx : RequestContext) (d : AuthorizationDecision)
      → Keeps (IsIntact p) (call_authorized p say clock request provider record_ids ctx d)
  unfolding call_authorized
  call_authorized-keeps ctx d =
      >>=-keeps (IsIntact p) (read_all-keeps p clock 4 provider.provider_id record_ids) (λ records.
        >>=-keeps (IsIntact p) (lift-keeps (IsIntact p) _) (λ packet.
          >>=-keeps (IsIntact p) (log_provider-keeps p _ _ _ _ _ _ _) (λ _.
            >>=-keeps (IsIntact p) (lift-keeps (IsIntact p) _) (λ selected.
              >>=-keeps (IsIntact p) (log_provider-keeps p _ _ _ _ _ _ _)
                (λ _. after_call-keeps _ selected d (selected.execute packet))))))

  decided-keeps :
      (ctx : RequestContext) (d : AuthorizationDecision)
      → Keeps (IsIntact p) (decided p say clock request provider record_ids ctx d)
  unfolding decided
  decided-keeps ctx d = if-keeps (IsIntact p) d.allowed (call_authorized-keeps _ d) (
      >>=-keeps (IsIntact p) (log_provider-keeps p _ _ ctx _ _ _ _)
        (λ _. return-keeps (IsIntact p) _))

  pub call_provider_authorized-keeps :
      Keeps (IsIntact p) (call_provider_authorized p say clock request provider record_ids)
  unfolding call_provider_authorized
  call_provider_authorized-keeps = >>=-keeps (IsIntact p) (require_initialized-keeps p) (λ _.
      >>=-keeps (IsIntact p)
        (lift-keeps (IsIntact p)
          (raise_if (is_other request.provider_id provider.provider_id) value_error))
        (λ _. >>=-keeps (IsIntact p) (reads-keeps (IsIntact p) (λ s. s.owner_id)) (λ owner_id.
          >>=-keeps (IsIntact p) (authorize_operation-keeps p (clock 2) request) (λ d.
            decided-keeps
              (create_context (clock 0).uuid (clock 1).uuid owner_id (operation_name request)
                (id_of request.capability) (clock 0).text)
              d))))
