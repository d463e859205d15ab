-- ===== src/Authority/Providers.antt =====
-- `call_provider_authorized` of src/sia/authority.py, with the router of src/sia/providers/router.py: one
-- provider call and its lifecycle events.
use sovereignty_ai_gate.Prelude.{
  ℕ, suc, String, Bool, true, false, not, List, [], ◌∷◌, ◌+◌, length, map, Option, none, some,
  Result, ok, err, raise_if, value_error, registry_not_found, require, str_eq, lookup, Dict,
  if◌then◌else◌,
}
use sovereignty_ai_gate.Prelude.Int.{pos}
use sovereignty_ai_gate.Prelude.Effects.{◌>>=◌, ◌>>◌, return, reads, lift}
use sovereignty_ai_gate.Platform.{Platform, Moment}
use sovereignty_ai_gate.Utils.Json.{Fields}
use sovereignty_ai_gate.Memory.{MemoryRecord}
use sovereignty_ai_gate.Recorder.{
  RequestContext, advance, ProviderEventType, requested, approved, completed, failed,
  provider_event,
}
use sovereignty_ai_gate.Operations.{
  OperationRequest, operation_name, AuthorizationDecision, AuthorizedContextPacket,
}
use sovereignty_ai_gate.Firewall.{memory_record, build_context_packet}
use sovereignty_ai_gate.Authority.{Act, require_initialized, log, read_memory}
use sovereignty_ai_gate.Authority.Authorized.{authorize_operation}
use sovereignty_ai_gate.Authority.Execution.{Messages, id_of}

-- `AIProvider`
pub record AiProvider : Type 0 where
  pub provider_id : String
  pub execute : AuthorizedContextPacket → Result Fields

-- `request.provider_id != provider.provider_id`
unfoldable pub is_other : Option String → String → Bool
is_other none provider_id = true
is_other (some wanted) provider_id = not (str_eq wanted provider_id)

-- `ProviderRouter.select` among some providers.
unfoldable pub select : Dict AiProvider → Option String → Result AiProvider
select providers none = err registry_not_found
select providers (some provider_id) =
    if str_eq provider_id ""
    then err registry_not_found
    else require registry_not_found (lookup provider_id providers)

-- `RequestContext.create`; the identifiers are new UUIDs.
unfoldable pub create_context :
    String → String → String → String → Option String → String → RequestContext
create_context request_id correlation_id owner_id operation capability_id timestamp = record {
  request_id = request_id;
  correlation_id = correlation_id;
  session_id = owner_id;
  operation = operation;
  subject_id = owner_id;
  capability_id = capability_id;
  policy_hash = "";
  timestamp = timestamp;
  authority_sequence = pos 1;
}

-- `provider_id or "unknown"`
unfoldable pub provider_or_unknown : Option String → String
provider_or_unknown none = "unknown"
provider_or_unknown (some s) = if str_eq s "" then "unknown" else s

module _ (p : Platform) where
  -- `_record_provider_event`
  unfoldable pub log_provider :
      Moment
      → ProviderEventType
      → RequestContext
      → Option String
      → Option String
      → Option String
      → Option Bool
      → Act Unit
  log_provider now event_type ctx provider_id error_code error_category retryable = log p now (
      provider_event (record {
        event_type = event_type;
        context = ctx;
        provider_id = provider_or_unknown provider_id;
        error_code = error_code;
        error_category = error_category;
        retryable = retryable;
      }))

  -- The records that the packet holds, each read in the provider's name.
  unfoldable pub read_all : (ℕ → Moment) → ℕ → String → List String → Act (List MemoryRecord)
  read_all clock i provider_id [] = return []
  read_all clock i provider_id (record_id ∷ ids) = do
    r ← read_memory p (clock i) record_id provider_id
    rs ← read_all clock (suc i) provider_id ids
    return (r ∷ rs)

module _ (p : Platform) (say : Messages) (clock : ℕ → Moment) (request : OperationRequest)
    (provider : AiProvider) (record_ids : List String) where
  abbrev pub Answer : Type 0
  Answer = AuthorizationDecision × Option Fields

  -- The reading after the records are read.
  abbrev later : ℕ → Moment
  later i = clock (4 + length record_ids + i)

  -- After the provider has answered.
  unfoldable pub after_call :
      RequestContext → AiProvider → AuthorizationDecision → Result Fields → Act Answer
  after_call ctx selected decision (err e) =
      log_provider p (later 2) failed ctx (some selected.provider_id) (some (say.code e))
        (some "execution") (some (say.retryable e))
      >> lift (err e)
  after_call ctx selected decision (ok result) =
      log_provider p (later 2) completed ctx (some selected.provider_id) none none none
      >> return (decision, some result)

  -- The call, once it is authorized.
  unfoldable pub call_authorized : RequestContext → AuthorizationDecision → Act Answer
  call_authorized ctx decision = do
    let ctx2 = advance ctx (pos 2)
    records ← read_all p clock 4 provider.provider_id record_ids
    packet ←
        lift
          (build_context_packet p request decision provider.provider_id (map memory_record records))
    log_provider p (later 0) requested ctx2 (some provider.provider_id) none none none
    selected ← lift (select ((provider.provider_id, provider) ∷ []) request.provider_id)
    log_provider p (later 1) approved (advance ctx (pos 3)) (some selected.provider_id) none none
        none
    after_call (advance ctx (pos 4)) selected decision (selected.execute packet)

  -- After the decision.
  unfoldable pub decided : RequestContext → AuthorizationDecision → Act Answer
  decided ctx decision =
      if decision.allowed
      then call_authorized
          (record ctx {
            capability_id = decision.capability_id;
            policy_hash = decision.policy_hash;
          })
          decision
      else (log_provider p (clock 3) failed ctx request.provider_id (some decision.reason_code)
            (some "authorization") (some false)
          >> return (decision, none))

  -- `call_provider_authorized`
  unfoldable pub call_provider_authorized : Act Answer
  call_provider_authorized = do
    require_initialized
    lift (raise_if (is_other request.provider_id provider.provider_id) value_error)
    owner_id ← reads (λ s. s.owner_id)
    let ctx =
        create_context (clock 0).uuid (clock 1).uuid owner_id (operation_name request)
          (id_of request.capability) (clock 0).text
    decision ← authorize_operation p (clock 2) request
    decided ctx decision
