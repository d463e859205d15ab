-- ===== src/Authority/Guarded.antt =====
-- An authority of src/sia/authority.py that is not initialized.
use sovereignty_ai_gate.Prelude.{◌≡◌, refl, Bool, true, false}
use sovereignty_ai_gate.Platform.{Platform}
use sovereignty_ai_gate.Authority.{
  SovereignAuthority, require_initialized, register_boundary, issue_delegation, revoke_delegation,
  store_memory, read_memory, create_export, load_import, enforce_policy,
}
use sovereignty_ai_gate.Authority.Authorized.{
  authorize_operation, store_memory_authorized, read_memory_authorized, create_export_authorized,
  load_import_authorized,
}
use sovereignty_ai_gate.Authority.Execution.{Messages, execute_tool_authorized}
use sovereignty_ai_gate.Authority.Providers.{call_provider_authorized}
use sovereignty_ai_gate.Authority.Reachable.{
  Step, initializes, registers, delegates, revokes, stores, stores_authorized, reads_memory,
  reads_authorized, exports, exports_authorized, imports, imports_authorized, enforces, authorizes,
  executes, calls,
}

module _ (p : Platform) (say : Messages) where
  -- The step is a call of `initialize`.
  abbrev pub is_initialize : {s t : SovereignAuthority} → Step p say s t → Bool
  is_initialize (initializes now) = true
  is_initialize (registers now b m k sc) = false
  is_initialize (delegates now t ps) = false
  is_initialize (revokes now t) = false
  is_initialize (stores now r) = false
  is_initialize (stores_authorized clock q r) = false
  is_initialize (reads_memory now r m) = false
  is_initialize (reads_authorized clock q r m) = false
  is_initialize (exports made now b l g k) = false
  is_initialize (exports_authorized clock q b l g k) = false
  is_initialize (imports now b) = false
  is_initialize (imports_authorized clock q b) = false
  is_initialize (enforces q) = false
  is_initialize (authorizes now q) = false
  is_initialize (executes clock q x c) = false
  is_initialize (calls clock q v ids) = false

  -- Before `initialize`, no call of any other operation changes the authority.
  pub uninitialized_inert :
      (s t : SovereignAuthority) (step : Step p say s t)
      → s.initialized ≡ false
      → is_initialize step ≡ false
      → t ≡ s
  unfolding require_initialized register_boundary issue_delegation revoke_delegation store_memory
      read_memory create_export load_import enforce_policy authorize_operation
      store_memory_authorized read_memory_authorized create_export_authorized load_import_authorized
      execute_tool_authorized call_provider_authorized
  uninitialized_inert s _ (initializes now) h other = cc
  uninitialized_inert s _ (registers now b m k sc) h other = rw h refl
  uninitialized_inert s _ (delegates now t ps) h other = rw h refl
  uninitialized_inert s _ (revokes now t) h other = rw h refl
  uninitialized_inert s _ (stores now r) h other = rw h refl
  uninitialized_inert s _ (stores_authorized clock q r) h other = rw h refl
  uninitialized_inert s _ (reads_memory now r m) h other = rw h refl
  uninitialized_inert s _ (reads_authorized clock q r m) h other = rw h refl
  uninitialized_inert s _ (exports made now b l g k) h other = rw h refl
  uninitialized_inert s _ (exports_authorized clock q b l g k) h other = rw h refl
  uninitialized_inert s _ (imports now b) h other = rw h refl
  uninitialized_inert s _ (imports_authorized clock q b) h other = rw h refl
  uninitialized_inert s _ (enforces q) h other = rw h refl
  uninitialized_inert s _ (authorizes now q) h other = rw h refl
  uninitialized_inert s _ (executes clock q x c) h other = rw h refl
  uninitialized_inert s _ (calls clock q v ids) h other = rw h refl
