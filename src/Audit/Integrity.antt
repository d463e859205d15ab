-- ===== src/Audit/Integrity.antt =====
-- Integrity of the audit ledger (src/sia/audit/ledger.py): `append` and `verify_chain`.
use sovereignty_ai_gate.Prelude.{
  ℕ, suc, String, ◌≡◌, ◌≢◌, refl, sym, ap, ◌∙◌, ◌⊎◌, ◌↔◌, inl, inr, [], ◌∷◌, ◌++◌, Option, arith,
  ok, err, Error, audit_tampered, audit_chain_error, length, map, eq_iff,
}
use sovereignty_ai_gate.Chain.{head_hash, IsLinked, IsLinked-append, Clash, chain_binding}
use sovereignty_ai_gate.Platform.{Platform}
use sovereignty_ai_gate.Utils.{hash_object, sort_fields, insert_field}
use sovereignty_ai_gate.Utils.KeyOrder.{in_key_order}
use sovereignty_ai_gate.Utils.Json.{Value, Fields, Value-discrete, String-discrete}
use sovereignty_ai_gate.Audit.{
  LedgerEntry, AuditLedger, genesis_hash, entry_hash_of, last_hash, to_dict, compute_hash,
  new_entry, append, verify_from, verify_chain,
}

-- What the hash of an entry covers, its keys in order, and the hash.
abbrev pub sealed_document : LedgerEntry → Value × String
sealed_document e = (in_key_order (to_dict e), e.entry_hash)

-- Entries whose documents differ in more than the order of keys, and have one hash.
pub record SameHash (p : Platform) (e f : LedgerEntry) : Type 0 where
  pub differ : in_key_order (to_dict e) ≢ in_key_order (to_dict f)
  pub same_hash : hash_object p (to_dict e) ≡ hash_object p (to_dict f)

previous_hash_of :
    (e f : LedgerEntry)
    → in_key_order (to_dict e) ≡ in_key_order (to_dict f)
    → e.prev_hash ≡ f.prev_hash
unfolding to_dict in_key_order sort_fields insert_field
previous_hash_of e f doc = cc doc

module _ (p : Platform) where
  -- An entry carries the hash of its own document, and links to the hash before it.
  abbrev pub Sound : ℕ → String → LedgerEntry → Type 0
  Sound n before e = (e.entry_hash ≡ compute_hash p e) × (e.prev_hash ≡ before)

  abbrev pub IsChained : AuditLedger → Type 0
  IsChained = IsLinked entry_hash_of Sound 0 genesis_hash

  verify_from-IsLinked :
      (n : ℕ) (before : String) (es : AuditLedger)
      → (verify_from p before es ≡ ok tt) ↔ IsLinked entry_hash_of Sound n before es
  unfolding verify_from
  verify_from-IsLinked n before [] = (λ h. tt, λ h. refl)
  verify_from-IsLinked n before (e ∷ r) =
      let (there, back) = verify_from-IsLinked (suc n) e.entry_hash r in
      (
        (λ h.
            ground
              (arith, eq_iff e.entry_hash (compute_hash p e), eq_iff e.prev_hash before, there)),
        (λ h.
            ground
              (arith, eq_iff e.entry_hash (compute_hash p e), eq_iff e.prev_hash before, back h.1)),
      )

  -- `verify_chain` accepts exactly the ledgers in which every entry carries the hash of its own
  -- document and the hash of the entry before it, the first one the genesis sentinel.
  pub verify_chain-IsChained :
      (ledger : AuditLedger) → (verify_chain p ledger ≡ ok tt) ↔ IsChained ledger
  unfolding verify_chain
  verify_chain-IsChained ledger = verify_from-IsLinked 0 genesis_hash ledger

  new_entry-Sound :
      (n : ℕ) (ledger : AuditLedger) (event_type : String) (payload : Fields) (actor_id : String)
      (timestamp : Option String) (now : String)
      → Sound n (last_hash ledger) (new_entry p ledger event_type payload actor_id timestamp now)
  unfolding new_entry compute_hash to_dict
  new_entry-Sound n ledger event_type payload actor_id timestamp now = (refl, refl)

  -- A ledger that verifies still verifies after any append, which adds one entry at the end whose
  -- id is the old length and leaves the others as they are.
  pub verify_chain-append :
      (ledger : AuditLedger) (event_type : String) (payload : Fields) (actor_id : String)
      (timestamp : Option String) (now : String)
      → verify_chain p ledger ≡ ok tt
      → let after = append p ledger event_type payload actor_id timestamp now in
        (verify_chain p after ≡ ok tt)
        × (e : LedgerEntry) × (after ≡ ledger ++ e ∷ [])
        × (e.entry_id ≡ length ledger)
        × (e.event_type ≡ event_type)
        × (e.payload ≡ payload)
        × (e.actor_id ≡ actor_id)
  unfolding append new_entry
  verify_chain-append ledger event_type payload actor_id timestamp now h =
      let e = new_entry p ledger event_type payload actor_id timestamp now in
      (
        (verify_chain-IsChained (ledger ++ e ∷ [])).1 (
            IsLinked-append entry_hash_of Sound 0 (length ledger) genesis_hash ledger e
              (omega arith) ((verify_chain-IsChained ledger).0 h)
              (new_entry-Sound (length ledger) ledger event_type payload actor_id timestamp now)),
        e,
        refl,
        refl,
        refl,
        refl,
        refl,
      )

  commits :
      (n m : ℕ) (before before' : String) (e f : LedgerEntry)
      → Sound n before e
      → Sound m before' f
      → e.entry_hash ≡ f.entry_hash
      → ((sealed_document e ≡ sealed_document f) × (before ≡ before')) ⊎ SameHash p e f
  unfolding compute_hash
  commits n m before before' e f se sf same =
      elim (Value-discrete (in_key_order (to_dict e)) (in_key_order (to_dict f))) [
        | no differ ↦ inr (record { differ = differ; same_hash = sym se.0 ∙ same ∙ sf.0 })
        | yes doc ↦ inl (cc (doc, same), sym se.1 ∙ previous_hash_of e f doc ∙ sf.1)
      ]

  -- Two ledgers of one length that both verify and end in the same hash have the same documents, up
  -- to the order of their keys, and the same hashes, entry for entry; or in one place they hold two
  -- entries whose documents differ in more than that and have one `hash_object`.
  pub ledger_tamper_evident :
      (ledger other : AuditLedger)
      → length ledger ≡ length other
      → verify_chain p ledger ≡ ok tt
      → verify_chain p other ≡ ok tt
      → last_hash ledger ≡ last_hash other
      → (map sealed_document ledger ≡ map sealed_document other) ⊎ Clash (SameHash p) ledger other
  ledger_tamper_evident ledger other same h k hashes =
      elim (chain_binding entry_hash_of sealed_document Sound (SameHash p) commits 0 0 genesis_hash
        genesis_hash ledger other same ((verify_chain-IsChained ledger).0 h)
        ((verify_chain-IsChained other).0 k) hashes) [
          | inl found ↦ inl found.0
          | inr found ↦ inr found
        ]

  -- Where verification stops: the entry `bad` after the entries `good`, and why.
  pub record Stops (before : String) (es : AuditLedger) (e : Error) : Type 0 where
    pub good : AuditLedger
    pub bad : LedgerEntry
    pub rest : AuditLedger
    pub split : es ≡ good ++ bad ∷ rest
    pub accepted : verify_from p before good ≡ ok tt
    pub reason :
        ((e ≡ audit_tampered) × (bad.entry_hash ≢ compute_hash p bad))
        ⊎ ((e ≡ audit_chain_error)
            × (bad.entry_hash ≡ compute_hash p bad)
            × (bad.prev_hash ≢ head_hash entry_hash_of before good))

  verify_entry_cases :
      (before : String) (e : LedgerEntry)
      → Sound 0 before e
        ⊎ (e.entry_hash ≢ compute_hash p e)
        ⊎ ((e.entry_hash ≡ compute_hash p e) × (e.prev_hash ≢ before))
  verify_entry_cases before e = elim (String-discrete e.entry_hash (compute_hash p e)) [
    | no differ ↦ inr (inl differ)
    | yes same ↦ elim (String-discrete e.prev_hash before) [
      | no broken ↦ inr (inr (same, broken))
      | yes linked ↦ inl (same, linked)
    ]
  ]

  verify_from-Stops :
      (before : String) (es : AuditLedger) (e : Error)
      → verify_from p before es ≡ err e
      → Stops before es e
  unfolding verify_from
  verify_from-Stops before [] e h = cc
  verify_from-Stops before (x ∷ r) e h = elim (verify_entry_cases before x) [
    | inl (hashed, linked) ↦
        let s : Stops x.entry_hash r e =
          verify_from-Stops x.entry_hash r e
            (ground (arith, eq_iff x.entry_hash (compute_hash p x), eq_iff x.prev_hash before)) in
        record {
          good = x ∷ s.good;
          bad = s.bad;
          rest = s.rest;
          split = ap (λ l. x ∷ l) s.split;
          accepted = ground (
            arith,
            s.accepted,
            eq_iff x.entry_hash (compute_hash p x),
            eq_iff x.prev_hash before,
          );
          reason = s.reason;
        }
    | inr (inl differ) ↦ record {
      good = [];
      bad = x;
      rest = r;
      split = refl;
      accepted = refl;
      reason = inl (ground (arith, eq_iff x.entry_hash (compute_hash p x)), differ);
    }
    | inr (inr (hashed, broken)) ↦ record {
      good = [];
      bad = x;
      rest = r;
      split = refl;
      accepted = refl;
      reason = inr (
        ground (arith, eq_iff x.entry_hash (compute_hash p x), eq_iff x.prev_hash before),
        hashed,
        broken,
      );
    }
  ]

  -- When `verify_chain` raises, it has stopped at the first bad entry: all before it verify, and it
  -- either has not the hash of its document (`AuditTamperedError`), or has it and does not link to
  -- the entry before it (`AuditChainError`).
  pub verify_chain-Stops :
      (ledger : AuditLedger) (e : Error)
      → verify_chain p ledger ≡ err e
      → Stops genesis_hash ledger e
  unfolding verify_chain
  verify_chain-Stops ledger e h = verify_from-Stops genesis_hash ledger e h
