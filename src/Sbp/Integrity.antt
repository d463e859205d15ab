-- ===== src/Sbp/Integrity.antt =====
-- Integrity of the branch audit chain (src/sbp/audit.py).
use sovereignty_ai_gate.Prelude.{
  ℕ, suc, String, ◌≡◌, ◌≢◌, ◌↔◌, ◌⊎◌, inl, inr, refl, sym, ◌∙◌, Bool, true, false, not, List, [],
  ◌∷◌, ◌++◌, map, arith, ok, raise_if-eq-ok, ok-injective, value_error, length, str_eq, eq_iff,
  ◌==◌, if◌then◌else◌,
}
use sovereignty_ai_gate.Chain.{head_hash, IsLinked, IsLinked-append, Clash, chain_binding}
use sovereignty_ai_gate.Platform.{Platform}
use sovereignty_ai_gate.Trust.{TrustBackend, IsSigner}
use sovereignty_ai_gate.Audit.{genesis_hash}
use sovereignty_ai_gate.Utils.Json.{Value-discrete}
use sovereignty_ai_gate.Sbp.{
  AuditEntry, AuditChain, EntryRequest, hash_of_entry, entry_fields, signed_document,
  document_bytes, hash_entry, draft, sealed, append, verify_from, verify_integrity,
}

-- Entries with different signed documents or signatures, and one hash.
pub record SameHash (p : Platform) (e f : AuditEntry) : Type 0 where
  pub differ : signed_document e ≢ signed_document f
  pub same_hash : hash_entry p e ≡ hash_entry p f

module _ (p : Platform) (root : TrustBackend) (branch_id : String) where
  abbrev pub Sound : ℕ → String → AuditEntry → Type 0
  Sound sequence before e =
      (e.sequence ≡ sequence)
      × (e.branch_id ≡ branch_id)
      × (e.previous_hash ≡ before)
      × (root.verify (document_bytes p e) e.signature ≡ true)
      × (e.entry_hash ≡ hash_entry p e)

  five_tests :
      (a b c d e rest : Bool)
      → ((if not a
            then false
            else if not b
            then false
            else if not c
            then false
            else if not d
            then false
            else if not e
            then false
            else rest)
          ≡ true)
        ↔ ((a ≡ true) × (b ≡ true) × (c ≡ true) × (d ≡ true) × (e ≡ true) × (rest ≡ true))
  five_tests a b c d e rest = ground arith

  entries-IsLinked :
      (n : ℕ) (before : String) (es : List AuditEntry)
      → (verify_from p root branch_id n before es ≡ true) ↔ IsLinked hash_of_entry Sound n before es
  unfolding verify_from
  entries-IsLinked n before [] = (λ h. tt, λ h. refl)
  entries-IsLinked n before (e ∷ r) =
      let (there, back) = entries-IsLinked (suc n) e.entry_hash r in
      let tests =
        five_tests (e.sequence == n) (str_eq e.branch_id branch_id) (str_eq e.previous_hash before)
          (root.verify (document_bytes p e) e.signature) (str_eq e.entry_hash (hash_entry p e))
          (verify_from p root branch_id (suc n) e.entry_hash r) in
      (
        λ h.
            let (a, b, c, d, k, rest) = tests.0 h in
            ((ground arith, (eq_iff _ _).0 b, (eq_iff _ _).0 c, d, (eq_iff _ _).0 k), there rest),
        λ ((a, b, c, d, k), rest).
            tests.1
              (ground arith, (eq_iff _ _).1 b, (eq_iff _ _).1 c, d, (eq_iff _ _).1 k, back rest),
      )

  entry_commits :
      (n m : ℕ) (before before' : String) (e f : AuditEntry)
      → Sound n before e
      → Sound m before' f
      → e.entry_hash ≡ f.entry_hash
      → ((signed_document e ≡ signed_document f) × (before ≡ before')) ⊎ SameHash p e f
  entry_commits n m before before' e f (a, b, c, d, k) (a', b', c', d', k') same =
      elim (Value-discrete (signed_document e) (signed_document f)) [
        | no differ ↦ inr (record { differ = differ; same_hash = sym k ∙ same ∙ k' })
        | yes doc ↦
            let previous : e.previous_hash ≡ f.previous_hash =
              unfold signed_document entry_fields in cc doc in
            inl (doc, sym c ∙ previous ∙ c')
      ]

module _ (p : Platform) where
  abbrev pub IsChained : AuditChain → Type 0
  IsChained c = IsLinked hash_of_entry (Sound p c.root c.branch_id) 0 genesis_hash c.entries

  chain-IsChained : (c : AuditChain) → (verify_integrity p c ≡ true) ↔ IsChained c
  unfolding verify_integrity
  chain-IsChained c = entries-IsLinked p c.root c.branch_id 0 genesis_hash c.entries

  -- Where the root's signatures verify, a branch's chain that verifies still verifies after any append
  -- that returns, which adds at the end one entry, of the chain's branch and the given actor, action
  -- and object, and keeps the others.
  pub append-verify_integrity :
      (c : AuditChain) (r : EntryRequest) (now uuid : String) (after : AuditChain)
      → IsSigner c.root
      → append p c r now uuid ≡ ok after
      → verify_integrity p c ≡ true
      → (verify_integrity p after ≡ true)
        × (e : AuditEntry) × (after.entries ≡ c.entries ++ e ∷ [])
        × (e.branch_id ≡ c.branch_id)
        × (e.actor_id ≡ r.actor_id)
        × (e.action ≡ r.action)
        × (e.object_id ≡ r.object_id)
  unfolding append draft sealed hash_entry document_bytes signed_document entry_fields
  append-verify_integrity c r now uuid after signer h valid =
      let (named, h1) = raise_if-eq-ok (str_eq r.action "") value_error _ h in
      let e = sealed p c.root (draft p c r now uuid) in
      let c' : AuditChain = record c { entries = c.entries ++ e ∷ [] } in
      rw (← ok-injective h1) (
        (chain-IsChained c').1 (
            IsLinked-append hash_of_entry (Sound p c.root c.branch_id) 0 (length c.entries)
              genesis_hash c.entries e (omega arith) ((chain-IsChained c).0 valid)
              (refl, refl, refl, signer.accepts (document_bytes p (draft p c r now uuid)), refl)),
        e,
        refl,
        refl,
        refl,
        refl,
        refl,
      )

  -- Two chains of one root and branch with the same number of entries, which both verify and end in
  -- the same entry hash, agree in every signed document and signature; or in one place they hold
  -- two entries that differ there and have one hash.
  pub branch_tamper_evident :
      (c c' : AuditChain)
      → c'.root ≡ c.root
      → c'.branch_id ≡ c.branch_id
      → length c.entries ≡ length c'.entries
      → verify_integrity p c ≡ true
      → verify_integrity p c' ≡ true
      → head_hash hash_of_entry genesis_hash c.entries
        ≡ head_hash hash_of_entry genesis_hash c'.entries
      → (map signed_document c.entries ≡ map signed_document c'.entries)
        ⊎ Clash (SameHash p) c.entries c'.entries
  branch_tamper_evident c c' root branch same h k hashes =
      elim (chain_binding hash_of_entry signed_document (Sound p c.root c.branch_id) (SameHash p)
        (entry_commits p c.root c.branch_id) 0 0 genesis_hash genesis_hash c.entries c'.entries same
        ((chain-IsChained c).0 h) (rw (← root, ← branch) ((chain-IsChained c').0 k)) hashes) [
          | inl found ↦ inl found.0
          | inr found ↦ inr found
        ]
