-- ===== src/Authority/Consent.antt =====
-- Whose memory a provider call of src/sia/authority.py reads.
use sovereignty_ai_gate.Prelude.{
  ℕ, suc, String, ◌≡◌, refl, ap, sym, ◌∙◌, true, List, [], ◌∷◌, some, inl, inr, Bool-cases, All,
  Dict, lookup, length, ok, require-eq-ok, key_error, ok-injective,
}
use sovereignty_ai_gate.Prelude.Effects.{◌>>=◌, >>=-returned, return}
use sovereignty_ai_gate.Platform.{Platform, Moment}
use sovereignty_ai_gate.Memory.{MemoryRecord, has_consent, assert_read_access}
use sovereignty_ai_gate.Authority.{
  SovereignAuthority, log, require_initialized, find_record, access_record, read_memory,
}
use sovereignty_ai_gate.Authority.Providers.{read_all}

-- A record that is stored and that its owner lets the model read.
pub record Consented (memory : Dict MemoryRecord) (model_id : String) (r : MemoryRecord)
    : Type 0 where
  pub record_id : String
  pub stored : lookup record_id memory ≡ some r
  pub consented : has_consent r model_id ≡ true

module _ (p : Platform) where
  access_record-Consented :
      (now : Moment) (record_id model_id : String) (r r' : MemoryRecord) (s t : SovereignAuthority)
      → access_record p now record_id model_id r s ≡ (t, ok r')
      → (r' ≡ r) × (t.memory ≡ s.memory) × (has_consent r model_id ≡ true)
  unfolding access_record assert_read_access log
  access_record-Consented now record_id model_id r r' s t h =
      elim (Bool-cases (has_consent r model_id)) [
        | inl consented ↦
            let h' = rw consented at h in
            (sym (ok-injective (ap (λ x. x.1) h')), ap (λ x. x.0.memory) (sym h'), consented)
        | inr refused ↦ let h' = rw refused at h in absurd (cc h')
      ]

  found-some :
      (record_id : String) (s t : SovereignAuthority) (r : MemoryRecord)
      → find_record p record_id s ≡ (t, ok r)
      → (t ≡ s) × (lookup record_id s.memory ≡ some r)
  unfolding find_record
  found-some record_id s t r h =
      (sym (ap (λ x. x.0) h), require-eq-ok key_error _ (ap (λ x. x.1) h))

  unchanged : (s t : SovereignAuthority) → require_initialized s ≡ (t, ok tt) → t ≡ s
  unfolding require_initialized
  unchanged s t h = sym (ap (λ x. x.0) h)

  read_memory-Consented :
      (now : Moment) (record_id model_id : String) (s t : SovereignAuthority) (r : MemoryRecord)
      → read_memory p now record_id model_id s ≡ (t, ok r)
      → (t.memory ≡ s.memory) × Consented s.memory model_id r
  unfolding read_memory
  read_memory-Consented now record_id model_id s t r h =
      let (s1, _, ready, h1) =
        >>=-returned require_initialized
          (λ _. find_record p record_id >>= access_record p now record_id model_id) s h in
      let (s2, found, looked, h2) =
        >>=-returned (find_record p record_id) (access_record p now record_id model_id) s1 h1 in
      let (same2, stored) = found-some record_id s1 s2 found looked in
      let (same, kept, consented) =
        access_record-Consented now record_id model_id found r s2 t h2 in
      let same1 : s1 ≡ s = unchanged s s1 ready in
      (
        kept ∙ ap (λ x. x.memory) (same2 ∙ same1),
        record {
          record_id = record_id;
          stored = ap (λ x. lookup record_id x.memory) (sym same1) ∙ stored ∙ ap some (sym same);
          consented = ap (λ x. has_consent x model_id) same ∙ consented;
        },
      )

  -- The records that a provider call reads for its packet are as many as were asked for, and each is
  -- stored and consented to for the provider.
  pub read_all-Consented :
      (clock : ℕ → Moment) (i : ℕ) (provider_id : String) (ids : List String)
      (s t : SovereignAuthority) (rs : List MemoryRecord)
      → read_all p clock i provider_id ids s ≡ (t, ok rs)
      → (t.memory ≡ s.memory)
        × (length rs ≡ length ids)
        × All (λ (r : MemoryRecord). Consented s.memory provider_id r) rs
  unfolding read_all
  read_all-Consented clock i provider_id [] s t rs h =
      let none_read : rs ≡ [] = sym (ok-injective (ap (λ x. x.1) h)) in
      rw none_read (ap (λ x. x.0.memory) (sym h), refl, tt)
  read_all-Consented clock i provider_id (id ∷ ids) s t rs h =
      let (s1, r, one, h1) =
        >>=-returned (read_memory p (clock i) id provider_id)
          (λ r. read_all p clock (suc i) provider_id ids >>= λ more. return (r ∷ more)) s h in
      let (s2, more, others, h2) =
        >>=-returned (read_all p clock (suc i) provider_id ids) (λ more. return (r ∷ more)) s1 h1 in
      let (kept, consented) = read_memory-Consented (clock i) id provider_id s s1 r one in
      let (still, as_many, all) =
        read_all-Consented clock (suc i) provider_id ids s1 s2 more others in
      let listed : rs ≡ r ∷ more = sym (ok-injective (ap (λ x. x.1) h2)) in
      rw listed
        (ap (λ x. x.0.memory) (sym h2) ∙ still ∙ kept, ap suc as_many, (consented, rw kept at all))
