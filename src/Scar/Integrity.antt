-- ===== src/Scar/Integrity.antt =====
-- Integrity of the SCAR ledger (src/sovereignty_core/audit/scar.py).
use sovereignty_ai_gate.Prelude.{
  ℕ, suc, String, ◌≡◌, ◌≢◌, ◌↔◌, ◌⊎◌, inl, inr, refl, sym, ap, ◌∙◌, Bool, true, false, not, ◌||◌,
  List, [], ◌∷◌, ◌++◌, map, Option, none, some, Bool-cases, arith, ok, >>=-eq-ok, raise_if-eq-ok,
  ok-injective, value_error, scar_ledger_error, length, str_eq, eq_iff, ◌==◌, if◌then◌else◌,
}
use sovereignty_ai_gate.Chain.{head_hash, IsLinked, IsLinked-append, Clash, chain_binding}
use sovereignty_ai_gate.Platform.{Platform}
use sovereignty_ai_gate.Trust
use sovereignty_ai_gate.Trust.{RootOfTrust, TrustBackend, IsSigner, verify_signature}
use sovereignty_ai_gate.Audit.{genesis_hash, text_or}
use sovereignty_ai_gate.Utils.Json.{Value, Value-discrete}
use sovereignty_ai_gate.Utils.{sort_fields, insert_field}
use sovereignty_ai_gate.Utils.KeyOrder.{in_key_order, text_at}
use sovereignty_ai_gate.Scar.{
  ScarEvent, ScarLedger, EventRequest, event_hash_of, lacks_provenance, actor_of, hashed_document,
  signed_fields, signing_document, hash_event, signing_bytes, draft, sealed, append_event,
  verify_from, verify_integrity,
}

-- An event's signed document and its signature, keys in order.
abbrev pub ordered_document : ScarEvent → Value
ordered_document e = in_key_order (hashed_document e)

-- Events whose signed documents or signatures differ in more than the order of keys, and which have one
-- hash.
pub record SameHash (p : Platform) (e f : ScarEvent) : Type 0 where
  pub differ : ordered_document e ≢ ordered_document f
  pub same_hash : hash_event p e ≡ hash_event p f

previous_hash_of :
    (e f : ScarEvent)
    → ordered_document e ≡ ordered_document f
    → e.previous_event_hash ≡ f.previous_event_hash
unfolding hashed_document signed_fields in_key_order sort_fields insert_field text_at
previous_hash_of e f doc = ap (text_at "previous_event_hash") doc

module _ (p : Platform) (root : RootOfTrust) (identity_id : String) where
  abbrev pub Sound : ℕ → String → ScarEvent → Type 0
  Sound sequence before e =
      (e.sequence ≡ sequence)
      × (e.identity_id ≡ identity_id)
      × (e.previous_event_hash ≡ before)
      × (lacks_provenance e.actor e.capability_id ≡ false)
      × (verify_signature root (signing_bytes p e) e.signature ≡ true)
      × (e.event_hash ≡ hash_event p e)

  six_tests :
      (a b c d s k rest : Bool)
      → ((if not a || not b || not c || d
            then false
            else if not s
            then false
            else if not k
            then false
            else rest)
          ≡ true)
        ↔ ((a ≡ true)
            × (b ≡ true)
            × (c ≡ true)
            × (d ≡ false)
            × (s ≡ true)
            × (k ≡ true)
            × (rest ≡ true))
  six_tests a b c d s k rest = ground arith

  verify_from-IsLinked :
      (n : ℕ) (before : String) (es : List ScarEvent)
      → (verify_from p root identity_id n before es ≡ true)
        ↔ IsLinked event_hash_of Sound n before es
  unfolding verify_from
  verify_from-IsLinked n before [] = (λ h. tt, λ h. refl)
  verify_from-IsLinked n before (e ∷ r) =
      let (there, back) = verify_from-IsLinked (suc n) e.event_hash r in
      let tests =
        six_tests (e.sequence == n) (str_eq e.identity_id identity_id)
          (str_eq e.previous_event_hash before) (lacks_provenance e.actor e.capability_id)
          (verify_signature root (signing_bytes p e) e.signature)
          (str_eq e.event_hash (hash_event p e))
          (verify_from p root identity_id (suc n) e.event_hash r) in
      (
        λ h.
            let (a, b, c, d, s, k, rest) = tests.0 h in
            (
              (ground arith, (eq_iff _ _).0 b, (eq_iff _ _).0 c, d, s, (eq_iff _ _).0 k),
              there rest,
            ),
        λ ((a, b, c, d, s, k), rest).
            tests.1
              (ground arith, (eq_iff _ _).1 b, (eq_iff _ _).1 c, d, s, (eq_iff _ _).1 k, back rest),
      )

  commits :
      (n m : ℕ) (before before' : String) (e f : ScarEvent)
      → Sound n before e
      → Sound m before' f
      → e.event_hash ≡ f.event_hash
      → ((ordered_document e ≡ ordered_document f) × (before ≡ before')) ⊎ SameHash p e f
  commits n m before before' e f (a, b, c, d, s, k) (a', b', c', d', s', k') same =
      elim (Value-discrete (ordered_document e) (ordered_document f)) [
        | no differ ↦ inr (record { differ = differ; same_hash = sym k ∙ same ∙ k' })
        | yes doc ↦ inl (doc, sym c ∙ previous_hash_of e f doc ∙ c')
      ]

given_text : (o : Option String) (default t : String) → o ≡ some t → t ≢ "" → text_or o default ≡ t
unfolding text_or
given_text none default t h n = cc
given_text (some s) default t h n = elim (Bool-cases (str_eq s "")) [
  | inl empty ↦ absurd (n (cc (h, (eq_iff s "").0 empty)))
  | inr named ↦ rw named (cc h)
]

module _ (p : Platform) where
  abbrev pub IsChained : ScarLedger → Type 0
  IsChained l =
      IsLinked event_hash_of (Sound p l.root_of_trust l.identity_id) 0 genesis_hash l.events

  -- `verify_integrity` accepts exactly the ledgers in which every event has its position as its
  -- sequence number, the ledger's identity, the hash of the event before it (the first one the
  -- genesis sentinel), a capability if its actor is a provider, a signature over its document that
  -- the device verifies, and the hash of its document and signature.
  pub verify_integrity-IsChained : (l : ScarLedger) → (verify_integrity p l ≡ true) ↔ IsChained l
  unfolding verify_integrity
  verify_integrity-IsChained l =
      verify_from-IsLinked p l.root_of_trust l.identity_id 0 genesis_hash l.events

  -- What `append_event` adds to a ledger.
  pub record Appended (l : ScarLedger) (r : EventRequest) (after : ScarLedger) : Type 0 where
    pub event : ScarEvent
    pub events : after.events ≡ l.events ++ event ∷ []
    pub same_identity : after.identity_id ≡ l.identity_id
    pub same_root : after.root_of_trust ≡ l.root_of_trust
    pub sequence : event.sequence ≡ length l.events
    pub event_type : event.event_type ≡ r.event_type
    pub actor : actor_of r.actor ≡ ok event.actor
    pub capability_id : event.capability_id ≡ r.capability_id
    pub memory_hash : event.memory_hash ≡ r.memory_hash
    pub metadata : event.metadata ≡ r.metadata
    pub timestamp : (t : String) → r.timestamp ≡ some t → t ≢ "" → event.timestamp ≡ t

  -- Where the device's signatures verify, a ledger that verifies still verifies after any append
  -- that returns, which adds at the end one event with the arguments given, a timestamp that is not
  -- empty included, and keeps the others.
  pub append_event-verify :
      (l : ScarLedger) (r : EventRequest) (now uuid : String) (after : ScarLedger)
      → IsSigner l.root_of_trust.backend
      → append_event p l r now uuid ≡ ok after
      → verify_integrity p l ≡ true
      → (verify_integrity p after ≡ true) × Appended l r after
  unfolding append_event draft sealed hash_event signing_bytes signing_document hashed_document
      signed_fields verify_signature Trust.sign
  append_event-verify l r now uuid after signer h valid =
      let (named, h1) = raise_if-eq-ok (str_eq r.event_type "") value_error _ h in
      let (actor, known, h2) = >>=-eq-ok (actor_of r.actor) _ h1 in
      let (proven, h3) =
        raise_if-eq-ok (lacks_provenance actor r.capability_id) scar_ledger_error _ h2 in
      let e = sealed p l.root_of_trust (draft p l r actor now uuid) in
      let l' : ScarLedger = record l { events = l.events ++ e ∷ [] } in
      rw (← ok-injective h3) (
        (verify_integrity-IsChained l').1 (
            IsLinked-append event_hash_of (Sound p l.root_of_trust l.identity_id) 0
              (length l.events) genesis_hash l.events e (omega arith)
              ((verify_integrity-IsChained l).0 valid)
              (
                refl,
                refl,
                refl,
                proven,
                signer.accepts (signing_bytes p (draft p l r actor now uuid)),
                refl,
              )),
        record {
          event = e;
          events = refl;
          same_identity = refl;
          same_root = refl;
          sequence = refl;
          event_type = refl;
          actor = known;
          capability_id = refl;
          memory_hash = refl;
          metadata = refl;
          timestamp = given_text r.timestamp now;
        },
      )

  -- Two ledgers of one device and identity with the same number of events, which both verify and end
  -- in the same event hash, agree in every signed document and signature, up to the order of keys; or
  -- in one place they hold two events that differ there in more than that, and have one hash.
  pub scar_tamper_evident :
      (l l' : ScarLedger)
      → l'.root_of_trust ≡ l.root_of_trust
      → l'.identity_id ≡ l.identity_id
      → length l.events ≡ length l'.events
      → verify_integrity p l ≡ true
      → verify_integrity p l' ≡ true
      → head_hash event_hash_of genesis_hash l.events
        ≡ head_hash event_hash_of genesis_hash l'.events
      → (map ordered_document l.events ≡ map ordered_document l'.events)
        ⊎ Clash (SameHash p) l.events l'.events
  scar_tamper_evident l l' root identity same h k hashes =
      elim (chain_binding event_hash_of ordered_document (Sound p l.root_of_trust l.identity_id)
        (SameHash p) (commits p l.root_of_trust l.identity_id) 0 0 genesis_hash genesis_hash
        l.events l'.events same ((verify_integrity-IsChained l).0 h)
        (rw (← root, ← identity) ((verify_integrity-IsChained l').0 k)) hashes) [
          | inl found ↦ inl found.0
          | inr found ↦ inr found
        ]
