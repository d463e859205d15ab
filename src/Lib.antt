-- ===== src/Lib.antt =====
-- A verification library for the authority, audit and memory core of this repository. Paths are from
-- the repository's root.
--
-- The program guards a user's memory and tools: capabilities delegate authority, a gate decides each
-- protected operation, and hash-chained ledgers keep the evidence. The parts and their files:
--
--   Merkle         src/sovereignty_core/audit/merkle.py: trees over a log, inclusion proofs
--   Audit          src/sia/audit/ledger.py: the hash-chained audit ledger
--   Scar           src/sovereignty_core/audit/scar.py: the device-signed ledger; Scar.Records has its
--                  typed records, Scar.Attestation the signed Merkle root, Scar.Export the
--                  bundle export and the invariant assertions
--   Vault          src/sovereignty_core/vault/memory_chain.py: the chain of memory blocks
--   Delegation     src/sia/delegation/models.py and authorizer.py: tokens and their authorizer
--   Capabilities   src/sia/capability_manager.py: issue, revoke; Capabilities.Access has authorize
--   Permissions    src/sovereignty_core/permissions/capability.py; Permissions.Consent is consent.py
--   Operations     src/sia/authority_gate.py: operations, capabilities, requests, decisions, packets
--   Gate           src/sia/authority_gate.py: DefaultAuthorityGate
--   Verifier       src/sia/authority_adapters.py: CapabilityAdapter
--   Adapters       src/sia/authority_adapters.py: identity, policy and evidence, and the gate of them
--   Firewall       src/sia/authority_adapters.py: the memory firewall and the vault adapter
--   Identity       src/sovereignty_core/identity/identity.py: the owner and the devices
--   Authority      src/sia/authority.py: SovereignAuthority; Authority.Authorized has what asks the
--                  gate first, Authority.Execution tool calls, Authority.Providers provider calls
--   Recorder       src/sia/audit/recorder.py and provider_events.py, src/sia/context/request_context.py
--   Memory         src/sia/memory/: records, their schema and consent
--   Bundles        src/sia/export/ and src/sia/imports/: validators and the loader
--   Boundary       src/sia/security/boundary_registry.py: BoundaryRegistry
--   Tools          src/sia/tools/: registry, validator, audit file; Tools.Execution the executor
--   Policy         src/sia/security/authority_policy.py: rules, the first that matches decides
--   Quota          quota_manager.py and, in Quota.Preview, gate_one_quota_integration.py
--   Trust          src/sovereignty_core/identity/root_of_trust.py; Trust.Derive has derive_key
--   Sbp            src/sbp/audit.py: the signed audit chain of a branch
--   Utils          src/sia/utils/canonical.py and hashing.py; Utils.Json has the values they take
--
-- Prelude has what the parts share, Chain the theory of hash chains that the ledgers use, Platform
-- what the program takes from Python's library. The manager of Capabilities keeps its grants beside
-- a Delegation authorizer, which holds the same token objects, and writes to an Audit ledger; Scar
-- signs by Trust, records Vault blocks and Permissions tokens, and attests a Merkle root. Authority
-- holds a Boundary registry, a Delegation authorizer, memory, an Audit ledger, a Bundles loader, a
-- Scar ledger and a Vault chain; its gate is that of Gate with Adapters and Verifier as its parts.
--
-- How state and operations correspond: an object is a record, a method that changes it is a
-- function to the object after it, with `Result` where it raises; where what was done before an
-- exception matters, it is an `Effect`, a function to the state after it and the `Result`. An
-- exception is a constructor of `Error`, its message left out. Tokens that the authorizer and the
-- manager share live on a heap, and a reference is a position in it. A clock's reading and a new
-- UUID are arguments; an operation of the authority or the executor that asks for several takes a
-- function from the number of the request, and an operation of the capability manager one reading
-- for all that it asks, so a capability does not expire between the two checks of one `authorize`.
-- SHA3-512, UTF-8, JSON text, Unicode normalization, time stamps and a trust backend are
-- parameters; a theorem that relies on their documented behaviour has it as a hypothesis. A
-- theorem on tampering ends in the two records, in one place of the two logs, that differ and have
-- one hash.
--
-- Bounds and fuel: the Merkle loop runs on the length of its list, which each round halves; key
-- derivation runs on the wanted length, of which each round adds 64 bytes, and its counter has the four
-- bytes of the source. Numbers are otherwise unbounded, as in Python.
--
-- Not modelled: floats, decimals and dates in documents, since no record that is hashed here holds one;
-- Ed25519 and hardware attestation; the SBP metadata records, the egress envelope and the MCP
-- authority, which later work may add; clients that change a record that they were handed; network
-- calls to providers and user interfaces, which have no logic of the core.
pub mod Adapters
pub mod Audit
pub mod Authority
pub mod Boundary
pub mod Bundles
pub mod Capabilities
pub mod Chain
pub mod Delegation
pub mod Firewall
pub mod Gate
pub mod Identity
pub mod Memory
pub mod Merkle
pub mod Operations
pub mod Permissions
pub mod Platform
pub mod Policy
pub mod Prelude
pub mod Quota
pub mod Recorder
pub mod Sbp
pub mod Scar
pub mod Tools
pub mod Trust
pub mod Utils
pub mod Vault
pub mod Verifier
