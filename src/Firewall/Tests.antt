-- ===== src/Firewall/Tests.antt =====
-- A packet of two records, one with a field that may not leave.
use sovereignty_ai_gate.Prelude.{String, ◌≡◌, refl, true, [], ◌∷◌, none, some, ok, List}
use sovereignty_ai_gate.Platform.Toy.{toy}
use sovereignty_ai_gate.Utils.Json.{str, end, Items}
use sovereignty_ai_gate.Operations.{
  OperationRequest, IdentityContext, AuthorizationDecision, AuthorizedContextPacket,
}
use sovereignty_ai_gate.Firewall.{
  Remembered, memory_record, mapping, packet_of, build_context_packet,
}
use sovereignty_ai_gate.Firewall.Packets.{Released, build_context_packet-Released}

abbrev alice : IdentityContext
alice = record {
  identity_id = "alice";
  device_id = some "d";
  verified = true;
  hardware_backed = true;
  metadata = end;
}

abbrev request : OperationRequest
request = record {
  operation = "CALL_PROVIDER";
  identity = some alice;
  capability = none;
  parent_capability = none;
  requester_id = "alice";
  resource_id = "r";
  model_id = "m";
  provider_id = some "acme";
  metadata = end;
}

abbrev decision : AuthorizationDecision
decision = record {
  allowed = true;
  operation = "CALL_PROVIDER";
  reason_code = "AUTHORIZED";
  reason = "";
  capability_id = some "c1";
  policy_hash = "h";
  audit_required = true;
  evidence_sequence = some 0;
}

abbrev remembered : List Remembered
remembered =
    memory_record (record {
      record_id = "r1";
      model_id = "m";
      content = str "tea";
      consent = "acme" ∷ [];
      created_at = "monday";
      schema_version = "1.0";
    })
    ∷ mapping (("content", str "milk") ∷ ("vault_key", str "secret") ∷ [])
    ∷ []

abbrev packet : AuthorizedContextPacket
packet = packet_of toy request decision "acme" remembered alice

abbrev number : Items → String
number items = "2"

built : build_context_packet toy request decision "acme" remembered ≡ ok packet
unfolding build_context_packet
built = refl

build_context_packet-Released_example : Released toy number request decision "acme" packet
build_context_packet-Released_example =
    build_context_packet-Released toy number request decision "acme" remembered packet built
