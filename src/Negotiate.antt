-- ===== src/Negotiate.antt =====
-- packages/core/src/negotiate.ts: CapabilityRegistry, and the conversions to the format of ANP, with the
-- fields of constant value left out. The exchange with peers is a stub in the code.
pub mod Registered
mod Tests
use subspace_transceiver.Prelude.{
  ℕ, Bool, true, false, if◌then◌else◌, List, [], ◌∷◌, map, filter, Option, none, some, or_else,
}
use subspace_transceiver.Prelude.Text.{Text, codes, truthy, starts_with}
use subspace_transceiver.Prelude.Dict

pub data CapabilityRole : Type 0 where
  provider consumer both : CapabilityRole

pub record CapabilityDeclaration : Type 0 where
  pub nsid : Text
  pub version : Text
  pub role : CapabilityRole
  pub metadata : Option (List (Text × Text))

pub record NegotiateResponse : Type 0 where
  pub agent_did : Text
  pub peer_id : Text
  pub capabilities : List CapabilityDeclaration
  pub timestamp : ℕ

abbrev pub Registry : Type 0
Registry = List (Text × CapabilityDeclaration)

abbrev pub built_in_capabilities : List CapabilityDeclaration
built_in_capabilities =
    record {
      nsid = codes "net.subspace.memory.skill";
      version = codes "2.0.0";
      role = CapabilityRole.both;
      metadata = some ((codes "store", codes "loro-crdt") ∷ (codes "transport", codes "iroh") ∷ []);
    }
    ∷ record {
      nsid = codes "net.subspace.memory.project";
      version = codes "2.0.0";
      role = CapabilityRole.both;
      metadata = some ((codes "store", codes "loro-crdt") ∷ (codes "transport", codes "iroh") ∷ []);
    }
    ∷ record {
      nsid = codes "net.subspace.protocol.query";
      version = codes "1.0.0";
      role = CapabilityRole.both;
      metadata = some ((codes "protocol", codes "/subspace/query/1.0.0") ∷ []);
    }
    ∷ record {
      nsid = codes "net.subspace.protocol.browse";
      version = codes "1.0.0";
      role = CapabilityRole.both;
      metadata = some ((codes "protocol", codes "/subspace/browse/1.0.0") ∷ []);
    }
    ∷ record {
      nsid = codes "net.subspace.protocol.negotiate";
      version = codes "1.0.0";
      role = CapabilityRole.both;
      metadata = some ((codes "protocol", codes "/subspace/negotiate/1.0.0") ∷ []);
    }
    ∷ record {
      nsid = codes "net.subspace.protocol.mailbox";
      version = codes "1.0.0";
      role = CapabilityRole.both;
      metadata = some ((codes "protocol", codes "/subspace/mailbox/1.0.0") ∷ []);
    }
    ∷ record {
      nsid = codes "net.subspace.identity.did-key";
      version = codes "1.0.0";
      role = CapabilityRole.provider;
      metadata =
          some ((codes "keyType", codes "Ed25519") ∷ (codes "codec", codes "ed25519-pub") ∷ []);
    }
    ∷ record {
      nsid = codes "net.subspace.schema.lexicon";
      version = codes "1.0.0";
      role = CapabilityRole.both;
      metadata = some ((codes "format", codes "AT Protocol Lexicon v1") ∷ []);
    }
    ∷ []

unfoldable pub register : CapabilityDeclaration → Registry → Registry
register cap m = Dict.set cap.nsid cap m

unfoldable pub unregister : Text → Registry → Registry
unregister nsid m = Dict.delete nsid m

-- The loop of the constructor.
unfoldable pub register_initial : List CapabilityDeclaration → Registry → Registry
register_initial [] m = m
register_initial (cap ∷ caps) m = register_initial caps (register cap m)

unfoldable pub new_registry : List CapabilityDeclaration → Registry
new_registry initial = register_initial initial []

-- `filter` of the call of `list`.
unfoldable pub passes : Text → CapabilityDeclaration → Bool
passes prefix cap = starts_with cap.nsid prefix

unfoldable pub list : Option Text → Registry → List CapabilityDeclaration
list none m = Dict.values m
list (some prefix) m =
    if truthy prefix then filter (passes prefix) (Dict.values m) else Dict.values m

unfoldable pub get : Text → Registry → Option CapabilityDeclaration
get nsid m = Dict.get nsid m

unfoldable pub has : Text → Registry → Bool
has nsid m = elim (Dict.get nsid m) [ none ↦ false | some cap ↦ true ]

unfoldable pub nsids : Registry → List Text
nsids m = Dict.keys m

pub record AnpCapability : Type 0 where
  pub id : Text
  pub version : Text
  pub role : CapabilityRole
  pub metadata : List (Text × Text)

unfoldable pub to_anp_capability : CapabilityDeclaration → AnpCapability
to_anp_capability cap = record {
  id = cap.nsid;
  version = cap.version;
  role = cap.role;
  metadata = or_else cap.metadata [];
}

pub record AnpAdvertisement : Type 0 where
  pub agent_id : Text
  pub peer_id : Text
  pub capabilities : List AnpCapability
  pub timestamp : ℕ

unfoldable pub to_anp_advertisement : NegotiateResponse → AnpAdvertisement
to_anp_advertisement response = record {
  agent_id = response.agent_did;
  peer_id = response.peer_id;
  capabilities = map to_anp_capability response.capabilities;
  timestamp = response.timestamp;
}

-- The calls that change a registry.
pub data Call : Type 0 where
  registered : CapabilityDeclaration → Call
  unregistered : Text → Call

unfoldable pub call : Call → Registry → Registry
call (Call.registered cap) m = register cap m
call (Call.unregistered nsid) m = unregister nsid m

unfoldable pub calls : List Call → Registry → Registry
calls [] m = m
calls (c ∷ cs) m = calls cs (call c m)
