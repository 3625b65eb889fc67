-- ===== src/Bridge/Requests.antt =====
-- packages/core/src/engine-bridge.ts: the requests that the methods of EngineBridge send to the engine.
use subspace_transceiver.Prelude.{
  ℕ, Bool, List, [], ◌∷◌, ◌++◌, Option, none, some, or_else, if◌then◌else◌,
}
use subspace_transceiver.Prelude.Text.{Text, codes, truthy}

pub record BrowseStub : Type 0 where
  pub id : Text
  pub title : Option Text
  pub collection : Option Text
  pub topic : List Text
  pub updated_at : ℕ

-- A value of a request or of a result.
pub data Param : Type 0 where
  text : Text → Param
  number : ℕ → Param
  flag : Bool → Param
  texts : List Text → Param
  browse_stubs : List BrowseStub → Param
  json : Text → Param

pub record Request : Type 0 where
  pub method : Text
  pub params : List (Text × Param)

-- `...(value ? { name: value } : {})`
abbrev pub if_truthy : Text → Option Text → List (Text × Param)
if_truthy name none = []
if_truthy name (some value) = if truthy value then (name, Param.text value) ∷ [] else []

-- A field of value `undefined` is not printed.
abbrev pub if_given : Text → Option Param → List (Text × Param)
if_given name none = []
if_given name (some value) = (name, value) ∷ []

abbrev pub text_of : Option Text → Option Param
text_of none = none
text_of (some s) = some (Param.text s)

abbrev pub number_of : Option ℕ → Option Param
number_of none = none
number_of (some n) = some (Param.number n)

abbrev pub texts_of : Option (List Text) → Option Param
texts_of none = none
texts_of (some s) = some (Param.texts s)

unfoldable pub engine_start : Text → Option Text → Request
engine_start seed_hex relay_url = record {
  method = codes "engine.start";
  params = (codes "seed_hex", Param.text seed_hex) ∷ if_truthy (codes "relay_url") relay_url;
}

-- `engineNodeId`, `engineAddrs`, `peerList` and `engineAddrFull` send no parameters.
unfoldable pub engine_node_id : Request
engine_node_id = record { method = codes "engine.nodeId"; params = [] }

unfoldable pub engine_addrs : Request
engine_addrs = record { method = codes "engine.addrs"; params = [] }

unfoldable pub peer_list : Request
peer_list = record { method = codes "engine.peers"; params = [] }

unfoldable pub engine_addr_full : Request
engine_addr_full = record { method = codes "engine.addrFull"; params = [] }

pub record MailSendParams : Type 0 where
  pub to_node_id : Text
  pub envelope_json : Text
  pub to_relay_url : Option Text
  pub to_direct_addrs : Option (List Text)

unfoldable pub mail_send : MailSendParams → Request
mail_send p = record {
  method = codes "mail.send";
  params =
      (codes "to_node_id", Param.text p.to_node_id)
        ∷ (codes "envelope_json", Param.text p.envelope_json)
        ∷ if_truthy (codes "to_relay_url") p.to_relay_url
      ++ (codes "to_direct_addrs", Param.texts (or_else p.to_direct_addrs [])) ∷ [];
}

pub record BrowseFromParams : Type 0 where
  pub target_node_id : Text
  pub direct_addrs : Option (List Text)
  pub relay_url : Option Text
  pub collection : Option Text
  pub since : Option ℕ
  pub limit : Option ℕ

unfoldable pub browse_from : BrowseFromParams → Request
browse_from p = record {
  method = codes "browse.from";
  params =
      (codes "target_node_id", Param.text p.target_node_id)
        ∷ if_given (codes "direct_addrs") (texts_of p.direct_addrs)
      ++ if_given (codes "relay_url") (text_of p.relay_url)
      ++ if_given (codes "collection") (text_of p.collection)
      ++ if_given (codes "since") (number_of p.since)
      ++ if_given (codes "limit") (number_of p.limit);
}

unfoldable pub browse_respond : Text → List BrowseStub → Bool → Request
browse_respond request_id stubs has_more = record {
  method = codes "browse.respond";
  params =
      (codes "request_id", Param.text request_id)
      ∷ (codes "stubs", Param.browse_stubs stubs)
      ∷ (codes "has_more", Param.flag has_more)
      ∷ [];
}

unfoldable pub gossip_join : Text → Option (List Text) → Request
gossip_join topic_hex bootstrap_peers = record {
  method = codes "gossip.join";
  params =
      (codes "topic_hex", Param.text topic_hex)
      ∷ (codes "bootstrap_peers", Param.texts (or_else bootstrap_peers []))
      ∷ [];
}

unfoldable pub gossip_leave : Text → Request
gossip_leave topic_hex = record {
  method = codes "gossip.leave";
  params = (codes "topic_hex", Param.text topic_hex) ∷ [];
}

-- The payload is in base64 here.
unfoldable pub gossip_broadcast : Text → Text → Request
gossip_broadcast topic_hex payload_b64 = record {
  method = codes "gossip.broadcast";
  params =
      (codes "topic_hex", Param.text topic_hex)
      ∷ (codes "payload_b64", Param.text payload_b64)
      ∷ [];
}
