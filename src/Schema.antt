-- ===== src/Schema.antt =====
-- packages/core/src/schema.ts: the memory chunk and the query. String unions are data types, an
-- optional field is an `Option`. `confidence` is a double between 0 and 1 that the code only
-- compares: it is counted in units of 2^-1074, of which every such double is a whole number.
pub mod Valid
use subspace_transceiver.Prelude.{ℕ, Bool, List, Option}
use subspace_transceiver.Prelude.Text.{Text}

pub data MemoryType : Type 0 where
  skill project context pattern_type result document schema thread blob_manifest profile :
      MemoryType

pub MemoryType-discrete : Discrete MemoryType
MemoryType-discrete = hlevel

pub data MemoryNamespace : Type 0 where
  skill project : MemoryNamespace

pub MemoryNamespace-discrete : Discrete MemoryNamespace
MemoryNamespace-discrete = hlevel

pub data ContentFormat : Type 0 where
  text markdown json code thread table composite : ContentFormat

pub ContentFormat-discrete : Discrete ContentFormat
ContentFormat-discrete = hlevel

pub record MediaRef : Type 0 where
  pub uri : Text
  pub mime_type : Text
  pub size : Option ℕ
  pub hash : Option Text
  pub alt : Option Text

pub record ContentEnvelope : Type 0 where
  pub format : ContentFormat
  pub body : Text
  pub media : Option (List MediaRef)
  pub schema_uri : Option Text
  pub metadata : Option (List (Text × Text))

pub record ContentLink : Type 0 where
  pub target : Text
  pub rel : Text
  pub label : Option Text

pub record HashcashStamp : Type 0 where
  pub bits : ℕ
  pub challenge : Text
  pub nonce : Text
  pub hash : Text

pub record Source : Type 0 where
  pub agent_id : Text
  pub peer_id : Text
  pub project : Option Text
  pub session_id : Option Text
  pub timestamp : ℕ

pub data Origin : Type 0 where
  local crawl replicated : Origin

pub record MemoryChunk : Type 0 where
  pub id : Text
  pub kind : MemoryType
  pub namespace : MemoryNamespace
  pub topic : List Text
  pub content : Text
  pub source : Source
  pub ttl : Option ℕ
  pub confidence : ℕ
  pub network : Text
  pub version : ℕ
  pub supersedes : Option Text
  pub collection : Option Text
  pub slug : Option Text
  pub content_envelope : Option ContentEnvelope
  pub links : Option (List ContentLink)
  pub signature : Option Text
  pub pow : Option HashcashStamp
  pub origin : Option Origin
  pub tombstone : Bool

pub record MemoryQuery : Type 0 where
  pub topics : Option (List Text)
  pub kind : Option MemoryType
  pub namespace : Option MemoryNamespace
  pub project : Option Text
  pub peer_id : Option Text
  pub collection : Option Text
  pub content_format : Option ContentFormat
  pub min_confidence : Option ℕ
  pub since : Option ℕ
  pub until : Option ℕ
  pub limit : Option ℕ
