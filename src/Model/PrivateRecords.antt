-- ===== src/Model/PrivateRecords.antt =====
-- Records of src/dotmac_observability/model.py: the private bindings and the join of the two halves.
use dotmac_observability.Prelude.{ℕ, String, Option, List, Dict}
use dotmac_observability.Model.PublicRecords.{SecretFile}

pub record HostBinding : Type 0 where
  pub target_id : String
  pub identity : String
  pub ssh_alias : String

pub record TargetBinding : Type 0 where
  pub target_id : String
  pub endpoints : List String
  pub credential : Option SecretFile

pub record FederationBinding : Type 0 where
  pub target_id : String
  pub endpoint : String
  pub credential : Option SecretFile

pub record ReceiverBinding : Type 0 where
  pub credential_ref : String
  pub credential : SecretFile
  pub destination : Option String

pub record SourceSetBinding : Type 0 where
  pub name : String
  pub interface : Option String
  pub prefixes : List String

pub record PrivateInventory : Type 0 where
  pub document : String
  pub version : ℕ
  pub environment : String
  pub digest : String
  pub content_digest : String
  pub host : HostBinding
  pub targets : List TargetBinding
  pub federations : List FederationBinding
  pub receivers : List ReceiverBinding
  pub source_sets : List SourceSetBinding

pub record ResolvedEndpoint : Type 0 where
  pub endpoints : List String
  pub credential : Option SecretFile

pub record ResolvedReceiver : Type 0 where
  pub credential : SecretFile
  pub destination : Option String

pub record ResolvedDatasource : Type 0 where
  pub url : String

pub record Resolution : Type 0 where
  pub inventory : PrivateInventory
  pub jobs : Dict ResolvedEndpoint
  pub datasources : Dict ResolvedDatasource
  pub federations : Dict ResolvedEndpoint
  pub integrations : Dict ResolvedReceiver
  pub source_sets : Dict SourceSetBinding
