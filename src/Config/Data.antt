-- ===== src/Config/Data.antt =====
-- services/vw-config/app/config_authority.py: the data classes, and the document as YAML gives it.
-- A field of a raw record is `none` where the mapping has no such key. The shape of the fields is
-- what the JSON schema demands.
use airgap_videowall.Prelude.{ℕ, String, Option, none, some, List}
use airgap_videowall.Prelude.Dict.{Dict}
use airgap_videowall.Values.{Fields}

pub record CodecPolicy : Type 0 where
  pub tiles : String
  pub mosaics : String

pub record LatencyClasses : Type 0 where
  pub interactive_max_ms : ℕ
  pub broadcast_max_ms : ℕ

pub record PlatformSettings : Type 0 where
  pub version : String
  pub max_concurrent_streams : ℕ
  pub codec_policy : CodecPolicy
  pub latency_classes : LatencyClasses

pub record WallGrid : Type 0 where
  pub rows : ℕ
  pub cols : ℕ

pub record WallConfig : Type 0 where
  pub id : String
  pub kind : String
  pub classification : String
  pub grid : Option WallGrid
  pub screens : ℕ
  pub resolution : String
  pub latency_class : String
  pub tags : Dict String String

pub record SourceConfig : Type 0 where
  pub id : String
  pub kind : String
  pub endpoint : String
  pub codec : String
  pub resolution : String
  pub bitrate_kbps : ℕ
  pub tags : Dict String String

pub record PolicyRule : Type 0 where
  pub id : String
  pub effect : String
  pub description : String
  pub when : Fields

pub record PolicyConfig : Type 0 where
  pub taxonomy : Dict String (List String)
  pub rules : List PolicyRule
  pub allow_list : List (Dict String String)

pub record RawPlatform : Type 0 where
  pub version : Option String
  pub max_concurrent_streams : Option ℕ
  pub codec_tiles : Option String
  pub codec_mosaics : Option String
  pub interactive_max_ms : Option ℕ
  pub broadcast_max_ms : Option ℕ

pub record RawWall : Type 0 where
  pub id : Option String
  pub kind : Option String
  pub classification : Option String
  pub grid : Option WallGrid
  pub screens : Option ℕ
  pub resolution : Option String
  pub latency_class : Option String
  pub tags : Option (Dict String String)

pub record RawSource : Type 0 where
  pub id : Option String
  pub kind : Option String
  pub endpoint : Option String
  pub codec : Option String
  pub resolution : Option String
  pub bitrate_kbps : Option ℕ
  pub tags : Option (Dict String String)

pub record RawRule : Type 0 where
  pub id : Option String
  pub effect : Option String
  pub description : Option String
  pub when : Option Fields

pub record RawPolicy : Type 0 where
  pub taxonomy : Option (Dict String (List String))
  pub rules : Option (List RawRule)
  pub allow_list : Option (List (Dict String String))

pub record RawConfig : Type 0 where
  pub platform : RawPlatform
  pub walls : Option (List RawWall)
  pub sources : Option (List RawSource)
  pub policy : RawPolicy

-- raw.get(key, default)
abbrev pub or_default {ℓ} : {A : Type ℓ} → Option A → A → A
or_default none d = d
or_default (some a) d = a

-- A line of an error list.
pub data Fault : Type 0 where
  not_mapping : Fault
  schema_fault : String → Fault
  duplicate_wall : String → Fault
  duplicate_source : String → Fault
  shared_ids : List String → Fault
  missing_grid : String → Fault
  missing_screens : String → Fault
  concurrency_exceeded : ℕ → ℕ → Fault

-- What loading raises: `ConfigError`, the YAML parser's error, a missing key or a missing file.
pub data Failure : Type 0 where
  config_error : List Fault → Failure
  yaml_error : Failure
  key_error : Failure
  file_not_found : Failure

pub data Result {ℓ} (A : Type ℓ) : Type ℓ where
  raise : Failure → Result A
  ok : A → Result A

infixl 5 ◌>>=◌
abbrev pub ◌>>=◌ {ℓ κ} : {A : Type ℓ} {B : Type κ} → Result A → (A → Result B) → Result B
raise failure >>= next = raise failure
ok value >>= next = next value
