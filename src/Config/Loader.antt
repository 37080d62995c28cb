-- ===== src/Config/Loader.antt =====
-- services/vw-config/app/config_authority.py: `load_config` and what it calls. The YAML parser, the
-- JSON schema's verdict, the canonical JSON text and SHA-256 are parameters.

use airgap_videowall.Prelude.{ℕ, String, Option, none, some, List, [], ◌∷◌, map, ltb, if◌then◌else◌}
use airgap_videowall.Values.{end}
use airgap_videowall.Config.Data.{
  PlatformSettings, WallConfig, SourceConfig, PolicyConfig, PolicyRule, RawPlatform, RawWall,
  RawSource, RawRule, RawPolicy, RawConfig, or_default, Fault, not_mapping, schema_fault,
  concurrency_exceeded, config_error, yaml_error, key_error, Result, ok, raise, ◌>>=◌,
}
use airgap_videowall.Config.Semantic.{validate_semantic, raw_walls, raw_sources}
use airgap_videowall.Config.Derived.{DerivedMetrics, compute}

-- What `yaml.safe_load` gives of a text.
pub data Parsed : Type 0 where
  malformed : Parsed
  scalar : Parsed
  mapping : RawConfig → Parsed

pub record Tools : Type 0 where
  pub safe_load : String → Parsed
  pub schema_errors : RawConfig → List String
  pub canonical_json : RawConfig → String
  pub sha256_hex : String → String

-- raw["id"]
unfoldable pub required : Option String → Result String
required none = raise key_error
required (some s) = ok s

-- `_parse_wall`
unfoldable pub parse_wall : RawWall → Result WallConfig
unfolding required
parse_wall raw = do
  id ← required raw.id
  ok (record {
    id = id;
    kind = or_default raw.kind "tiles";
    classification = or_default raw.classification "unclassified";
    grid = raw.grid;
    screens = or_default raw.screens 1;
    resolution = or_default raw.resolution "1920x1080";
    latency_class = or_default raw.latency_class "interactive";
    tags = or_default raw.tags [];
  })

-- `_parse_source`
unfoldable pub parse_source : RawSource → Result SourceConfig
unfolding required
parse_source raw = do
  id ← required raw.id
  ok (record {
    id = id;
    kind = or_default raw.kind "webrtc";
    endpoint = or_default raw.endpoint "";
    codec = or_default raw.codec "";
    resolution = or_default raw.resolution "";
    bitrate_kbps = or_default raw.bitrate_kbps 0;
    tags = or_default raw.tags [];
  })

unfoldable pub parse_rule : RawRule → Result PolicyRule
unfolding required
parse_rule raw = do
  id ← required raw.id
  ok (record {
    id = id;
    effect = or_default raw.effect "deny";
    description = or_default raw.description "";
    when = or_default raw.when end;
  })

-- `[f(x) for x in xs]`, with `f` raising
unfoldable pub traverse : {A B : Type 0} → (A → Result B) → List A → Result (List B)
traverse f [] = ok []
traverse f (x ∷ xs) = f x >>= λ y. traverse f xs >>= λ ys. ok (y ∷ ys)

-- `_parse_policy`
unfoldable pub parse_policy : RawPolicy → Result PolicyConfig
parse_policy raw = do
  rules ← traverse parse_rule (or_default raw.rules [])
  ok (record {
    taxonomy = or_default raw.taxonomy [];
    rules = rules;
    allow_list = or_default raw.allow_list [];
  })

unfoldable pub parse_platform : RawPlatform → PlatformSettings
parse_platform raw = record {
  version = or_default raw.version "0.0.0";
  max_concurrent_streams = or_default raw.max_concurrent_streams 64;
  codec_policy = record {
    tiles = or_default raw.codec_tiles "h264";
    mosaics = or_default raw.codec_mosaics "hevc";
  };
  latency_classes = record {
    interactive_max_ms = or_default raw.interactive_max_ms 500;
    broadcast_max_ms = or_default raw.broadcast_max_ms 6000;
  };
}

pub record PlatformConfig : Type 0 where
  pub platform : PlatformSettings
  pub walls : List WallConfig
  pub sources : List SourceConfig
  pub policy : PolicyConfig
  pub derived : DerivedMetrics
  pub canonical_json : String
  pub raw_yaml : String
  pub loaded_from : String
  pub loaded_at : ℕ

-- `if errors: raise ConfigError(errors)`
unfoldable pub raise_if : List Fault → Result (Unit {0})
raise_if [] = ok tt
raise_if (e ∷ es) = raise (config_error (e ∷ es))

-- the concurrency guardrail
unfoldable pub guardrail : DerivedMetrics → PlatformSettings → List Fault
guardrail m p =
    if ltb p.max_concurrent_streams m.worst_case_concurrency
    then concurrency_exceeded m.worst_case_concurrency p.max_concurrent_streams ∷ []
    else []

module _ (tools : Tools) where
  unfoldable pub assemble : String → String → ℕ → RawConfig → Result PlatformConfig
  assemble text path now d = do
    _ ← raise_if (map schema_fault (tools.schema_errors d))
    _ ← raise_if (validate_semantic d)
    let platform = parse_platform d.platform
    walls ← traverse parse_wall (raw_walls d)
    sources ← traverse parse_source (raw_sources d)
    policy ← parse_policy d.policy
    let cj = tools.canonical_json d
    let derived = compute platform walls sources (tools.sha256_hex cj)
    _ ← raise_if (guardrail derived platform)
    ok (record {
      platform = platform;
      walls = walls;
      sources = sources;
      policy = policy;
      derived = derived;
      canonical_json = cj;
      raw_yaml = text;
      loaded_from = path;
      loaded_at = now;
    })

  unfoldable pub from_parsed : String → String → ℕ → Parsed → Result PlatformConfig
  from_parsed text path now malformed = raise yaml_error
  from_parsed text path now scalar = raise (config_error (not_mapping ∷ []))
  from_parsed text path now (mapping d) = assemble text path now d

  -- `load_config`, at the instant `now`
  unfoldable pub load_config : String → String → ℕ → Result PlatformConfig
  unfolding from_parsed
  load_config text path now = from_parsed text path now (tools.safe_load text)
