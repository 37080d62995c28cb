-- ===== src/Config/Sample.antt =====
-- A small configuration, its document, and the watcher that has loaded it, with transparent functions
-- in place of the YAML parser and the digest.

use airgap_videowall.Config.Semantic.{
  overlap_faults, validate_semantic, duplicates, walls_faults, shape_faults, demand, is_some,
  overlap, overlap_faults,
}
use airgap_videowall.Config.Derived.{compute, sum_of, sum_kind, tile_count}
use airgap_videowall.Config.Watcher.{
  Watcher, file_hash, load_initial, config_applied, load_config_file, started, init,
}
use airgap_videowall.Config.Data.{
  WallConfig, SourceConfig, RawSource, Failure, PlatformSettings, RawConfig, RawWall, ok,
}
use airgap_videowall.Config.Loader.{
  Tools, Parsed, load_config, PlatformConfig, mapping, from_parsed, malformed, assemble, raise_if,
  guardrail, traverse, parse_wall, parse_source, parse_policy, parse_platform, required,
}
use airgap_videowall.Prelude.{
  String, ◌≡◌, refl, none, some, List, [], ◌∷◌, if◌then◌else◌, ◌==◌, string_eq,
}

abbrev pub tile_wall : RawWall
tile_wall = record {
  id = some "w1";
  kind = some "tiles";
  classification = none;
  grid = some (record { rows = 2; cols = 3 });
  screens = none;
  resolution = none;
  latency_class = none;
  tags = none;
}

abbrev pub big_wall : RawWall
big_wall = record {
  id = some "w2";
  kind = some "bigscreen";
  classification = some "secret";
  grid = none;
  screens = some 2;
  resolution = none;
  latency_class = some "broadcast";
  tags = none;
}

abbrev pub camera : RawSource
camera = record {
  id = some "s1";
  kind = some "rtsp";
  endpoint = some "rtsp://cam";
  codec = none;
  resolution = none;
  bitrate_kbps = some 4000;
  tags = none;
}

abbrev pub raw : RawConfig
raw = record {
  platform = record {
    version = some "1.0.0";
    max_concurrent_streams = some 8;
    codec_tiles = none;
    codec_mosaics = none;
    interactive_max_ms = none;
    broadcast_max_ms = none;
  };
  walls = some (tile_wall ∷ big_wall ∷ []);
  sources = some (camera ∷ []);
  policy = record { taxonomy = none; rules = none; allow_list = none };
}

abbrev pub read : String → Parsed
read text = if text == "good" then mapping raw else malformed

abbrev pub tools : Tools
tools = record {
  safe_load = read;
  schema_errors = λ d. [];
  canonical_json = λ d. "{}";
  sha256_hex = λ t. t;
}

abbrev pub platform : PlatformSettings
platform = record {
  version = "1.0.0";
  max_concurrent_streams = 8;
  codec_policy = record { tiles = "h264"; mosaics = "hevc" };
  latency_classes = record { interactive_max_ms = 500; broadcast_max_ms = 6000 };
}

abbrev pub walls : List WallConfig
walls =
    record {
      id = "w1";
      kind = "tiles";
      classification = "unclassified";
      grid = some (record { rows = 2; cols = 3 });
      screens = 1;
      resolution = "1920x1080";
      latency_class = "interactive";
      tags = [];
    }
    ∷ record {
      id = "w2";
      kind = "bigscreen";
      classification = "secret";
      grid = none;
      screens = 2;
      resolution = "1920x1080";
      latency_class = "broadcast";
      tags = [];
    }
    ∷ []

abbrev pub sources : List SourceConfig
sources =
    record {
      id = "s1";
      kind = "rtsp";
      endpoint = "rtsp://cam";
      codec = "";
      resolution = "";
      bitrate_kbps = 4000;
      tags = [];
    }
    ∷ []

abbrev pub cfg : PlatformConfig
cfg = record {
  platform = platform;
  walls = walls;
  sources = sources;
  policy = record { taxonomy = []; rules = []; allow_list = [] };
  derived = compute platform walls sources "{}";
  canonical_json = "{}";
  raw_yaml = "good";
  loaded_from = "walls.yaml";
  loaded_at = 7;
}

pub loads : load_config tools "good" "walls.yaml" 7 ≡ ok cfg
unfolding load_config from_parsed assemble raise_if guardrail validate_semantic duplicates
    walls_faults shape_faults demand is_some overlap overlap_faults traverse parse_wall parse_source
    parse_policy parse_platform required compute sum_kind sum_of tile_count
loads = refl

abbrev pub describe : Failure → String
describe e = "failed"

abbrev pub watcher : Watcher
watcher = record {
  last_hash = "good";
  current = some cfg;
  last_reload_ts = 7;
  last_error = none;
  events =
      record { ts = 7; event = config_applied; old_hash = ""; new_hash = "{}"; error = "" } ∷ [];
  notified = [];
}

pub starts :
    load_initial tools describe "walls.yaml" init (some "good") (some "good") 7 ≡ ok (watcher, cfg)
unfolding load_initial load_config_file file_hash started load_config from_parsed assemble raise_if
    guardrail validate_semantic duplicates walls_faults shape_faults demand is_some overlap
    overlap_faults traverse parse_wall parse_source parse_policy parse_platform required compute
    sum_kind sum_of tile_count init
starts = refl
