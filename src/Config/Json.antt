-- ===== src/Config/Json.antt =====
-- services/vw-config/app/main.py: the JSON of walls, sources and counts.
use airgap_videowall.Prelude.{
  ℕ, String, Option, none, some, List, [], ◌∷◌, if◌then◌else◌, ◌==◌, nat_eq, string_eq,
}
use airgap_videowall.Prelude.Dict.{Dict}
use airgap_videowall.Values.{Value, Items, Fields, num, str, obj, nil, cons, end, field, pos}
use airgap_videowall.Config.Data.{WallConfig, SourceConfig, WallGrid}
use airgap_videowall.Config.Derived.{tile_count}
use airgap_videowall.Config.Api.{entry_json}

abbrev pub append_fields : Fields → Fields → Fields
append_fields end gs = gs
append_fields (field k v fs) gs = field k v (append_fields fs gs)

abbrev pub nat : ℕ → Value
nat n = num (pos n)

unfoldable pub grid_json : Option WallGrid → Fields
grid_json none = end
grid_json (some g) =
    field "grid" (obj (field "rows" (nat g.rows) (field "cols" (nat g.cols) end))) end

unfoldable pub screens_json : WallConfig → Fields
screens_json w = if w.kind == "bigscreen" then field "screens" (nat w.screens) end else end

-- `_wall_dict`
unfoldable pub wall_dict : WallConfig → Fields
unfolding grid_json screens_json entry_json
wall_dict w = field "id" (str w.id) (
    field "type" (str w.kind) (
      field "classification" (str w.classification) (
        field "resolution" (str w.resolution) (
          field "latency_class" (str w.latency_class) (
            field "tile_count" (nat (tile_count w)) (
              field "tags" (obj (entry_json w.tags))
                (append_fields (grid_json w.grid) (screens_json w))))))))

-- a text that is left out where it is empty
unfoldable pub text_json : String → String → Fields
text_json k s = if s == "" then end else field k (str s) end

unfoldable pub number_json : String → ℕ → Fields
number_json k n = if n == 0 then end else field k (nat n) end

-- `_source_dict`
unfoldable pub source_dict : SourceConfig → Fields
unfolding text_json number_json entry_json
source_dict s = field "id" (str s.id) (
    field "type" (str s.kind) (
      field "tags" (obj (entry_json s.tags)) (
        append_fields (text_json "endpoint" s.endpoint) (
          append_fields (text_json "codec" s.codec) (
            append_fields (text_json "resolution" s.resolution)
              (number_json "bitrate_kbps" s.bitrate_kbps))))))

unfoldable pub walls_json : List WallConfig → Items
unfolding wall_dict
walls_json [] = nil
walls_json (w ∷ ws) = cons (obj (wall_dict w)) (walls_json ws)

unfoldable pub sources_json : List SourceConfig → Items
unfolding source_dict
sources_json [] = nil
sources_json (s ∷ ss) = cons (obj (source_dict s)) (sources_json ss)

unfoldable pub counts_json : Dict String ℕ → Fields
counts_json [] = end
counts_json ((k, n) ∷ d) = field k (nat n) (counts_json d)
