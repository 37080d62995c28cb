-- ===== src/Config/Derived.antt =====
-- services/vw-config/app/config_authority.py: `tile_count` and `DerivedMetrics.compute`. The
-- bandwidth is kept in kilobits per second, exactly; the code computes it in floating point and
-- rounds it to a thousandth of a gigabit.
use airgap_videowall.Prelude.{
  ℕ, ◌+◌, ◌-◌, ◌*◌, String, ◌≡◌, ap, none, some, List, [], ◌∷◌, arith, leb, if◌then◌else◌, ◌==◌,
  length, keep, string_eq, eq_iff, ◌≢◌, ◌∙◌,
}
use airgap_videowall.Prelude.Dict.{Dict, get, put, get-put}
use airgap_videowall.Values.{ℤ, pos, negsuc}
use airgap_videowall.Config.Data.{WallConfig, SourceConfig, PlatformSettings, or_default}

-- WallConfig.tile_count
unfoldable pub tile_count : WallConfig → ℕ
tile_count w =
    if w.kind == "tiles"
    then elim w.grid [ some g ↦ g.rows * g.cols | none ↦ w.screens ]
    else w.screens

unfoldable pub sum_of {ℓ} : {A : Type ℓ} → (A → ℕ) → List A → ℕ
sum_of f [] = 0
sum_of f (x ∷ xs) = f x + sum_of f xs

-- `sum(f(w) for w in walls if w.type == kind)`
unfoldable pub sum_kind : String → (WallConfig → ℕ) → List WallConfig → ℕ
unfolding sum_of
sum_kind kind f walls = sum_of f (keep (λ (w : WallConfig). w.kind == kind) walls)

-- the loop over `sources_by_type`
unfoldable pub count_types : Dict String ℕ → List SourceConfig → Dict String ℕ
count_types d [] = d
count_types d (s ∷ ss) = count_types (put d s.kind (or_default (get d s.kind) 0 + 1)) ss

-- a - b
unfoldable pub sub_int : ℕ → ℕ → ℤ
sub_int a b = if leb b a then pos (a - b) else negsuc (b - a - 1)

pub record DerivedMetrics : Type 0 where
  pub total_walls : ℕ
  pub tile_walls : ℕ
  pub bigscreen_walls : ℕ
  pub total_tiles : ℕ
  pub total_screens : ℕ
  pub total_display_endpoints : ℕ
  pub total_sources : ℕ
  pub sources_by_type : Dict String ℕ
  pub sfu_rooms_needed : ℕ
  pub mosaic_pipelines_needed : ℕ
  pub estimated_bandwidth_kbps : ℕ
  pub worst_case_concurrency : ℕ
  pub concurrency_headroom : ℤ
  pub config_hash : String

-- `DerivedMetrics.compute`; `hash` is the digest of the canonical JSON text
unfoldable pub compute :
    PlatformSettings → List WallConfig → List SourceConfig → String → DerivedMetrics
compute platform walls sources hash =
    let tile_walls = sum_kind "tiles" (λ w. 1) walls in
    let bigscreen_walls = sum_kind "bigscreen" (λ w. 1) walls in
    let total_tiles = sum_kind "tiles" tile_count walls in
    let total_screens = sum_kind "bigscreen" (λ w. w.screens) walls in
    let endpoints = total_tiles + total_screens in
    record {
      total_walls = length walls;
      tile_walls = tile_walls;
      bigscreen_walls = bigscreen_walls;
      total_tiles = total_tiles;
      total_screens = total_screens;
      total_display_endpoints = endpoints;
      total_sources = length sources;
      sources_by_type = count_types [] sources;
      sfu_rooms_needed = tile_walls;
      mosaic_pipelines_needed = bigscreen_walls;
      estimated_bandwidth_kbps =
          total_tiles * 6000
          + total_screens * 15000
          + sum_of (λ (s : SourceConfig). s.bitrate_kbps) sources;
      worst_case_concurrency = endpoints;
      concurrency_headroom = sub_int platform.max_concurrent_streams endpoints;
      config_hash = hash;
    }

-- What a wall shows at once: its tiles, or its screens.
unfoldable pub endpoints_of : WallConfig → ℕ
endpoints_of w =
    if w.kind == "tiles" then tile_count w else if w.kind == "bigscreen" then w.screens else 0

unfoldable pub of_type : String → List SourceConfig → ℕ
of_type kind sources = length (keep (λ (s : SourceConfig). s.kind == kind) sources)

tiles-ne-bigscreen : ◌≢◌ {A = String} "tiles" "bigscreen"
tiles-ne-bigscreen = cc

endpoints-sum :
    (walls : List WallConfig)
    → sum_kind "tiles" tile_count walls + sum_kind "bigscreen" (λ w. w.screens) walls
      ≡ sum_of endpoints_of walls
unfolding sum_kind endpoints_of
endpoints-sum [] = omega arith
endpoints-sum (w ∷ walls) = ground (
  arith,
  endpoints-sum walls,
  eq_iff w.kind "tiles",
  eq_iff w.kind "bigscreen",
  tiles-ne-bigscreen,
)

count_types-of_type :
    (d : Dict String ℕ) (sources : List SourceConfig) (kind : String)
    → or_default (get (count_types d sources) kind) 0
      ≡ or_default (get d kind) 0 + of_type kind sources
unfolding count_types of_type
count_types-of_type d [] kind = omega arith
count_types-of_type d (s ∷ ss) kind =
    let d' = put d s.kind (or_default (get d s.kind) 0 + 1) in
    ground (
      arith,
      count_types-of_type d' ss kind,
      get-put d s.kind kind (or_default (get d s.kind) 0 + 1),
      eq_iff s.kind kind,
    )

-- The number of endpoints is the sum over the walls of what each shows, the headroom is what the
-- limit leaves, and the count of each type of source is the number of the sources of that type.
pub compute_totals :
    (platform : PlatformSettings) (walls : List WallConfig) (sources : List SourceConfig)
    (hash : String)
    → let m = compute platform walls sources hash in
      (m.worst_case_concurrency ≡ sum_of endpoints_of walls)
      × (m.concurrency_headroom
          ≡ sub_int platform.max_concurrent_streams (sum_of endpoints_of walls))
      × ((kind : String) → or_default (get m.sources_by_type kind) 0 ≡ of_type kind sources)
unfolding compute get
compute_totals platform walls sources hash = (
  endpoints-sum walls,
  ap (sub_int platform.max_concurrent_streams) (endpoints-sum walls),
  λ kind. count_types-of_type [] sources kind ∙ omega arith,
)
