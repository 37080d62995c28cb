-- ===== src/Reconcile/Served.antt =====
-- services/mgmt-api/app/reconcile.py: the walls as they are read from the answer of the configuration
-- service (services/vw-config/app/main.py). `none` is an exception: a key that is missing, or a value
-- of another shape.
use airgap_videowall.Config.Watcher.{Watcher}
use airgap_videowall.Config.Loader.{PlatformConfig}
use airgap_videowall.Config.Derived.{tile_count}
use airgap_videowall.Prelude.Dict.{Dict}
use airgap_videowall.Config.Api.{entry_json}
use airgap_videowall.Reconcile.Mapping.{wall_to_db, ConfigWall, wall_tiles}
use airgap_videowall.Config.Json.{wall_dict, grid_json, screens_json, walls_json}
use airgap_videowall.Config.Handlers.{
  Response, json, text, error, list_walls, with_config, get_config,
}
use airgap_videowall.Config.Data.{WallConfig, WallGrid, or_default}
use airgap_videowall.Values.{
  Value, has_field, get_field, Fields, Items, str, num, list, obj, field, cons, pos, nil, null, end,
}
use airgap_videowall.Prelude.{
  ℕ, String, ◌≡◌, refl, ◌⊎◌, inl, inr, Option, none, some, List, [], ◌∷◌, leb, if◌then◌else◌, ◌==◌,
  string_eq, Bool, map, true, false, All,
}

infixl 5 ◌>>=◌
abbrev ◌>>=◌ : {A B : Type 0} → Option A → (A → Option B) → Option B
some a >>= f = f a
none >>= f = none

abbrev text_at : Value → Option String
text_at (str s) = some s
text_at _ = none

abbrev nat_at : Value → Option ℕ
nat_at (num (pos n)) = some n
nat_at _ = none

-- `w.get(k)`
abbrev optional : {A : Type 0} → (Value → Option A) → Fields → String → Option (Option A)
optional read fs k =
    if has_field fs k
    then elim (read (get_field fs k)) [ none ↦ none | some a ↦ some (some a) ]
    else some none

abbrev required : Fields → String → Option String
required fs k = if has_field fs k then text_at (get_field fs k) else none

unfoldable pub tags_at : Fields → Option (Dict String String)
tags_at end = some []
tags_at (field k (str s) fs) = elim (tags_at fs) [ none ↦ none | some d ↦ some ((k, s) ∷ d) ]
tags_at (field k _ fs) = none

-- `w.get("tags") or {}`
abbrev tags_of : Value → Option (Dict String String)
tags_of null = some []
tags_of (obj fs) = tags_at fs
tags_of _ = none

-- `w.get("grid") or {}`, and its two sizes
abbrev grid_at : Value → Option (Option WallGrid)
grid_at null = some none
grid_at (obj end) = some none
grid_at (obj (field k v fs)) = do
  rows ← optional nat_at (field k v fs) "rows"
  cols ← optional nat_at (field k v fs) "cols"
  some (some (record { rows = or_default rows 1; cols = or_default cols 1 }))
grid_at _ = none

-- what `_wall_to_db` reads of a wall
unfoldable pub read_wall : Fields → Option ConfigWall
unfolding get_field has_field tags_at
read_wall fs = do
  id ← required fs "id"
  kind ← optional text_at fs "type"
  grid ← grid_at (get_field fs "grid")
  screens ← optional nat_at fs "screens"
  resolution ← optional text_at fs "resolution"
  tags ← tags_of (get_field fs "tags")
  some (record {
    id = id;
    kind = kind;
    grid = grid;
    screens = screens;
    resolution = resolution;
    tags = tags;
  })

unfoldable pub read_walls : Items → Option (List ConfigWall)
read_walls nil = some []
read_walls (cons (obj fs) vs) = elim (read_wall fs) [
  | none ↦ none
  | some w ↦ elim (read_walls vs) [ none ↦ none | some ws ↦ some (w ∷ ws) ]
]
read_walls (cons _ vs) = none

unfoldable pub walls_of : Value → Option (List ConfigWall)
unfolding read_walls
walls_of (list vs) = read_walls vs
walls_of _ = none

-- `_fetch_walls`
unfoldable pub fetch_walls : Response → Option (List ConfigWall)
unfolding walls_of has_field get_field
fetch_walls (json code fs) =
    if leb 400 code
    then none
    else if has_field fs "walls"
    then walls_of (get_field fs "walls")
    else some []
fetch_walls (text body hash) = none
fetch_walls (error code) = none

-- A wall of the configuration, as the reconciliation sees it.
abbrev pub seen : WallConfig → ConfigWall
seen w = record {
  id = w.id;
  kind = some w.kind;
  grid = w.grid;
  screens = if w.kind == "bigscreen" then some w.screens else none;
  resolution = some w.resolution;
  tags = w.tags;
}

-- A wall of tiles has a grid, and a big screen has none.
abbrev pub IsPlain : WallConfig → Type 0
IsPlain w =
    ((w.kind ≡ "tiles") × ((g : WallGrid) × (w.grid ≡ some g)))
    ⊎ ((w.kind ≡ "bigscreen") × (w.grid ≡ none))

tags_at-entry_json : (d : Dict String String) → tags_at (entry_json d) ≡ some d
unfolding tags_at entry_json
tags_at-entry_json [] = refl
tags_at-entry_json ((k, v) ∷ d) = rw (tags_at-entry_json d)

read_wall_cases :
    (w : WallConfig) (g : Option WallGrid) (b : Bool)
    → w.grid ≡ g
    → (w.kind == "bigscreen") ≡ b
    → read_wall (wall_dict w) ≡ some (seen w)
unfolding read_wall wall_dict grid_json screens_json get_field has_field
read_wall_cases w none true grid kind = rw (grid, kind, tags_at-entry_json w.tags) refl
read_wall_cases w none false grid kind = rw (grid, kind, tags_at-entry_json w.tags) refl
read_wall_cases w (some g) true grid kind = rw (grid, kind, tags_at-entry_json w.tags) refl
read_wall_cases w (some g) false grid kind = rw (grid, kind, tags_at-entry_json w.tags) refl

read_walls-cons :
    (fs : Fields) (vs : Items) (w : ConfigWall) (ws : List ConfigWall)
    → read_wall fs ≡ some w
    → read_walls vs ≡ some ws
    → read_walls (cons (obj fs) vs) ≡ some (w ∷ ws)
unfolding read_walls
read_walls-cons fs vs w ws first rest = rw (first, rest, read_walls) refl

read_walls-walls_json : (ws : List WallConfig) → read_walls (walls_json ws) ≡ some (map seen ws)
unfolding read_walls walls_json
read_walls-walls_json [] = refl
read_walls-walls_json (w ∷ ws) =
    read_walls-cons (wall_dict w) (walls_json ws) (seen w) (map seen ws)
      (read_wall_cases w w.grid (w.kind == "bigscreen") refl refl) (read_walls-walls_json ws)

tile_count-seen : (w : WallConfig) → IsPlain w → (wall_to_db (seen w)).tile_count ≡ tile_count w
unfolding wall_to_db wall_tiles tile_count
tile_count-seen w (inl (kind, (g, grid))) = rw kind rw grid refl
tile_count-seen w (inr (kind, grid)) = rw kind rw grid refl

tile_counts-seen :
    (ws : List WallConfig)
    → All IsPlain ws
    → map (λ (wall : WallConfig). (wall_to_db (seen wall)).tile_count) ws ≡ map tile_count ws
tile_counts-seen [] plain = refl
tile_counts-seen (w ∷ ws) (one, rest) = rw (tile_count-seen w one, tile_counts-seen ws rest) refl

-- The walls that are fetched from a configuration service are those of the configuration it serves,
-- in its order, and the row made of a wall has the number of tiles that the configuration service
-- reports for it, provided that each wall of tiles has a grid and each big screen has none.
pub fetch_walls-list_walls :
    (cfg : PlatformConfig) (w : Watcher)
    → w.current ≡ some cfg
    → All IsPlain cfg.walls
    → (fetch_walls (list_walls (some w)) ≡ some (map seen cfg.walls))
      × (map (λ (wall : WallConfig). (wall_to_db (seen wall)).tile_count) cfg.walls
          ≡ map tile_count cfg.walls)
unfolding fetch_walls list_walls with_config get_config walls_of has_field get_field
fetch_walls-list_walls cfg w current plain =
    (rw current (read_walls-walls_json cfg.walls), tile_counts-seen cfg.walls plain)
