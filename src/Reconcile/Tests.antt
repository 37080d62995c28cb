-- ===== src/Reconcile/Tests.antt =====
-- The reconciliation of one wall and one source into an empty database.
use airgap_videowall.Reconcile.Sorting.{sorted_set, insert_once, before}
use airgap_videowall.Prelude.Text.{concat}
use airgap_videowall.Prelude.{
  ℕ, ◌≡◌, refl, sym, ap, ◌∙◌, inl, inr, Bool, true, false, none, some, List, [], ◌∷◌, map,
  Bool-cases, find, In, here, there,
}
use airgap_videowall.Mgmt.Data.{Env, empty_db}
use airgap_videowall.Reconcile.Rows.{IsIssued, Managed, Select, Selects}
use airgap_videowall.Reconcile.Mapping.{
  ConfigWall, ConfigSource, managed_walls, managed_sources, wall_to_db, tag_list, config_tag,
  wall_tiles,
}
use airgap_videowall.Reconcile.Upsert.{no_stats, reconcile_once}
use airgap_videowall.Reconcile.Idempotence.{AllApart, reconcile_once-idempotent}
use airgap_videowall.Reconcile.Served.{fetch_walls-list_walls, fetch_walls, seen}
use airgap_videowall.Config.Handlers.{list_walls}
use airgap_videowall.Config.Derived.{tile_count}
use airgap_videowall.Config.Data.{WallConfig}
use airgap_videowall.Config.Sample.{watcher, cfg}

abbrev env : Env
env = record {
  codec = record { sha256_hex = λ t. t; canon_event = λ core. core.action; jsonb = λ fs. fs };
  audit_chain_id = "vw-mgmt";
  read_jsonb = λ fs. "{}";
  isoformat = λ t. "now";
}

abbrev north : ConfigWall
north = record {
  id = "north";
  kind = some "tiles";
  grid = some (record { rows = 2; cols = 3 });
  screens = none;
  resolution = none;
  tags = ("zone", "z1") ∷ ("area", "a1") ∷ [];
}

abbrev camera : ConfigSource
camera = record {
  id = "cam";
  kind = some "rtsp";
  endpoint = some "rtsp://cam";
  codec = none;
  tags = [];
}

tags_sorted : (wall_to_db north).tags ≡ "area:a1" ∷ "config:north" ∷ "zone:z1" ∷ []
unfolding wall_to_db tag_list config_tag concat sorted_set insert_once before
tags_sorted = refl

one_item : {Row Item : Type 0} (k : Managed Row Item) (t : ℕ) (i : Item) → AllApart k ((t, i) ∷ [])
one_item k t i x y (here e) (here f) = (λ m. f ∙ sym e, λ m. e ∙ sym f)
one_item k t i x y (there m) n = elim m [ ]
one_item k t i x y (here e) (there n) = elim n [ ]

no_walls : IsIssued managed_walls empty_db.next_wall empty_db.walls
no_walls = record { unique = λ a b m n h. elim m [ ]; below = λ a m. elim m [ ] }

no_sources : IsIssued managed_sources empty_db.next_source empty_db.sources
no_sources = record { unique = λ a b m n h. elim m [ ]; below = λ a m. elim m [ ] }

-- A database that gives the first row that fits.
abbrev first_row : {Row : Type 0} → Select Row
first_row t p rows = find p rows

first_row-found :
    {Row : Type 0} (p : Row → Bool) (rows : List Row) (r : Row)
    → find p rows ≡ some r
    → In r rows × (p r ≡ true)
first_row-found p [] r h = absurd (cc)
first_row-found p (x ∷ rows) r h = elim (Bool-cases (p x)) [
  | inl e ↦
      let found : some x ≡ some r = rw e at h in
      let same : x ≡ r = cc in (here (sym same), ap p (sym same) ∙ e)
  | inr e ↦ let (m, q) = first_row-found p rows r (rw e at h) in (there m, q)
]

first_row-missing :
    {Row : Type 0} (p : Row → Bool) (rows : List Row)
    → find p rows ≡ none
    → (r : Row) → In r rows
    → p r ≡ false
first_row-missing p [] h r m = elim m [ ]
first_row-missing p (x ∷ rows) h r m = elim (Bool-cases (p x)) [
  | inl e ↦ absurd (cc (rw e at h))
  | inr e ↦ elim m [ here q ↦ ap p q ∙ e | there mr ↦ first_row-missing p rows (rw e at h) r mr ]
]

first_row-Selects : {Row : Type 0} → Selects {Row = Row} first_row
first_row-Selects {Row} = record {
  found = λ t p rows r h. first_row-found p rows r h;
  missing = λ t p rows h r m. first_row-missing p rows h r m;
}

reconcile_once-idempotent_example :
    let after =
      (reconcile_once env first_row first_row
        (some ((1, north) ∷ []))
        (some ((2, camera) ∷ []))
        empty_db).0 in
    reconcile_once env first_row first_row
      (some ((31, north) ∷ []))
      (some ((32, camera) ∷ []))
      after
    ≡ (after, some (no_stats, no_stats))
reconcile_once-idempotent_example =
    reconcile_once-idempotent env first_row first_row ((1, north) ∷ []) ((31, north) ∷ [])
      ((2, camera) ∷ []) ((32, camera) ∷ []) empty_db first_row-Selects first_row-Selects no_walls
      no_sources (λ i mi a b m n p q. elim m [ ]) (λ i mi a b m n p q. elim m [ ])
      (one_item managed_walls 1 north) (one_item managed_sources 2 camera) (λ i m. m) (λ i m. m)

fetch_walls-list_walls_example :
    (fetch_walls (list_walls (some watcher)) ≡ some (map seen cfg.walls))
    × (map (λ (wall : WallConfig). (wall_to_db (seen wall)).tile_count) cfg.walls
        ≡ map tile_count cfg.walls)
fetch_walls-list_walls_example =
    fetch_walls-list_walls cfg watcher refl
      (inl (refl, (record { rows = 2; cols = 3 }, refl)), (inr (refl, refl), tt))

-- A big screen with a grid, which the schema allows, has one endpoint for the configuration service
-- and six in the database.
abbrev mixed : WallConfig
mixed = record {
  id = "w3";
  kind = "bigscreen";
  classification = "secret";
  grid = some (record { rows = 2; cols = 3 });
  screens = 1;
  resolution = "1920x1080";
  latency_class = "broadcast";
  tags = [];
}

mixed_tiles : (tile_count mixed ≡ 1) × ((wall_to_db (seen mixed)).tile_count ≡ 6)
unfolding tile_count wall_to_db wall_tiles
mixed_tiles = (refl, refl)
