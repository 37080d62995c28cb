-- ===== src/Reconcile/Mapping.antt =====
-- services/mgmt-api/app/reconcile.py: an entry of the configuration, as vw-config serves it, and the
-- fields of the row that it becomes.
use airgap_videowall.Prelude.{
  ℕ, ◌*◌, String, ◌≡◌, refl, subst, ◌↔◌, Bool, true, false, ◌&&◌, Option, none, some, List, [], ◌∷◌,
  arith, if◌then◌else◌, ◌==◌, beq_self, eq_of_beq, elem, In, here, there, eq_iff, string_eq, nat_eq,
}
use airgap_videowall.Prelude.Dict.{Dict}
use airgap_videowall.Prelude.Text.{concat}
use airgap_videowall.Config.Data.{WallGrid, or_default}
use airgap_videowall.Mgmt.Data.{WallIn, Wall, SourceIn, Source}
use airgap_videowall.Reconcile.Sorting.{
  sorted, sorted_set, In-sorted, In-sorted_set, sorted-Ascending, sorted_set-Ascending,
}
use airgap_videowall.Reconcile.Rows.{Managed}

-- The keys of a wall that are read; `none` where the mapping has no such key.
pub record ConfigWall : Type 0 where
  pub id : String
  pub kind : Option String
  pub grid : Option WallGrid
  pub screens : Option ℕ
  pub resolution : Option String
  pub tags : Dict String String

pub record ConfigSource : Type 0 where
  pub id : String
  pub kind : Option String
  pub endpoint : Option String
  pub codec : Option String
  pub tags : Dict String String

-- `_TYPE_MAP_WALL.get(t, "tilewall")`
unfoldable pub wall_type : String → String
wall_type t =
    if t == "tiles" then "tilewall" else if t == "bigscreen" then "bigscreen" else "tilewall"

-- `_TYPE_MAP_SRC.get(t, "hdmi")`
unfoldable pub source_type : String → String
source_type t = if t == "webrtc" then "vdi" else "hdmi"

-- `_PROTO_MAP.get(t, "other")`
unfoldable pub source_protocol : String → String
source_protocol t = if elem t ("webrtc" ∷ "srt" ∷ "rtsp" ∷ "rtp" ∷ []) then t else "other"

-- `_config_tag`
unfoldable pub config_tag : String → String
config_tag id = concat ("config:" ∷ id ∷ [])

-- `[f"{k}:{v}" for k, v in raw_tags.items()]`, and the marker tag behind it
unfoldable pub tag_list : Dict String String → String → List String
unfolding config_tag
tag_list [] id = config_tag id ∷ []
tag_list ((k, v) ∷ d) id = concat (k ∷ ":" ∷ v ∷ []) ∷ tag_list d id

unfoldable pub wall_tiles : Option WallGrid → Option ℕ → ℕ
wall_tiles none screens = or_default screens 1
wall_tiles (some g) screens = g.rows * g.cols

-- `_wall_to_db`
unfoldable pub wall_to_db : ConfigWall → WallIn
unfolding wall_type wall_tiles tag_list
wall_to_db w = record {
  name = w.id;
  wall_type = wall_type (or_default w.kind "tiles");
  tile_count = wall_tiles w.grid w.screens;
  resolution = or_default w.resolution "1920x1080";
  tags = sorted_set (tag_list w.tags w.id);
}

-- `_source_to_db`
unfoldable pub source_to_db : ConfigSource → SourceIn
unfolding source_type source_protocol tag_list
source_to_db s = record {
  name = s.id;
  source_type = source_type (or_default s.kind "srt");
  protocol = source_protocol (or_default s.kind "srt");
  endpoint_url = or_default s.endpoint "";
  codec = or_default s.codec "h264";
  tags = sorted_set (tag_list s.tags s.id);
  health_status = "unknown";
}

-- `==` of two lists of texts
unfoldable pub same_texts : List String → List String → Bool
same_texts [] [] = true
same_texts [] (y ∷ ys) = false
same_texts (x ∷ xs) [] = false
same_texts (x ∷ xs) (y ∷ ys) = x == y && same_texts xs ys

-- `existing == proposed` of a wall
unfoldable pub wall_agrees : WallIn → WallIn → Bool
unfolding same_texts
wall_agrees old new =
    old.name == new.name
    && (old.wall_type == new.wall_type
        && (old.tile_count == new.tile_count
            && (old.resolution == new.resolution && same_texts (sorted old.tags) new.tags)))

-- `existing == proposed` of a source
unfoldable pub source_agrees : SourceIn → SourceIn → Bool
unfolding same_texts
source_agrees old new =
    old.name == new.name
    && (old.source_type == new.source_type
        && (old.protocol == new.protocol
            && (old.endpoint_url == new.endpoint_url
                && (old.codec == new.codec && same_texts (sorted old.tags) new.tags))))

pub same_texts_iff : (xs ys : List String) → (same_texts xs ys ≡ true) ↔ (xs ≡ ys)
unfolding same_texts
same_texts_iff [] [] = (λ h. refl, λ h. refl)
same_texts_iff [] (y ∷ ys) = (λ h. absurd (cc), λ h. absurd (cc))
same_texts_iff (x ∷ xs) [] = (λ h. absurd (cc), λ h. absurd (cc))
same_texts_iff (x ∷ xs) (y ∷ ys) = (
  λ h. cc (eq_of_beq x y (ground arith), (same_texts_iff xs ys).0 (ground arith)),
  λ h. ground (arith, eq_iff x y, (same_texts_iff xs ys).1 (cc)),
)

marker-In : (d : Dict String String) (id : String) → In (config_tag id) (tag_list d id)
unfolding tag_list
marker-In [] id = here refl
marker-In ((k, v) ∷ d) id = there (marker-In d id)

-- The tags of a row that was written agree with themselves when they are read back and sorted.
sorted_tags-agree : (xs : List String) → same_texts (sorted (sorted_set xs)) (sorted_set xs) ≡ true
sorted_tags-agree xs =
    (same_texts_iff _ _).1 (sorted-Ascending (sorted_set xs) (sorted_set-Ascending xs))

pub agreeing_tags :
    (old new : List String) (t : String) → same_texts (sorted old) new ≡ true → In t old → In t new
agreeing_tags old new t h m =
    subst (In t) ((same_texts_iff (sorted old) new).0 h) (In-sorted t old m)

pub wall_agrees_self : (w : ConfigWall) → wall_agrees (wall_to_db w) (wall_to_db w) ≡ true
unfolding wall_agrees wall_to_db
wall_agrees_self w =
    rw
      (
        beq_self w.id,
        beq_self (wall_type (or_default w.kind "tiles")),
        beq_self (wall_tiles w.grid w.screens),
        beq_self (or_default w.resolution "1920x1080"),
      )
      (sorted_tags-agree (tag_list w.tags w.id))

pub source_agrees_self :
    (s : ConfigSource) (health : String)
    → source_agrees (record (source_to_db s) { health_status = health }) (source_to_db s) ≡ true
unfolding source_agrees source_to_db
source_agrees_self s health =
    rw
      (
        beq_self s.id,
        beq_self (source_type (or_default s.kind "srt")),
        beq_self (source_protocol (or_default s.kind "srt")),
        beq_self (or_default s.endpoint ""),
        beq_self (or_default s.codec "h264"),
      )
      (sorted_tags-agree (tag_list s.tags s.id))

pub wall_agrees_tags :
    (r : Wall) (w : ConfigWall)
    → wall_agrees r.input (wall_to_db w) ≡ true
    → same_texts (sorted r.input.tags) (wall_to_db w).tags ≡ true
unfolding wall_agrees
wall_agrees_tags r w h = ground arith

pub source_agrees_tags :
    (r : Source) (s : ConfigSource)
    → source_agrees r.input (source_to_db s) ≡ true
    → same_texts (sorted r.input.tags) (source_to_db s).tags ≡ true
unfolding source_agrees
source_agrees_tags r s h = ground arith

pub wall_marker : (w : ConfigWall) → In (config_tag w.id) (wall_to_db w).tags
unfolding wall_to_db
wall_marker w = In-sorted_set (config_tag w.id) _ (marker-In w.tags w.id)

pub source_marker : (s : ConfigSource) → In (config_tag s.id) (source_to_db s).tags
unfolding source_to_db
source_marker s = In-sorted_set (config_tag s.id) _ (marker-In s.tags s.id)

-- The walls of the configuration, as rows.
unfoldable pub managed_walls : Managed Wall ConfigWall
managed_walls = record {
  id = λ r. r.id;
  tags = λ r. r.input.tags;
  marker = λ w. config_tag w.id;
  carries = λ w. (wall_to_db w).tags;
  insert = λ n w. record { id = n; input = wall_to_db w };
  update = λ r w. record { id = r.id; input = wall_to_db w };
  agrees = λ r w. wall_agrees r.input (wall_to_db w);
  id-insert = λ n w. refl;
  id-update = λ r w. refl;
  tags-insert = λ n w. refl;
  tags-update = λ r w. refl;
  agrees-insert = λ n w. wall_agrees_self w;
  agrees-update = λ r w. wall_agrees_self w;
  agrees-tags =
      λ r w t h m. agreeing_tags r.input.tags (wall_to_db w).tags t (wall_agrees_tags r w h) m;
  marker-carries = λ w. wall_marker w;
}

-- The sources of the configuration, as rows: an UPDATE leaves the health of the row.
unfoldable pub managed_sources : Managed Source ConfigSource
managed_sources = record {
  id = λ r. r.id;
  tags = λ r. r.input.tags;
  marker = λ s. config_tag s.id;
  carries = λ s. (source_to_db s).tags;
  insert = λ n s. record { id = n; input = source_to_db s };
  update = λ r s. record {
    id = r.id;
    input = record (source_to_db s) { health_status = r.input.health_status };
  };
  agrees = λ r s. source_agrees r.input (source_to_db s);
  id-insert = λ n s. refl;
  id-update = λ r s. refl;
  tags-insert = λ n s. refl;
  tags-update = λ r s. refl;
  agrees-insert = λ n s. source_agrees_self s (source_to_db s).health_status;
  agrees-update = λ r s. source_agrees_self s r.input.health_status;
  agrees-tags =
      λ r s t h m. agreeing_tags r.input.tags (source_to_db s).tags t (source_agrees_tags r s h) m;
  marker-carries = λ s. source_marker s;
}
