-- ===== src/Mgmt/Tests.antt =====
-- The management API at a database with one wall and two layouts.
use airgap_videowall.Mgmt.Granted.{behind, tokens_subscribe-Admits}
use airgap_videowall.Policy.Engine.{get_rules}
use airgap_videowall.Mgmt.Tokens.{
  TokenTools, TokenSubscribeRequest, operator_tags, Subject, IsGranted, tokens_subscribe,
  policy_request,
}
use airgap_videowall.Mgmt.Outcomes.{create_layout-version, activate-switches}
use airgap_videowall.Mgmt.Reachable.{Reach-IsConsistent}
use airgap_videowall.Mgmt.Catalogue.{create_wall}
use airgap_videowall.Mgmt.Access.{handle-IsAllowed}
use airgap_videowall.Mgmt.Guards.{IsAllowed}
use airgap_videowall.Values.{end, Fields, truthy, get_field}
use airgap_videowall.Mgmt.Consistency.{IsConsistent}
use airgap_videowall.Mgmt.Layouts.{
  create_layout, report_layout, settle_active, deactivate, ensure_layout_version, max_version,
  activate,
}
use airgap_videowall.Prelude.{◌<◌, ◌≡◌, refl, ◌≢◌, ◌↔◌, true, [], ◌∷◌, In, false, none}
use airgap_videowall.Values.{pos, str, bool, list, obj, nil, cons, field}
use airgap_videowall.Policy.Service.{World, Engine, iterate, query_of}
use airgap_videowall.Policy.Verdicts.{IsWellFormed, Admits}
use airgap_videowall.Mgmt.Data.{
  empty_db, Env, User, Db, LayoutIn, WallIn, Layout, append_audit_event, failed, dict_of, forbidden,
}
use airgap_videowall.Mgmt.Requests.{
  Reach, start, next, handle, serve, permits, guard, create_wall_request, create_layout_request,
  delete_wall_request,
}

abbrev env : Env
env = record {
  codec = record { sha256_hex = λ t. t; canon_event = λ core. core.action; jsonb = λ fs. fs };
  audit_chain_id = "vw-mgmt";
  read_jsonb = λ fs. "{}";
  isoformat = λ t. "now";
}

abbrev root : User
root = record { roles = "admin" ∷ []; actor = "root" }

abbrev operator : User
operator = record { roles = "operator" ∷ []; actor = "olga" }

abbrev guest : User
guest = record { roles = "viewer" ∷ []; actor = "gus" }

abbrev wall_in : WallIn
wall_in = record {
  name = "north";
  wall_type = "tilewall";
  tile_count = 6;
  resolution = "1920x1080";
  tags = [];
}

abbrev layout_in : LayoutIn
layout_in = record {
  wall_id = 1;
  name = "day";
  grid_config = end;
  preset_name = "";
  is_active = true;
}

abbrev night_in : LayoutIn
night_in = record layout_in { name = "night" }

abbrev one_wall : Db
one_wall = (handle env root 1 (create_wall_request wall_in) empty_db).0

abbrev one_layout : Db
one_layout = (handle env operator 2 (create_layout_request layout_in) one_wall).0

abbrev two_layouts : Db
two_layouts = (handle env operator 3 (create_layout_request night_in) one_layout).0

reached : Reach env empty_db two_layouts
reached =
    next
      (next (next start root 1 (create_wall_request wall_in)) operator 2
        (create_layout_request layout_in))
      operator 3 (create_layout_request night_in)

empty-IsConsistent : IsConsistent empty_db
empty-IsConsistent = record {
  one_active = λ a b m n p q w. elim m [ ];
  unique_ids = λ a b m n e. elim m [ ];
  issued = λ a m. elim m [ ];
  refers = λ a m. elim m [ ];
}

Reach-IsConsistent_example : IsConsistent two_layouts
Reach-IsConsistent_example = Reach-IsConsistent env empty_db two_layouts empty-IsConsistent reached

handle-IsAllowed_example :
    (IsAllowed (delete_wall_request 1) guest
      → (handle env guest 4 (delete_wall_request 1) two_layouts
          ≡ serve env guest 4 (delete_wall_request 1) two_layouts)
        × ((handle env guest 4 (delete_wall_request 1) two_layouts).1 ≢ failed forbidden))
    × (¬ IsAllowed (delete_wall_request 1) guest
        → handle env guest 4 (delete_wall_request 1) two_layouts ≡ (two_layouts, failed forbidden))
handle-IsAllowed_example = handle-IsAllowed env guest 4 (delete_wall_request 1) two_layouts

abbrev day : Layout
day = record {
  id = 1;
  wall_id = 1;
  name = "day";
  version = 1;
  grid_config = end;
  preset_name = "";
  is_active = true;
  created_by = "olga";
  created_at = 2;
}

activate-switches_example :
    let after = (activate env operator 5 1 one_layout).0.layouts in
    ((a : Layout) → In a after → a.wall_id ≡ 1 → (a.is_active ≡ true) ↔ (a.id ≡ 1))
    × ((a : Layout) → a.wall_id ≢ 1 → In a after ↔ In a one_layout.layouts)
unfolding handle serve create_layout report_layout permits guard create_wall append_audit_event
    dict_of settle_active deactivate ensure_layout_version max_version
activate-switches_example =
    activate-switches env operator 5 one_layout 1 day
      (Reach-IsConsistent env empty_db one_layout empty-IsConsistent (
        next (next start root 1 (create_wall_request wall_in)) operator 2
          (create_layout_request layout_in)))
      refl

create_layout-version_example :
    (row : Layout) × In row (create_layout env operator 3 night_in one_layout).0.layouts
    × (row.id ≡ 2)
    × (row.wall_id ≡ 1)
    × (row.is_active ≡ true)
    × ((a : Layout) → In a one_layout.layouts → a.wall_id ≡ 1 → a.version < row.version)
unfolding handle create_layout report_layout permits guard create_wall append_audit_event dict_of
    settle_active deactivate ensure_layout_version max_version
create_layout-version_example = create_layout-version env operator 3 one_layout night_in refl

abbrev document : Fields
document =
    field "rules"
      (list (
        cons
          (obj (
            field "id" (str "open") (
              field "effect" (str "allow")
                (field "when" (list (cons (obj (field "always" (bool true) end)) nil)) end))))
          nil))
      end

document-IsWellFormed : IsWellFormed document
unfolding get_rules truthy get_field
document-IsWellFormed = record { rules = ((_, refl), tt); defaults = end; defaults_lem = refl }

abbrev world : World
world = record {
  candidates = [];
  is_file = λ p. false;
  load_yaml = λ p. none;
  http_get = λ url. none;
  config_url = "";
  mgmt_api_url = "";
}

abbrev token_tools : TokenTools
token_tools = record {
  repr = λ v. "<value>";
  policy = λ req. none;
  jwt_encode = λ claims. claims.tile_id;
  stream_token_ttl_seconds = 300;
}

abbrev viewer : Subject
viewer = record { claims = field "sub" (str "vera") end; roles = "viewer" ∷ [] }

abbrev subscription : TokenSubscribeRequest
subscription = record { wall_id = pos 1; source_id = pos 2; tile_id = "t0" }

abbrev engine : Engine
engine = record { path = none; policy = document; source = "file" }

tokens_subscribe-Admits_example :
    IsGranted
      (tokens_subscribe env (behind token_tools world engine) 10 viewer subscription one_wall).1
    ↔ Admits token_tools.repr document
        (query_of token_tools.repr world (policy_request token_tools.repr viewer subscription []))
unfolding permits operator_tags iterate get_field truthy
tokens_subscribe-Admits_example =
    tokens_subscribe-Admits env token_tools 10 world engine viewer subscription [] one_wall
      document-IsWellFormed refl refl
