-- ===== src/Policy/Service.antt =====
-- services/policy/app/main.py: where the document comes from (`reload`), and the `/evaluate`
-- handler with its tag lookup. What the network and the file system answer are parameters.

use Prim.Native.String.{◌++◌ as append}
use airgap_videowall.Prelude.{
  String, Bool, true, false, not, ◌&&◌, Option, none, some, List, [], ◌∷◌, map, if◌then◌else◌, ◌==◌,
  find, string_eq,
}
use airgap_videowall.Values.{
  ℤ, text_of_int, Value, Fields, bool, str, list, obj, nil, cons, end, field, values, or_else,
  get_field, has_field, str_of,
}
use airgap_videowall.Policy.Engine.{Result, EvalResponse, evaluate, Query}

-- `len(v)` does not raise
unfoldable pub has_len : Value → Bool
has_len (str s) = true
has_len (list vs) = true
has_len (obj fs) = true
has_len _ = false

-- `_fetch_policy_from_vw_config`, given what the request returned (`none` where it raised). The
-- log line takes the length of `rules` inside the `try`.
unfoldable pub fetch_policy : Option Value → Option Fields
unfolding has_len
fetch_policy (some (obj fs)) =
    if has_field fs "rules" && has_len (get_field fs "rules") then some fs else none
fetch_policy _ = none

pub record Engine : Type 0 where
  pub path : Option String
  pub policy : Fields
  pub source : String

-- {"rules": [{"id": "default-deny", "effect": "deny", "when": [{"always": True}]}]}
abbrev pub default_deny : Fields
default_deny =
    let always = obj (field "always" (bool true) end) in
    let rule = obj (
      field "id" (str "default-deny")
        (field "effect" (str "deny") (field "when" (list (cons always nil)) end))) in
    field "rules" (list (cons rule nil)) end

-- What the surroundings answer: the files that are there, what a file parses to (`none` where
-- reading or parsing raises), the answer of an HTTP GET that is read as JSON.
pub record World : Type 0 where
  pub candidates : List String
  pub is_file : String → Bool
  pub load_yaml : String → Option Value
  pub http_get : String → Option Value
  pub config_url : String
  pub mgmt_api_url : String

-- `_resolve_policy_path`
unfoldable pub resolve_policy_path : World → Option String
resolve_policy_path w = find (λ p. not (p == "") && w.is_file p) w.candidates

-- the document of a file: an empty one counts as an empty mapping, and only a mapping will do
unfoldable pub file_policy : Option Value → Option Fields
file_policy none = none
file_policy (some doc) = elim (or_else doc (obj end)) [ obj fs ↦ some fs | _ ↦ none ]

-- `a or b` of two paths
unfoldable pub or_path : Option String → Option String → Option String
or_path (some p) q = if p == "" then q else some p
or_path none q = q

unfoldable pub use_default : Engine → Engine
use_default e = record e { policy = default_deny; source = "empty-default" }

unfoldable pub from_file : World → Engine → String → Engine
from_file w e path = elim (file_policy (w.load_yaml path)) [
  | some fs ↦ record e { policy = fs; source = append "file:" path }
  | none ↦ use_default e
]

unfoldable pub from_path : World → Engine → Option String → Engine
from_path w e none = use_default e
from_path w e (some path) = if path == "" then use_default e else from_file w e path

-- `PolicyEngine.reload`
unfoldable pub reload : World → Engine → Engine
unfolding fetch_policy from_path from_file use_default file_policy
reload w e = elim (fetch_policy (w.http_get (append w.config_url "/api/v1/policy"))) [
  | some fs ↦ record e { policy = fs; source = "vw-config" }
  | none ↦ from_path w e (or_path e.path (resolve_policy_path w))
]

-- `PolicyEngine.__init__`
unfoldable pub init : World → Option String → Engine
init w path =
    reload w (record { path = or_path path (resolve_policy_path w); policy = end; source = "none" })

characters : String → List Value
characters String.[] = []
characters (String.◌∷◌ c s) = str (String.◌∷◌ c String.[]) ∷ characters s

field_names : Fields → List Value
field_names end = []
field_names (field k v fs) = str k ∷ field_names fs

-- `[… for t in v]`: `none` where `v` cannot be iterated
unfoldable pub iterate : Value → Option (List Value)
unfolding characters field_names
iterate (list vs) = some (values vs)
iterate (obj fs) = some (field_names fs)
iterate (str s) = some (characters s)
iterate _ = none

-- The fields of `EvalRequest`.
pub record EvalRequest : Type 0 where
  pub wall_id : ℤ
  pub source_id : ℤ
  pub operator_id : String
  pub operator_roles : List String
  pub operator_tags : List String

module _ (repr : Value → String) where
  unfoldable pub str_each : Option (List Value) → List String
  str_each none = []
  str_each (some vs) = map (str_of repr) vs

  -- one `try` of `_lookup_tags`: what raises leaves the empty list
  unfoldable pub response_tags : Option Value → List String
  unfolding str_each
  response_tags (some (obj fs)) = str_each (iterate (or_else (get_field fs "tags") (list nil)))
  response_tags _ = []

  unfoldable pub wall_tags : World → ℤ → List String
  wall_tags w wall_id =
      response_tags
        (w.http_get (append w.mgmt_api_url (append "/api/v1/walls/" (text_of_int wall_id))))

  unfoldable pub source_tags : World → ℤ → List String
  source_tags w source_id =
      response_tags
        (w.http_get (append w.mgmt_api_url (append "/api/v1/sources/" (text_of_int source_id))))

  -- The arguments that the `/evaluate` handler hands over. `_coerce_tags` leaves a list of texts
  -- as it is.
  abbrev pub query_of : World → EvalRequest → Query
  query_of w req = record {
    wall_id = req.wall_id;
    source_id = req.source_id;
    operator_id = req.operator_id;
    operator_roles = req.operator_roles;
    operator_tags = req.operator_tags;
    source_tags = source_tags w req.source_id;
    wall_tags = wall_tags w req.wall_id;
  }

  -- The `/evaluate` handler.
  unfoldable pub handle_evaluate : World → Engine → EvalRequest → Result EvalResponse
  handle_evaluate w e req = evaluate repr e.policy (query_of w req)
