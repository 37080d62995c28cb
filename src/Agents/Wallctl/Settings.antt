-- ===== src/Agents/Wallctl/Settings.antt =====
-- agents/wallctl/vw_wallctl.py: the configuration that `WallCtl.__init__` reads, and what Python's
-- mappings give.
use Prim.Native.Char.{code}
use airgap_videowall.Prelude.{String, Bool, Option, none, some, if◌then◌else◌, ◌==◌, nat_eq, true}
use airgap_videowall.Values.{
  Value, Fields, obj, end, get_field, has_field, truthy, num, bool, int_of, str_of, ℤ, pos,
}

-- d.get(k, default)
unfoldable pub get_default : Fields → String → Value → Value
get_default fs k default = if has_field fs k then get_field fs k else default

-- v.get(k): `none` where `v` is no mapping, and so has no such method
unfoldable pub field_of : Value → String → Option Value
field_of (obj fs) k = some (get_field fs k)
field_of _ k = none

-- `v or {}`, where a value that is no mapping fails in its first use
unfoldable pub mapping_of : Value → Option Fields
mapping_of (obj fs) = some fs
mapping_of v = if truthy v then none else some end

-- d[k]: `none` where Python raises
unfoldable pub required : Fields → String → Option Value
required fs k = if has_field fs k then some (get_field fs k) else none

-- s.rstrip("/")
unfoldable pub rstrip_slash : String → String
rstrip_slash String.[] = String.[]
rstrip_slash (String.◌∷◌ c s) = elim (rstrip_slash s) [
  | String.[] ↦ (if code c == b'/' then String.[] else String.◌∷◌ c String.[])
  | String.◌∷◌ d t ↦ String.◌∷◌ c (String.◌∷◌ d t)
]

-- `self.…`, as `__init__` reads it
pub record Config : Type 0 where
  pub wall_id : String
  pub controller_id : String
  pub mgmt_api_url : String
  pub health_url : String
  pub heartbeat_interval : ℤ
  pub token_refresh_interval : ℤ
  pub layout_poll_interval : ℤ
  pub tile_health_interval : ℤ
  pub tile_player_binary : String
  pub safe_slate_image : String
  pub max_retries : ℤ
  pub fallback_to_slate : Bool

infixl 5 ◌>>=◌
abbrev ◌>>=◌ : {A B : Type 0} → Option A → (A → Option B) → Option B
none >>= f = none
some a >>= f = f a

-- int(cfg.get(k, default))
unfoldable pub int_option : Fields → String → ℤ → Option ℤ
unfolding get_default
int_option cfg k default = int_of (get_default cfg k (num default))

-- `WallCtl.__init__`: `none` where it raises. The delay between two starts of a player is read as
-- a float, which is left out.
unfoldable pub configure : (Value → String) → Fields → Option Config
unfolding get_default field_of mapping_of required rstrip_slash int_option
configure repr cfg = do
  wall_id ← required cfg "wall_id"
  controller_id ← required cfg "controller_id"
  mgmt_api_url ← required cfg "mgmt_api_url"
  health_url ← required cfg "health_url"
  heartbeat_interval ← int_option cfg "heartbeat_interval" (pos 10)
  token_refresh_interval ← int_option cfg "token_refresh_interval" (pos 240)
  layout_poll_interval ← int_option cfg "layout_poll_interval" (pos 30)
  tile_health_interval ← int_option cfg "tile_health_interval" (pos 5)
  tile_player_binary ← required cfg "tile_player_binary"
  safe_slate_image ← required cfg "safe_slate_image"
  rules ← mapping_of (get_field cfg "failover_rules")
  max_retries ← int_option rules "max_retries" (pos 3)
  ca_cert ← required cfg "ca_cert"
  client_cert ← required cfg "client_cert"
  client_key ← required cfg "client_key"
  some (record {
    wall_id = str_of repr wall_id;
    controller_id = str_of repr controller_id;
    mgmt_api_url = rstrip_slash (str_of repr mgmt_api_url);
    health_url = rstrip_slash (str_of repr health_url);
    heartbeat_interval = heartbeat_interval;
    token_refresh_interval = token_refresh_interval;
    layout_poll_interval = layout_poll_interval;
    tile_health_interval = tile_health_interval;
    tile_player_binary = str_of repr tile_player_binary;
    safe_slate_image = str_of repr safe_slate_image;
    max_retries = max_retries;
    fallback_to_slate = truthy (get_default rules "fallback_to_slate" (bool true));
  })
