-- ===== src/Agents/Wallctl/Tokens.antt =====
-- agents/wallctl/vw_wallctl.py: the caches that are loaded, the layout that is fetched and the tokens
-- that are asked for. JSON's text is a parameter; `request_json` is that of the agents.
use Prim.Native.String.{◌++◌ as append}
use airgap_videowall.Prelude.{
  ℕ, ◌+◌, ◌-◌, String, Bool, false, ◌&&◌, Option, none, some, ltb, leb, if◌then◌else◌, ◌==◌,
  string_eq,
}
use airgap_videowall.Values.{
  Value, Fields, obj, str, num, end, field, get_field, truthy, str_of, int_of, ℤ, pos, negsuc,
}
use airgap_videowall.Agents.Http.{Reply, returned, failed, request_json, Returned}
use airgap_videowall.Agents.Wallctl.Settings.{Config, field_of, get_default}
use airgap_videowall.Agents.Wallctl.State.{◌>>=◌, M, return, raise, lift, continue}

-- `json.dumps(…, indent=2)` and `json.loads`, `none` where it raises.
pub record Json : Type 0 where
  pub dumps : Value → String
  pub loads : String → Option Value
  pub repr : Value → String

unfoldable pub called : Returned → M (ℕ × Value)
called (returned status v) s = (s, some (status, v))
called failed s = (s, none)

-- `request_json(…, retries=2)`: an exception passes through
unfoldable pub call : (ℕ → Reply) → M (ℕ × Value)
unfolding called
call replies s = called (request_json replies 2).result (record s { requests = s.requests + 1 })

-- now + interval, of an interval that may be negative
unfoldable pub later : ℕ → ℤ → ℤ
later now (pos n) = pos (now + n)
later now (negsuc n) = if leb (n + 1) now then pos (now - (n + 1)) else negsuc (n - now)

-- exp - now > 30
unfoldable pub is_fresh : ℤ → ℕ → Bool
is_fresh (pos exp) now = ltb (now + 30) exp
is_fresh (negsuc n) now = false

-- d[k] = v
unfoldable pub put_field : String → Value → Fields → Fields
put_field k v end = field k v end
put_field k v (field j w fs) = if j == k then field j v fs else field j w (put_field k v fs)

-- self._token_cache[key] = …
unfoldable pub set_item : Value → String → Value → Option Value
unfolding put_field
set_item (obj fs) k v = some (obj (put_field k v fs))
set_item _ k v = none

abbrev pub token_key : String → String → String
token_key source_id tile_id = append source_id (append ":" tile_id)

module _ (json : Json) where
  -- a file that is there and cannot be read as JSON gives an empty cache
  unfoldable pub load_file : Option String → Value → Value
  load_file none old = old
  load_file (some text) old = elim (json.loads text) [ none ↦ obj end | some v ↦ v ]

  -- `_load_caches`
  unfoldable pub load_caches : M (Unit {0})
  unfolding load_file
  load_caches s = (
    record s {
      token_cache = load_file s.token_file s.token_cache;
      current_layout = load_file s.layout_file s.current_layout;
    },
    some tt,
  )

  abbrev pub empty_layout : Config → Value
  empty_layout cfg = obj (field "wall_id" (str cfg.wall_id) (field "tiles" (obj end) end))

  -- what the cache gives when the layout could not be fetched
  unfoldable pub cached_layout : Config → Option String → Value
  cached_layout cfg none = empty_layout cfg
  cached_layout cfg (some text) = elim (json.loads text) [ none ↦ empty_layout cfg | some v ↦ v ]

  unfoldable pub keep_layout : Config → ℕ → Value → M Value
  unfolding cached_layout
  keep_layout cfg status v s =
      if ltb status 400 && truthy v
      then (record s { layout_file = some (json.dumps v) }, some v)
      else (s, some (cached_layout cfg s.layout_file))

  -- `fetch_active_layout`
  unfoldable pub fetch_active_layout : Config → (ℕ → Reply) → M Value
  unfolding call keep_layout
  fetch_active_layout cfg replies = do r ← call replies; keep_layout cfg r.0 r.1

  -- a cached token with more than half a minute left
  unfoldable pub cached_token : ℕ → Value → M (Option String)
  unfolding is_fresh get_default str_of int_of
  cached_token now v =
      if truthy v
      then elim v [
        | obj entry ↦ do
          exp ← lift (int_of (get_default entry "exp" (num (pos 0))))
          return
              (if is_fresh exp now then some (str_of json.repr (get_field entry "token")) else none)
        | _ ↦ raise
      ]
      else return none

  unfoldable pub store_token : String → Value → ℤ → M (Option String)
  unfolding set_item str_of
  store_token key token exp s =
      if truthy token
      then elim (set_item s.token_cache key
          (obj (field "token" token (field "exp" (num exp) end)))) [
            | none ↦ (s, none)
            | some cache ↦ (
              record s { token_cache = cache; token_file = some (json.dumps cache) },
              some (some (str_of json.repr token)),
            )
          ]
      else (s, some none)

  -- the JSON of an answer
  unfoldable pub read_token : Config → String → ℕ → Value → M (Option String)
  unfolding store_token later get_default int_of
  read_token cfg key now (obj fs) = do
    exp ← lift (int_of (get_default fs "exp" (num (later now cfg.token_refresh_interval))))
    store_token key (get_field fs "token") exp
  read_token cfg key now _ = raise

  unfoldable pub ask_token : Config → String → ℕ → (ℕ → Reply) → M (Option String)
  unfolding call read_token
  ask_token cfg key now replies = do
    r ← call replies
    if leb 400 r.0 then return none else read_token cfg key now r.1

  unfoldable pub ask_unless : Config → String → ℕ → (ℕ → Reply) → Option String → M (Option String)
  unfolding ask_token
  ask_unless cfg key now replies (some token) = return (some token)
  ask_unless cfg key now replies none = ask_token cfg key now replies

  -- `request_subscribe_token`
  unfoldable pub request_subscribe_token :
      Config → String → String → ℕ → (ℕ → Reply) → M (Option String)
  unfolding cached_token ask_unless field_of
  request_subscribe_token cfg source_id tile_id now replies s =
      continue
        (continue (s, field_of s.token_cache (token_key source_id tile_id)) (cached_token now))
        (ask_unless cfg (token_key source_id tile_id) now replies)
