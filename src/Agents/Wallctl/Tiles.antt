-- ===== src/Agents/Wallctl/Tiles.antt =====
-- agents/wallctl/vw_wallctl.py: the tile players, one process for each tile. The processes that the
-- system starts, and those that are alive, are parameters.
use airgap_videowall.Prelude.{
  ℕ, zero, suc, ◌+◌, String, Bool, Option, none, some, List, [], ◌∷◌, if◌then◌else◌, ◌==◌,
  string_eq,
}
use airgap_videowall.Prelude.Dict.{Dict, put, pop}
use airgap_videowall.Values.{Fields, str, str_of, ℤ, pos, negsuc}
use airgap_videowall.Agents.Http.{Reply}
use airgap_videowall.Agents.Wallctl.Settings.{Config, get_default}
use airgap_videowall.Agents.Wallctl.State.{Player, M, return, ◌>>=◌, ◌>>◌}
use airgap_videowall.Agents.Wallctl.Tokens.{Json, request_subscribe_token}

-- What a start meets: the time, the answers to the request for a token, and the process id that
-- each try gets, `none` where the start raises.
pub record Meets : Type 0 where
  pub now : ℕ
  pub replies : ℕ → Reply
  pub spawned : ℕ → Option ℕ

-- `_stop_tile`: exceptions while it ends the process are ignored
unfoldable pub stop_tile : String → M (Unit {0})
stop_tile tile_id s = (record s { tile_procs = pop s.tile_procs tile_id }, some tt)

-- `_show_slate`
unfoldable pub show_slate : Config → String → M (Unit {0})
show_slate cfg tile_id s =
    (if cfg.fallback_to_slate then record s { slates = tile_id ∷ s.slates } else s, some tt)

-- `range` of the tries that `tries <= max_retries` lets through
unfoldable pub tries_of : ℤ → ℕ
tries_of (pos n) = n + 1
tries_of (negsuc n) = 0

module _ (json : Json) (cfg : Config) where
  unfoldable pub text_of : Fields → String → String
  unfolding get_default str_of
  text_of info k = str_of json.repr (get_default info k (str ""))

  -- the arguments of `_launch_tile_player`
  unfoldable pub player_args : String → String → Fields → List String
  unfolding text_of
  player_args tile_id token info =
      let display = text_of info "display" in
      cfg.tile_player_binary
      ∷ "--tile-id"
      ∷ tile_id
      ∷ "--token"
      ∷ token
      ∷ "--sfu-url"
      ∷ text_of info "sfu_url"
      ∷ "--room-id"
      ∷ text_of info "room_id"
      ∷ (if display == "" then [] else "--display" ∷ display ∷ [])

  -- the loop over the tries
  unfoldable pub try_start : String → List String → (ℕ → Option ℕ) → ℕ → ℕ → M (Unit {0})
  unfolding show_slate
  try_start tile_id argv spawned tries zero s = show_slate cfg tile_id s
  try_start tile_id argv spawned tries (suc left) s = elim (spawned tries) [
    | none ↦ try_start tile_id argv spawned (tries + 1) left s
    | some pid ↦ (
      record s { tile_procs = put s.tile_procs tile_id (record { pid = pid; argv = argv }) },
      some tt,
    )
  ]

  unfoldable pub start_with : String → Fields → Meets → Option String → M (Unit {0})
  unfolding show_slate stop_tile try_start player_args tries_of
  start_with tile_id info meets none = show_slate cfg tile_id
  start_with tile_id info meets (some token) =
      if token == ""
      then show_slate cfg tile_id
      else stop_tile tile_id
        >> try_start tile_id (player_args tile_id token info) meets.spawned 0
            (tries_of cfg.max_retries)

  -- `start_tile`
  unfoldable pub start_tile : String → String → Fields → Meets → M (Unit {0})
  unfolding request_subscribe_token start_with
  start_tile tile_id source_id info meets = do
    token ← request_subscribe_token json cfg source_id tile_id meets.now meets.replies
    start_with tile_id info meets token

-- `_stop_all_tiles`
unfoldable pub stop_all : List String → M (Unit {0})
unfolding stop_tile
stop_all [] = return tt
stop_all (t ∷ ts) = stop_tile t >> stop_all ts

-- the players that have ended
unfoldable pub dead_tiles : (ℕ → Bool) → Dict String Player → List String
dead_tiles alive [] = []
dead_tiles alive ((t, p) ∷ d) = if alive p.pid then dead_tiles alive d else t ∷ dead_tiles alive d

unfoldable pub pop_all : List String → Dict String Player → Dict String Player
pop_all [] d = d
pop_all (t ∷ ts) d = pop_all ts (pop d t)

-- `_check_tile_health`
unfoldable pub check_tile_health : (ℕ → Bool) → M (Unit {0})
unfolding dead_tiles pop_all
check_tile_health alive s =
    (record s { tile_procs = pop_all (dead_tiles alive s.tile_procs) s.tile_procs }, some tt)
