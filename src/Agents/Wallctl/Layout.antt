-- ===== src/Agents/Wallctl/Layout.antt =====
-- agents/wallctl/vw_wallctl.py: a layout that is applied, and the rounds of `run`.
use airgap_videowall.Prelude.{
  ℕ, String, Bool, true, not, ◌||◌, Option, none, some, List, [], ◌∷◌, leb, if◌then◌else◌, false,
}
use airgap_videowall.Prelude.Dict.{keys}
use airgap_videowall.Values.{Value, Fields, null, obj, end, field, get_field, str_of, ℤ, pos}
use airgap_videowall.Values.Equality.{same_value}
use airgap_videowall.Agents.Http.{Reply}
use airgap_videowall.Agents.Wallctl.Settings.{Config, field_of, mapping_of}
use airgap_videowall.Agents.Wallctl.Streams.{dict_of_stream}
use airgap_videowall.Agents.Wallctl.State.{M, raise, return, lift, ◌>>=◌, ◌>>◌, continue}
use airgap_videowall.Agents.Wallctl.Tokens.{Json, call, later, fetch_active_layout, load_caches}
use airgap_videowall.Agents.Wallctl.Tiles.{
  Meets, stop_tile, start_tile, stop_all, check_tile_health,
}

-- `layout.get("tiles") or {}`
unfoldable pub tiles_of : Value → Option Fields
unfolding mapping_of
tiles_of (obj fs) = mapping_of (get_field fs "tiles")
tiles_of _ = none

-- the keys of a mapping, in order
unfoldable pub names : Fields → List String
names end = []
names (field k v fs) = k ∷ names fs

-- new.get("source_id") != cur.get("source_id") or new.get("stream") != cur.get("stream")
unfoldable pub differs : Value → Value → Option Bool
unfolding same_value
differs (obj new) (obj cur) = some (
    not (same_value (get_field new "source_id") (get_field cur "source_id"))
    || not (same_value (get_field new "stream") (get_field cur "stream")))
differs _ _ = none

-- `a is None or …`
unfoldable pub changed : Value → Value → Value → Option Bool
unfolding differs
changed null new cur = some true
changed _ new cur = differs new cur

module _ (json : Json) (cfg : Config) where
  unfoldable pub stop_one : Option Bool → String → M (Unit {0})
  unfolding stop_tile
  stop_one none t = raise
  stop_one (some true) t = stop_tile t
  stop_one (some false) t = return tt

  -- the loop over the tiles of the current layout
  unfoldable pub stop_changed : Fields → Fields → List String → M (Unit {0})
  unfolding stop_one changed
  stop_changed new cur [] = return tt
  stop_changed new cur (t ∷ ts) =
      stop_one (changed (get_field new t) (get_field new t) (get_field cur t)) t
      >> stop_changed new cur ts

  unfoldable pub start_new : String → Value → Meets → M (Unit {0})
  unfolding dict_of_stream field_of start_tile str_of
  start_new t new meets = do
    source_id ← lift (field_of new "source_id")
    stream ← lift (field_of new "stream")
    info ← lift (dict_of_stream stream)
    start_tile json cfg t (str_of json.repr source_id) info meets

  unfoldable pub start_one : Option Bool → String → Value → Meets → M (Unit {0})
  unfolding start_new
  start_one none t new meets = raise
  start_one (some true) t new meets = start_new t new meets
  start_one (some false) t new meets = return tt

  -- the loop over the tiles of the new layout
  unfoldable pub start_changed : Fields → Fields → (String → Meets) → List String → M (Unit {0})
  unfolding start_one changed
  start_changed new cur meets [] = return tt
  start_changed new cur meets (t ∷ ts) =
      start_one (changed (get_field cur t) (get_field new t) (get_field cur t)) t (get_field new t)
        (meets t)
      >> start_changed new cur meets ts

  unfoldable pub adopt : Value → M (Unit {0})
  adopt layout s =
      (record s { current_layout = layout; layout_file = some (json.dumps layout) }, some tt)

  unfoldable pub apply_tiles : Value → Fields → Fields → (String → Meets) → M (Unit {0})
  unfolding stop_changed start_changed adopt names
  apply_tiles layout new cur meets = do
    stop_changed new cur (names cur)
    start_changed new cur meets (names new)
    adopt layout

  -- `apply_layout`
  unfoldable pub apply_layout : Value → (String → Meets) → M (Unit {0})
  unfolding apply_tiles tiles_of
  apply_layout layout meets s =
      continue (s, tiles_of layout)
        λ new s. continue (s, tiles_of s.current_layout) λ cur. apply_tiles layout new cur meets

-- What one round of `run` meets, by its time.
pub record Round : Type 0 where
  pub now : ℕ
  pub beat_replies : ℕ → Reply
  pub layout_replies : ℕ → Reply
  pub meets : String → Meets
  pub alive : ℕ → Bool

pub record Clock : Type 0 where
  pub next_hb : ℤ
  pub next_layout : ℤ
  pub next_tilechk : ℤ

-- now >= next
unfoldable pub is_due : ℕ → ℤ → Bool
is_due now (pos n) = leb n now
is_due now _ = true

module _ (json : Json) (cfg : Config) where
  -- `_send_heartbeat` and `register`: an answer of any status is only logged, and `register` reads
  -- an answer below 400 as a mapping
  unfoldable pub send_heartbeat : (ℕ → Reply) → M (Unit {0})
  unfolding call
  send_heartbeat replies = do r ← call replies; return tt

  unfoldable pub register : (ℕ → Reply) → M (Unit {0})
  unfolding call field_of
  register replies = do
    r ← call replies
    if leb 400 r.0 then return tt else lift (field_of r.1 "status") >>= λ _. return tt

  unfoldable pub update_layout : Round → M (Unit {0})
  unfolding fetch_active_layout apply_layout
  update_layout r = do
    layout ← fetch_active_layout json cfg r.layout_replies
    apply_layout json cfg layout r.meets

  -- one round of the loop
  unfoldable pub round : Round → Clock → M Clock
  unfolding is_due send_heartbeat update_layout check_tile_health later
  round r c = do
    if is_due r.now c.next_hb then send_heartbeat r.beat_replies else return tt
    if is_due r.now c.next_layout then update_layout r else return tt
    if is_due r.now c.next_tilechk then check_tile_health r.alive else return tt
    return (record {
      next_hb = if is_due r.now c.next_hb then later r.now cfg.heartbeat_interval else c.next_hb;
      next_layout =
          if is_due r.now c.next_layout
          then later r.now cfg.layout_poll_interval
          else c.next_layout;
      next_tilechk =
          if is_due r.now c.next_tilechk
          then later r.now cfg.tile_health_interval
          else c.next_tilechk;
    })

  -- the rounds until a signal stops the loop
  unfoldable pub rounds : List Round → Clock → M Clock
  unfolding round
  rounds [] c = return c
  rounds (r ∷ rs) c = do c' ← round r c; rounds rs c'

  -- the rounds with what comes before the loop
  unfoldable pub run_rounds : (ℕ → Reply) → List Round → M Clock
  unfolding register rounds load_caches
  run_rounds registered rs = do
    load_caches json
    register registered
    rounds rs (record { next_hb = pos 0; next_layout = pos 0; next_tilechk = pos 0 })

  -- `run`
  unfoldable pub run : (ℕ → Reply) → List Round → M (Unit {0})
  unfolding run_rounds stop_all
  run registered rs = do c ← run_rounds registered rs; λ s. stop_all (keys s.tile_procs) s
