-- ===== src/Agents/Wallctl/Rounds.antt =====
-- The invariant of the tile players over the rounds of the wall controller.
use airgap_videowall.Agents.Wallctl.Players.{
  fetch-Keep, call-Keep, bind-Completes, Completes, if-Completes,
}
use airgap_videowall.Agents.Http.{Reply}
use airgap_videowall.Agents.Wallctl.Layout.{
  tiles_of, apply_layout, apply_tiles, update_layout, rounds, register, send_heartbeat, run_rounds,
  round, Round, Clock, is_due,
}
use airgap_videowall.Agents.Wallctl.Tiles.{pop_all, Meets, check_tile_health, dead_tiles}
use airgap_videowall.Prelude.{
  String, ◌≡◌, sym, ◌∙◌, subst, Bool, some, List, [], ◌∷◌, if◌then◌else◌, string_eq, ℕ, leb,
}
use airgap_videowall.Prelude.Dict.{Dict, get, pop}
use airgap_videowall.Values.{Value, Fields}
use airgap_videowall.Agents.Wallctl.Settings.{Config, field_of}
use airgap_videowall.Agents.Wallctl.State.{Wall, Player, continue, continue-inv, return, lift}
use airgap_videowall.Agents.Wallctl.Tokens.{Json, load_caches, fetch_active_layout, call}
use airgap_videowall.Agents.Wallctl.Running.{
  IsShown, AllShow, Shows, get-pop-some, apply_tiles-Shows,
}

get-pop_all :
    (ts : List String) (d : Dict String Player) (t : String) (p : Player)
    → get (pop_all ts d) t ≡ some p
    → get d t ≡ some p
unfolding pop_all
get-pop_all [] d t p g = g
get-pop_all (u ∷ ts) d t p g = get-pop-some d u t p (get-pop_all ts (pop d u) t p g)

module _ (json : Json) (cfg : Config) where
  abbrev Inv : Wall → Type 0
  Inv = IsShown json cfg

  -- IsShown, of the players and the layout
  abbrev OfPair : Dict String Player → Value → Type 0
  OfPair procs layout =
      (t : String) (p : Player)
      → get procs t ≡ some p
      → (tiles : Fields) × (tiles_of layout ≡ some tiles) × Shows json cfg tiles t p

  apply_layout-IsShown :
      (layout : Value) (meets : String → Meets) → Completes Inv (apply_layout json cfg layout meets)
  unfolding apply_layout
  apply_layout-IsShown layout meets s tt shown h =
      let (new, e, f) =
        continue-inv (s, tiles_of layout)
          (λ new s.
            continue (s, tiles_of s.current_layout)
              (λ cur. apply_tiles json cfg layout new cur meets))
          h in
      let h' = (rw f at h) in
      let (cur, e', f') =
        continue-inv (s, tiles_of s.current_layout)
          (λ cur. apply_tiles json cfg layout new cur meets) h' in
      let all : AllShow json cfg cur s.tile_procs = λ t p g.
        let (tiles, at, sh) = shown t p g in
        let same : some tiles ≡ some cur = sym at ∙ e' in
        subst (λ fs. Shows json cfg fs t p) (cc same) sh in
      let (after, adopted) = apply_tiles-Shows json cfg new cur layout meets s all (rw f' at h') in
      rw (f, f') (λ t p g. (new, rw adopted e, after t p g))

  update_layout-IsShown : (r : Round) → Completes Inv (update_layout json cfg r)
  unfolding update_layout
  update_layout-IsShown r =
      bind-Completes Inv (fetch_active_layout json cfg r.layout_replies) _
        (λ s _ shown _. fetch-Keep OfPair json cfg r.layout_replies s shown)
        (λ layout. apply_layout-IsShown layout r.meets)

  send_heartbeat-IsShown : (replies : ℕ → Reply) → Completes Inv (send_heartbeat json cfg replies)
  unfolding send_heartbeat
  send_heartbeat-IsShown replies =
      bind-Completes Inv (call replies) _ (λ s _ shown _. call-Keep OfPair replies s shown)
        (λ _ s _ shown _. shown)

  check_tile_health-IsShown : (alive : ℕ → Bool) → Completes Inv (check_tile_health alive)
  unfolding check_tile_health
  check_tile_health-IsShown alive s _ shown _ t p g =
      shown t p (get-pop_all (dead_tiles alive s.tile_procs) s.tile_procs t p g)

  idle-IsShown : Completes Inv (return tt)
  idle-IsShown s _ shown _ = shown

  round-IsShown : (r : Round) (c : Clock) → Completes Inv (round json cfg r c)
  unfolding round
  round-IsShown r c =
      bind-Completes Inv
        (if is_due r.now c.next_hb then send_heartbeat json cfg r.beat_replies else return tt) _
        (if-Completes Inv (is_due r.now c.next_hb) _ _ (send_heartbeat-IsShown r.beat_replies)
          idle-IsShown)
        λ _.
          bind-Completes Inv
            (if is_due r.now c.next_layout then update_layout json cfg r else return tt) _
            (if-Completes Inv (is_due r.now c.next_layout) _ _ (update_layout-IsShown r)
              idle-IsShown)
            λ _.
              bind-Completes Inv
                (if is_due r.now c.next_tilechk then check_tile_health r.alive else return tt) _
                (if-Completes Inv (is_due r.now c.next_tilechk) _ _
                  (check_tile_health-IsShown r.alive) idle-IsShown)
                (λ _ s _ shown _. shown)

  rounds-IsShown : (rs : List Round) (c : Clock) → Completes Inv (rounds json cfg rs c)
  unfolding rounds
  rounds-IsShown [] c s _ shown _ = shown
  rounds-IsShown (r ∷ rs) c s d shown h =
      bind-Completes Inv (round json cfg r c) (λ c'. rounds json cfg rs c') (round-IsShown r c)
        (λ c'. rounds-IsShown rs c') s d shown h

  register-IsShown : (replies : ℕ → Reply) → Completes Inv (register json cfg replies)
  unfolding register
  register-IsShown replies =
      bind-Completes Inv (call replies) _ (λ s _ shown _. call-Keep OfPair replies s shown)
        λ r. if-Completes Inv (leb 400 r.0) _ _ idle-IsShown (
          bind-Completes Inv (lift (field_of r.1 "status")) _ (λ s _ shown _. shown)
            (λ _. idle-IsShown))

  -- From a start without players, whatever the files hold, and after every sequence of rounds that
  -- raises nothing, each player that runs is that of a tile which the current layout names, with
  -- the arguments of a stream that is the tile's or equals it.
  pub run_rounds-IsShown :
      (registered : ℕ → Reply) (rs : List Round) (s : Wall) (c : Clock)
      → s.tile_procs ≡ []
      → (run_rounds json cfg registered rs s).1 ≡ some c
      → IsShown json cfg (run_rounds json cfg registered rs s).0
  unfolding run_rounds load_caches get
  run_rounds-IsShown registered rs s c empty h =
      let s' = (load_caches json s).0 in
      let start : IsShown json cfg s' = λ t p g. absurd (cc ((rw empty at g))) in
      bind-Completes Inv (register json cfg registered) _ (register-IsShown registered)
        (λ _. rounds-IsShown rs _) s' c start h
