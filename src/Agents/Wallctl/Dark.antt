-- ===== src/Agents/Wallctl/Dark.antt =====
-- A tile without a player under a layout that stays: the rounds of the wall controller.
use airgap_videowall.Agents.Wallctl.Tiles.{
  start_tile, Meets, stop_tile, pop_all, check_tile_health, dead_tiles,
}
use airgap_videowall.Agents.Wallctl.Layout.{
  changed, start_new, start_one, start_changed, stop_one, stop_changed, apply_tiles, tiles_of,
  update_layout, apply_layout, adopt, Round, names, rounds, send_heartbeat, round, Clock, is_due,
}
use airgap_videowall.Prelude.{
  ℕ, String, ◌≡◌, refl, true, false, none, some, arith, ltb, ◌==◌, string_eq, Option, List, ◌∷◌,
  Bool, subst, Bool-cases, [], sym, inl, eq_of_beq, inr, ◌∙◌, All, if◌then◌else◌,
}
use airgap_videowall.Prelude.Dict.{get, get-put, get-pop, Dict, pop}
use airgap_videowall.Values.{Value, Fields, truthy, get_field, str_of}
use airgap_videowall.Agents.Http.{Reply, request_json, returned}
use airgap_videowall.Agents.Wallctl.Settings.{Config, field_of}
use airgap_videowall.Agents.Wallctl.Streams.{dict_of_stream}
use airgap_videowall.Agents.Wallctl.State.{Wall, lift, continue-inv, return, Player}
use airgap_videowall.Agents.Wallctl.Tokens.{
  Json, fetch_active_layout, call, keep_layout, called, request_subscribe_token,
}
use airgap_videowall.Agents.Wallctl.Players.{
  Admits, Keep, bind-Keep, request-Keep, start_with-Keep, Completes, fetch-Keep, bind-Completes,
  Keep-Completes, call-Keep, if-Completes,
}

-- The answer to a request for the layout.
pub record Answers (replies : ℕ → Reply) (layout : Value) : Type 0 where
  pub status : ℕ
  pub result : (request_json replies 2).result ≡ returned status layout
  pub fine : ltb status 400 ≡ true
  pub full : truthy layout ≡ true

module _ (json : Json) (cfg : Config) (layout : Value) (tiles : Fields) (t : String) where
  -- The tile has no player, and the layout is current.
  abbrev pub IsDark : Wall → Type 0
  IsDark s = (get s.tile_procs t ≡ none) × (s.current_layout ≡ layout)

  fetch-IsDark :
      (replies : ℕ → Reply) (s : Wall)
      → Answers replies layout
      → (fetch_active_layout json cfg replies s).1 ≡ some layout
  unfolding fetch_active_layout call called keep_layout
  fetch-IsDark replies s a = rw (fetch_active_layout, call, a.result, a.fine, a.full) refl

  Absent-Admits :
      (u : String) (info : Fields)
      → (u == t) ≡ false
      → Admits json cfg (λ s. get s.tile_procs t ≡ none) u info
  Absent-Admits u info e = record {
    stopped = λ s h. ground (arith, get-pop s.tile_procs u t);
    slated = λ s h. h;
    launched = λ s token pid h. rw (get-put s.tile_procs u t _, e) h;
  }

  abbrev Absent : Wall → Type 0
  Absent s = get s.tile_procs t ≡ none

  start_new-Absent :
      (u : String) (v : Value) (meets : Meets)
      → (u == t) ≡ false
      → Keep Absent (start_new json cfg u v meets)
  unfolding start_new start_tile
  start_new-Absent u v meets e =
      bind-Keep Absent (lift (field_of v "source_id")) _ (λ s h. h)
        λ source_id.
          bind-Keep Absent (lift (field_of v "stream")) _ (λ s h. h)
            λ stream.
              bind-Keep Absent (lift (dict_of_stream stream)) _ (λ s h. h)
                λ info.
                  bind-Keep Absent
                    (request_subscribe_token json cfg (str_of json.repr source_id) u meets.now
                      meets.replies)
                    _
                    (request-Keep (λ procs _. get procs t ≡ none) json cfg
                      (str_of json.repr source_id) u meets.now meets.replies)
                    (start_with-Keep json cfg Absent u info (Absent-Admits u info e) meets)

  module _
      (unchanged : changed (get_field tiles t) (get_field tiles t) (get_field tiles t)
        ≡ some false) where
    stop_one-Absent : (o : Option Bool) (u : String) → Keep Absent (stop_one json cfg o u)
    unfolding stop_one stop_tile
    stop_one-Absent none u s h = h
    stop_one-Absent (some false) u s h = h
    stop_one-Absent (some true) u s h = ground (arith, get-pop s.tile_procs u t)

    stop_changed-Absent : (us : List String) → Keep Absent (stop_changed json cfg tiles tiles us)
    unfolding stop_changed
    stop_changed-Absent [] s h = h
    stop_changed-Absent (u ∷ us) s h =
        bind-Keep Absent (stop_one json cfg _ u) _ (stop_one-Absent _ u)
          (λ _. stop_changed-Absent us) s h

    start_one-Absent :
        (o : Option Bool) (u : String) (meets : Meets)
        → (u ≡ t → o ≡ some false)
        → Keep Absent (start_one json cfg o u (get_field tiles u) meets)
    unfolding start_one
    start_one-Absent none u meets k s h = h
    start_one-Absent (some false) u meets k s h = h
    start_one-Absent (some true) u meets k s h = elim (Bool-cases (u == t)) [
      | inl e ↦ absurd (cc (k (eq_of_beq u t e)))
      | inr e ↦ start_new-Absent u (get_field tiles u) meets e s h
    ]

    start_changed-Absent :
        (meets : String → Meets) (us : List String)
        → Keep Absent (start_changed json cfg tiles tiles meets us)
    unfolding start_changed
    start_changed-Absent meets [] s h = h
    start_changed-Absent meets (u ∷ us) s h =
        let o = changed (get_field tiles u) (get_field tiles u) (get_field tiles u) in
        bind-Keep Absent (start_one json cfg o u (get_field tiles u) (meets u)) _
          (start_one-Absent o u (meets u) (λ e.
            subst
              (λ w.
                changed (get_field tiles w) (get_field tiles w) (get_field tiles w) ≡ some false)
              (sym e) unchanged))
          (λ _. start_changed-Absent meets us) s h

    apply_tiles-IsDark :
        (meets : String → Meets) → Completes IsDark (apply_tiles json cfg layout tiles tiles meets)
    unfolding apply_tiles adopt
    apply_tiles-IsDark meets s _ (h, _) done =
        let (_, _, e) = continue-inv (stop_changed json cfg tiles tiles (names tiles) s) _ done in
        let s' = (stop_changed json cfg tiles tiles (names tiles) s).0 in
        let (_, _, f) =
          continue-inv (start_changed json cfg tiles tiles meets (names tiles) s')
            (λ _. adopt json cfg layout) (rw e at done) in
        rw (e, f)
          (
            start_changed-Absent meets (names tiles) s' (stop_changed-Absent (names tiles) s h),
            refl,
          )

    module _ (read : tiles_of layout ≡ some tiles) where
      apply_layout-IsDark :
          (meets : String → Meets) → Completes IsDark (apply_layout json cfg layout meets)
      unfolding apply_layout
      apply_layout-IsDark meets s a (h, cur) done =
          let same : tiles_of s.current_layout ≡ some tiles = rw cur read in
          let run : apply_layout json cfg layout meets s
              ≡ apply_tiles json cfg layout tiles tiles meets s =
            rw (apply_layout, read, same) refl in
          rw run (apply_tiles-IsDark meets s a (h, cur) (rw run at done))

      update_layout-IsDark :
          (r : Round)
          → Answers r.layout_replies layout
          → Completes IsDark (update_layout json cfg r)
      unfolding update_layout
      update_layout-IsDark r answers s a d done =
          let fetch = fetch_active_layout json cfg r.layout_replies in
          let (got, at, e) =
            continue-inv (fetch s) (λ layout. apply_layout json cfg layout r.meets) done in
          let same : some got ≡ some layout = sym at ∙ fetch-IsDark r.layout_replies s answers in
          let is : got ≡ layout = cc same in
          let d' =
            fetch-Keep (λ procs cur. (get procs t ≡ none) × (cur ≡ layout)) json cfg
              r.layout_replies s d in
          rw e (rw is (apply_layout-IsDark r.meets (fetch s).0 a d' (rw is at (rw e at done))))

      abbrev OfPair : Dict String Player → Value → Type 0
      OfPair procs cur = (get procs t ≡ none) × (cur ≡ layout)

      get-pop_all-none :
          (us : List String) (d : Dict String Player) → get d t ≡ none → get (pop_all us d) t ≡ none
      unfolding pop_all
      get-pop_all-none [] d h = h
      get-pop_all-none (u ∷ us) d h = get-pop_all-none us (pop d u) (ground (arith, get-pop d u t))

      check_tile_health-IsDark : (alive : ℕ → Bool) → Completes IsDark (check_tile_health alive)
      unfolding check_tile_health
      check_tile_health-IsDark alive s a (h, cur) done =
          (get-pop_all-none (dead_tiles alive s.tile_procs) s.tile_procs h, cur)

      send_heartbeat-IsDark :
          (replies : ℕ → Reply) → Completes IsDark (send_heartbeat json cfg replies)
      unfolding send_heartbeat
      send_heartbeat-IsDark replies =
          bind-Completes IsDark (call replies) _
            (Keep-Completes IsDark (call replies) (call-Keep OfPair replies)) (λ _ s a d done. d)

      idle-IsDark : Completes IsDark (return tt)
      idle-IsDark s a d done = d

      round-IsDark :
          (r : Round) (c : Clock)
          → Answers r.layout_replies layout
          → Completes IsDark (round json cfg r c)
      unfolding round
      round-IsDark r c answers =
          bind-Completes IsDark
            (if is_due r.now c.next_hb then send_heartbeat json cfg r.beat_replies else return tt) _
            (if-Completes IsDark (is_due r.now c.next_hb) _ _ (send_heartbeat-IsDark r.beat_replies)
              idle-IsDark)
            λ _.
              bind-Completes IsDark
                (if is_due r.now c.next_layout then update_layout json cfg r else return tt) _
                (if-Completes IsDark (is_due r.now c.next_layout) _ _
                  (update_layout-IsDark r answers) idle-IsDark)
                λ _.
                  bind-Completes IsDark
                    (if is_due r.now c.next_tilechk then check_tile_health r.alive else return tt) _
                    (if-Completes IsDark (is_due r.now c.next_tilechk) _ _
                      (check_tile_health-IsDark r.alive) idle-IsDark)
                    (λ _ s a d done. d)

      -- A tile that has no player, because it has ended or because none was started, gets none in
      -- any number of rounds that raise nothing, as long as the management API answers with the
      -- layout that is current: a tile whose entry equals itself is not started again.
      pub rounds-IsDark :
          (rs : List Round) (c d : Clock) (s : Wall)
          → All (λ r. Answers r.layout_replies layout) rs
          → get s.tile_procs t ≡ none
          → s.current_layout ≡ layout
          → (rounds json cfg rs c s).1 ≡ some d
          → get (rounds json cfg rs c s).0.tile_procs t ≡ none
      unfolding rounds
      rounds-IsDark [] c d s answers h cur done = h
      rounds-IsDark (r ∷ rs) c d s answers h cur done =
          let (c', one, e) =
            continue-inv (round json cfg r c s) (λ c'. rounds json cfg rs c') done in
          let s' = (round json cfg r c s).0 in
          let (h', cur') = round-IsDark r c answers.0 s c' (h, cur) one in
          rw e (rounds-IsDark rs c' d s' answers.1 h' cur' (rw e at done))
