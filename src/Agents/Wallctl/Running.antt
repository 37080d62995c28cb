-- ===== src/Agents/Wallctl/Running.antt =====
-- Every tile player that runs shows its tile's stream in the current layout.
use airgap_videowall.Agents.Wallctl.Players.{Admits, Keep, bind-Keep, request-Keep, start_with-Keep}
use airgap_videowall.Agents.Wallctl.Tiles.{stop_tile, player_args, start_tile, Meets}
use airgap_videowall.Agents.Wallctl.Layout.{
  changed, names, differs, stop_changed, tiles_of, stop_one, start_new, start_changed, apply_tiles,
  start_one, adopt,
}
use airgap_videowall.Agents.Wallctl.Tokens.{Json, request_subscribe_token}
use airgap_videowall.Prelude.{
  String, ◌≡◌, refl, sym, ◌⊎◌, inl, inr, true, false, some, List, [], ◌∷◌, arith, Bool-cases, ◌==◌,
  eq_of_beq, In, here, there, string_eq, Option, Bool, beq_self, none, Option-cases,
}
use airgap_videowall.Prelude.Dict.{Dict, get, get-pop, put, pop, get-put}
use airgap_videowall.Values.{Value, Fields, obj, get_field, null, field, end, str_of}
use airgap_videowall.Values.Equality.{same_value, same_value_trans}
use airgap_videowall.Agents.Wallctl.Settings.{Config, field_of}
use airgap_videowall.Agents.Wallctl.Streams.{dict_of_stream}
use airgap_videowall.Agents.Wallctl.State.{Wall, Player, continue-inv}

-- the stream of a tile's entry in a layout
abbrev pub stream_of : Value → Value
stream_of (obj fs) = get_field fs "stream"
stream_of _ = null

module _ (json : Json) (cfg : Config) where
  -- A player of a tile that the layout names, with the arguments of a stream that is the tile's or
  -- equals it.
  pub record Shows (tiles : Fields) (t : String) (p : Player) : Type 0 where
    pub named : In t (names tiles)
    pub token : String
    pub stream : Value
    pub info : Fields
    pub read : dict_of_stream stream ≡ some info
    pub argv : p.argv ≡ player_args json cfg t token info
    pub equal :
        (stream_of (get_field tiles t) ≡ stream)
        ⊎ (same_value (stream_of (get_field tiles t)) stream ≡ true)

  abbrev pub AllShow : Fields → Dict String Player → Type 0
  AllShow tiles procs = (t : String) (p : Player) → get procs t ≡ some p → Shows tiles t p

  -- The players are those of the current layout.
  abbrev pub IsShown : Wall → Type 0
  IsShown s =
      (t : String) (p : Player)
      → get s.tile_procs t ≡ some p
      → (tiles : Fields) × (tiles_of s.current_layout ≡ some tiles) × Shows tiles t p

names-In : (fs : Fields) (t : String) → ¬ (get_field fs t ≡ null) → In t (names fs)
unfolding names get_field
names-In end t h = absurd (h refl)
names-In (field k v fs) t h = elim (Bool-cases (k == t)) [
  | inl e ↦ here (sym (eq_of_beq k t e))
  | inr e ↦ there (names-In fs t (λ q. h (rw e q)))
]

-- What an unchanged tile's entries have in common.
unchanged_stream :
    (new cur : Value)
    → changed new new cur ≡ some false
    → ¬ (new ≡ null) × (same_value (stream_of new) (stream_of cur) ≡ true)
unfolding changed differs
unchanged_stream (obj new) (obj cur) h = (λ q. cc, ground arith)
unchanged_stream null cur h = absurd (cc)
unchanged_stream (obj new) _ h = absurd (cc)
unchanged_stream _ cur h = absurd (cc)

apart : (u t : String) → (u == t) ≡ false → t ≡ u → some true ≡ some false
apart u t e q = cc (e, sym q, beq_self u)

pub get-pop-some :
    (d : Dict String Player) (t u : String) (p : Player)
    → get (pop d t) u ≡ some p
    → get d u ≡ some p
get-pop-some d t u p g = ground (arith, get-pop d t u)

get-put-some :
    (d : Dict String Player) (t u : String) (made p : Player)
    → get (put d t made) u ≡ some p
    → ((u ≡ t) × (p ≡ made)) ⊎ (get d u ≡ some p)
get-put-some d t u made p g = elim (Bool-cases (t == u)) [
  | inl e ↦ inl (sym (eq_of_beq t u e), ground (arith, get-put d t u made))
  | inr e ↦ inr (ground (arith, get-put d t u made))
]

stop_one-get :
    (json : Json) (cfg : Config) (o : Option Bool) (u : String) (s : Wall) (t : String) (p : Player)
    → (stop_one json cfg o u s).1 ≡ some tt
    → get (stop_one json cfg o u s).0.tile_procs t ≡ some p
    → (get s.tile_procs t ≡ some p) × (t ≡ u → o ≡ some false)
unfolding stop_one stop_tile
stop_one-get json cfg none u s t p h g = absurd (cc)
stop_one-get json cfg (some false) u s t p h g = (g, λ _. refl)
stop_one-get json cfg (some true) u s t p h g = elim (Bool-cases (u == t)) [
  | inl e ↦ absurd (ground (arith, get-pop s.tile_procs u t))
  | inr e ↦ (ground (arith, get-pop s.tile_procs u t), apart u t e)
]

module _ (json : Json) (cfg : Config) (new cur : Fields) where
  -- What the loop over the current tiles leaves of one player.
  stop_changed-get :
      (ts : List String) (s : Wall) (t : String) (p : Player)
      → (stop_changed json cfg new cur ts s).1 ≡ some tt
      → get (stop_changed json cfg new cur ts s).0.tile_procs t ≡ some p
      → (get s.tile_procs t ≡ some p)
        × (In t ts → changed (get_field new t) (get_field new t) (get_field cur t) ≡ some false)
  unfolding stop_changed stop_tile
  stop_changed-get [] s t p h g = (g, λ m. absurd (elim m [ ]))
  stop_changed-get (u ∷ ts) s t p h g =
      let o = changed (get_field new u) (get_field new u) (get_field cur u) in
      let (_, one, rest) =
        continue-inv (stop_one json cfg o u s) (λ _. stop_changed json cfg new cur ts) h in
      let s' = (stop_one json cfg o u s).0 in
      let (q, later) = stop_changed-get ts s' t p (rw rest at h) (rw rest at g) in
      let (r, now) = stop_one-get json cfg o u s t p one q in
      (r, λ m. elim m [ here e ↦ rw e (now e) | there n ↦ later n ])

module _ (json : Json) (cfg : Config) (new cur : Fields) where
  -- The players that the loop over the current tiles leaves are those of the new layout.
  stop_changed-Shows :
      (s : Wall)
      → AllShow json cfg cur s.tile_procs
      → (stop_changed json cfg new cur (names cur) s).1 ≡ some tt
      → AllShow json cfg new (stop_changed json cfg new cur (names cur) s).0.tile_procs
  stop_changed-Shows s all h t p g =
      let (old, kept) = stop_changed-get json cfg new cur (names cur) s t p h g in
      let sh = all t p old in
      let (there_is, same) = unchanged_stream (get_field new t) (get_field cur t) (kept sh.named) in
      record {
        named = names-In new t there_is;
        token = sh.token;
        stream = sh.stream;
        info = sh.info;
        read = sh.read;
        argv = sh.argv;
        equal = inr (elim sh.equal [
          | inl e ↦ rw (← e, same)
          | inr e ↦
              same_value_trans (stream_of (get_field new t)) (stream_of (get_field cur t)) sh.stream
                same e
        ]);
      }

  AllShow-Admits :
      (t : String) (stream : Value) (info : Fields)
      → In t (names new)
      → dict_of_stream stream ≡ some info
      → stream_of (get_field new t) ≡ stream
      → Admits json cfg (λ s. AllShow json cfg new s.tile_procs) t info
  AllShow-Admits t stream info m r e = record {
    stopped = λ s all u p g. all u p (get-pop-some s.tile_procs t u p g);
    slated = λ s all. all;
    launched = λ s token pid all u p g. elim (get-put-some s.tile_procs t u _ p g) [
      | inl (same, made) ↦ rw same (record {
        named = m;
        token = token;
        stream = stream;
        info = info;
        read = r;
        argv = rw made refl;
        equal = inl e;
      })
      | inr old ↦ all u p old
    ];
  }

  abbrev Shown : Wall → Type 0
  Shown s = AllShow json cfg new s.tile_procs

  start_tile-Keep :
      (t source_id : String) (stream : Value) (info : Fields) (meets : Meets)
      → In t (names new)
      → dict_of_stream stream ≡ some info
      → stream_of (get_field new t) ≡ stream
      → Keep Shown (start_tile json cfg t source_id info meets)
  unfolding start_tile
  start_tile-Keep t source_id stream info meets m r e =
      bind-Keep Shown (request_subscribe_token json cfg source_id t meets.now meets.replies) _
        (request-Keep (λ procs _. AllShow json cfg new procs) json cfg source_id t meets.now
          meets.replies)
        (start_with-Keep json cfg Shown t info (AllShow-Admits t stream info m r e) meets)

  start_new-Keep :
      (t : String) (v : Value) (meets : Meets)
      → get_field new t ≡ v
      → Keep Shown (start_new json cfg t v meets)
  unfolding start_new field_of
  start_new-Keep t (obj fs) meets e s all =
      let stream = get_field fs "stream" in
      elim (Option-cases (dict_of_stream stream)) [
        | inl none_is ↦ rw none_is all
        | inr (info, read) ↦
            let m = names-In new t (λ q. cc (q, e)) in
            let at : stream_of (get_field new t) ≡ stream = rw e refl in
            rw read (
              start_tile-Keep t (str_of json.repr (get_field fs "source_id")) stream info meets m
                read at s all)
      ]
  start_new-Keep t _ meets e s all = all

  start_one-Keep :
      (o : Option Bool) (t : String) (meets : Meets)
      → Keep Shown (start_one json cfg o t (get_field new t) meets)
  unfolding start_one
  start_one-Keep none t meets s all = all
  start_one-Keep (some false) t meets s all = all
  start_one-Keep (some true) t meets s all = start_new-Keep t (get_field new t) meets refl s all

  start_changed-Keep :
      (meets : String → Meets) (ts : List String)
      → Keep Shown (start_changed json cfg new cur meets ts)
  unfolding start_changed
  start_changed-Keep meets [] s all = all
  start_changed-Keep meets (t ∷ ts) s all =
      bind-Keep Shown (start_one json cfg _ t (get_field new t) (meets t)) _
        (start_one-Keep _ t (meets t)) (λ _. start_changed-Keep meets ts) s all

  pub apply_tiles-Shows :
      (layout : Value) (meets : String → Meets) (s : Wall)
      → AllShow json cfg cur s.tile_procs
      → (apply_tiles json cfg layout new cur meets s).1 ≡ some tt
      → AllShow json cfg new (apply_tiles json cfg layout new cur meets s).0.tile_procs
        × ((apply_tiles json cfg layout new cur meets s).0.current_layout ≡ layout)
  unfolding apply_tiles adopt
  apply_tiles-Shows layout meets s all h =
      let (_, stopped, e) = continue-inv (stop_changed json cfg new cur (names cur) s) _ h in
      let s' = (stop_changed json cfg new cur (names cur) s).0 in
      let (_, started, f) =
        continue-inv (start_changed json cfg new cur meets (names new) s')
          (λ _. adopt json cfg layout) (rw e at h) in
      rw (e, f) (start_changed-Keep meets (names new) s' (stop_changed-Shows s all stopped), refl)
