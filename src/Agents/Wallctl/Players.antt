-- ===== src/Agents/Wallctl/Players.antt =====
-- Which steps of the wall controller leave the tile players alone, and what a start makes of them.
use airgap_videowall.Agents.Wallctl.Tiles.{
  try_start, show_slate, start_with, stop_tile, player_args, Meets, tries_of,
}
use airgap_videowall.Prelude.{
  zero, ℕ, String, Option, none, some, arith, Bool-cases, ◌∷◌, leb, inl, suc, inr, string_eq,
  Option-cases, ◌==◌, ◌+◌, ◌≡◌, Bool, if◌then◌else◌, true, false,
}
use airgap_videowall.Prelude.Dict.{Dict, pop, put}
use airgap_videowall.Values.{Value, ℤ, Fields, obj, int_of, get_field}
use airgap_videowall.Agents.Http.{Reply, request_json, Returned, returned, failed}
use airgap_videowall.Agents.Wallctl.Settings.{Config, get_default, field_of}
use airgap_videowall.Agents.Wallctl.State.{Wall, Player, M, ◌>>=◌, continue, lift, continue-inv}
use airgap_videowall.Agents.Wallctl.Tokens.{
  Json, call, keep_layout, fetch_active_layout, cached_token, store_token, read_token, ask_token,
  request_subscribe_token, token_key, ask_unless, called,
}

-- A step that keeps a predicate, also where it raises.
abbrev pub Keep : {A : Type 0} → (Wall → Type 0) → M A → Type 0
Keep I m = (s : Wall) → I s → I (m s).0

pub continue-Keep :
    {A B : Type 0} (I : Wall → Type 0) (r : Wall × Option A) (f : A → M B)
    → I r.0
    → ((a : A) → Keep I (f a))
    → I (continue r f).0
continue-Keep I (s, none) f h k = h
continue-Keep I (s, some a) f h k = k a s h

pub bind-Keep :
    {A B : Type 0} (I : Wall → Type 0) (m : M A) (f : A → M B)
    → Keep I m
    → ((a : A) → Keep I (f a))
    → Keep I (m >>= f)
bind-Keep I m f h k s i = continue-Keep I (m s) f (h s i) k

-- What a step leaves of a predicate when it completes.
abbrev pub Completes : {A : Type 0} → (Wall → Type 0) → M A → Type 0
Completes {A} I m = (s : Wall) (a : A) → I s → (m s).1 ≡ some a → I (m s).0

pub bind-Completes :
    {A B : Type 0} (I : Wall → Type 0) (m : M A) (f : A → M B)
    → Completes I m
    → ((a : A) → Completes I (f a))
    → Completes I (m >>= f)
bind-Completes I m f h k s b i e =
    let (a, done, q) = continue-inv (m s) f e in rw q (k a (m s).0 b (h s a i done) (rw q at e))

pub if-Completes :
    {A : Type 0} (I : Wall → Type 0) (b : Bool) (m n : M A)
    → Completes I m
    → Completes I n
    → Completes I (if b then m else n)
if-Completes I true m n h k = h
if-Completes I false m n h k = k

pub Keep-Completes : {A : Type 0} (I : Wall → Type 0) (m : M A) → Keep I m → Completes I m
Keep-Completes I m k s a i e = k s i

-- What a predicate on the players and the layout is kept by.
module _ (P : Dict String Player → Value → Type 0) where
  abbrev pub On : Wall → Type 0
  On s = P s.tile_procs s.current_layout

  called-Keep : (r : Returned) → Keep On (called r)
  unfolding called
  called-Keep (returned status v) s h = h
  called-Keep failed s h = h

  pub call-Keep : (replies : ℕ → Reply) → Keep On (call replies)
  unfolding call
  call-Keep replies s h = called-Keep (request_json replies 2).result _ h

  pub keep_layout-Keep :
      (json : Json) (cfg : Config) (status : ℕ) (v : Value)
      → Keep On (keep_layout json cfg status v)
  unfolding keep_layout
  keep_layout-Keep json cfg status v s h = ground arith

  pub fetch-Keep :
      (json : Json) (cfg : Config) (replies : ℕ → Reply)
      → Keep On (fetch_active_layout json cfg replies)
  unfolding fetch_active_layout
  fetch-Keep json cfg replies =
      bind-Keep On (call replies) _ (call-Keep replies) (λ r. keep_layout-Keep json cfg r.0 r.1)

  store_token-Keep :
      (json : Json) (key : String) (token : Value) (exp : ℤ)
      → Keep On (store_token json key token exp)
  unfolding store_token
  store_token-Keep json key token exp s h = ground arith

  cached_token-Keep : (json : Json) (now : ℕ) (v : Value) → Keep On (cached_token json now v)
  unfolding cached_token
  cached_token-Keep json now v s h = ground arith

  read_token-Keep :
      (json : Json) (cfg : Config) (key : String) (now : ℕ) (v : Value)
      → Keep On (read_token json cfg key now v)
  unfolding read_token
  read_token-Keep json cfg key now (obj fs) =
      bind-Keep On (lift (int_of (get_default fs "exp" _))) _ (λ s h. h)
        (λ exp. store_token-Keep json key (get_field fs "token") exp)
  read_token-Keep json cfg key now _ = λ s h. h

  ask_token-Keep :
      (json : Json) (cfg : Config) (key : String) (now : ℕ) (replies : ℕ → Reply)
      → Keep On (ask_token json cfg key now replies)
  unfolding ask_token
  ask_token-Keep json cfg key now replies =
      bind-Keep On (call replies) _ (call-Keep replies) λ r s h. elim (Bool-cases (leb 400 r.0)) [
        | inl e ↦ rw e h
        | inr e ↦ rw e (read_token-Keep json cfg key now r.1 s h)
      ]

  ask_unless-Keep :
      (json : Json) (cfg : Config) (key : String) (now : ℕ) (replies : ℕ → Reply)
      (found : Option String)
      → Keep On (ask_unless json cfg key now replies found)
  unfolding ask_unless
  ask_unless-Keep json cfg key now replies none = ask_token-Keep json cfg key now replies
  ask_unless-Keep json cfg key now replies (some token) = λ s h. h

  -- Asking for a token leaves the players and the layout as they are.
  pub request-Keep :
      (json : Json) (cfg : Config) (source_id tile_id : String) (now : ℕ) (replies : ℕ → Reply)
      → Keep On (request_subscribe_token json cfg source_id tile_id now replies)
  unfolding request_subscribe_token
  request-Keep json cfg source_id tile_id now replies s h =
      let key = token_key source_id tile_id in
      let read : Wall × Option Value = (s, field_of s.token_cache key) in
      continue-Keep On (continue read (cached_token json now)) (ask_unless json cfg key now replies)
        (continue-Keep On read (cached_token json now) h (λ v. cached_token-Keep json now v))
        (ask_unless-Keep json cfg key now replies)

module _ (json : Json) (cfg : Config) (I : Wall → Type 0) (t : String) (info : Fields) where
  -- What a start of a player wants of a predicate.
  pub record Admits : Type 0 where
    pub stopped : (s : Wall) → I s → I (record s { tile_procs = pop s.tile_procs t })
    pub slated : (s : Wall) → I s → I (record s { slates = t ∷ s.slates })
    pub launched :
        (s : Wall) (token : String) (pid : ℕ)
        → I s
        → I (record s {
          tile_procs =
              put s.tile_procs t (record { pid = pid; argv = player_args json cfg t token info });
        })

module _ (json : Json) (cfg : Config) (I : Wall → Type 0) (t : String) (info : Fields)
    (a : Admits json cfg I t info) where
  slate-Keep : Keep I (show_slate cfg t)
  unfolding show_slate
  slate-Keep s h = elim (Bool-cases cfg.fallback_to_slate) [
    | inl e ↦ rw e (a.slated s h)
    | inr e ↦ rw e h
  ]

  try_start-Keep :
      (token : String) (spawned : ℕ → Option ℕ) (tries left : ℕ)
      → Keep I (try_start json cfg t (player_args json cfg t token info) spawned tries left)
  unfolding try_start
  try_start-Keep token spawned tries zero s h = slate-Keep s h
  try_start-Keep token spawned tries (suc left) s h = elim (Option-cases (spawned tries)) [
    | inl e ↦ rw (e, try_start) (try_start-Keep token spawned (tries + 1) left s h)
    | inr (pid, e) ↦ rw (e, try_start) (a.launched s token pid h)
  ]

  pub start_with-Keep :
      (meets : Meets) (found : Option String) → Keep I (start_with json cfg t info meets found)
  unfolding start_with stop_tile
  start_with-Keep meets none s h = slate-Keep s h
  start_with-Keep meets (some token) s h = elim (Bool-cases (token == "")) [
    | inl e ↦ rw e (slate-Keep s h)
    | inr e ↦
        rw (e, try_start)
          (try_start-Keep token meets.spawned 0 (tries_of cfg.max_retries) _ (a.stopped s h))
  ]
