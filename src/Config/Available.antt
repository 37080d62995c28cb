-- ===== src/Config/Available.antt =====
-- services/vw-config/app/main.py: when the service answers, and when it answers 503.
use airgap_videowall.Config.Validity.{ok-injective, get_wall, get_source}
use airgap_videowall.Prelude.{
  ℕ, String, ◌≡◌, refl, subst, false, Option, none, some, List, [], ◌∷◌, arith, All,
}
use airgap_videowall.Values.{Value, Fields}
use airgap_videowall.Config.Data.{Failure, ok}
use airgap_videowall.Config.Loader.{Tools, PlatformConfig}
use airgap_videowall.Config.LastGood.{Serves, Reach, load_initial-Serves}
use airgap_videowall.Config.Watcher.{Watcher, init, load_initial, force_reload}
use airgap_videowall.Config.Json.{wall_dict, source_dict}
use airgap_videowall.Config.Handlers.{
  Response, json, text, error, Call, serve, serve_all, startup_watcher, health_call, canonical_call,
  raw_call, version_call, derived_call, walls_call, sources_call, policy_call, wall_call,
  source_call, reload_call, healthz, reloaded, get_canonical, get_config_raw, get_version,
  get_derived, list_walls, list_sources, get_policy, get_wall_by_id, get_source_by_id,
  config_reload, with_config, get_config,
}

-- the status of a response
unfoldable pub status_of : Response → ℕ
status_of (json code fs) = code
status_of (text body hash) = 200
status_of (error code) = code

abbrev pub IsUnavailable : Response → Type 0
IsUnavailable r = status_of r ≡ 503

fine : ¬ IsUnavailable (text "" "")
unfolding status_of
fine h = absurd (omega arith)

found_fine :
    {A : Type 0} (found : Option A) (fields : A → Fields)
    → ¬ IsUnavailable (elim found [ none ↦ error 404 | some a ↦ json 200 (fields a) ])
unfolding status_of
found_fine none fields h = absurd (omega arith)
found_fine (some a) fields h = fine h

reloaded_fine : (r : Watcher × Option PlatformConfig) → ¬ IsUnavailable (reloaded r).1
unfolding reloaded status_of
reloaded_fine (w, none) h = fine h
reloaded_fine (w, some cfg) h = fine h

module _ (tools : Tools) (describe : Failure → String) (path : String) (gbps : ℕ → Value) where
  serve-none :
      (c : Call)
      → ((serve tools describe path gbps c none).0 ≡ none)
        × IsUnavailable (serve tools describe path gbps c none).1
  unfolding serve status_of
  serve-none health_call = (refl, refl)
  serve-none canonical_call = (refl, refl)
  serve-none raw_call = (refl, refl)
  serve-none version_call = (refl, refl)
  serve-none derived_call = (refl, refl)
  serve-none walls_call = (refl, refl)
  serve-none sources_call = (refl, refl)
  serve-none policy_call = (refl, refl)
  serve-none (wall_call id) = (refl, refl)
  serve-none (source_call id) = (refl, refl)
  serve-none (reload_call hashed read now) = (refl, refl)

  serve_all-none :
      (cs : List Call)
      → ((serve_all tools describe path gbps cs none).0 ≡ none)
        × All IsUnavailable (serve_all tools describe path gbps cs none).1
  unfolding serve_all
  serve_all-none [] = (refl, tt)
  serve_all-none (c ∷ cs) =
      let (stays, refused) = serve-none c in
      let (still, all_refused) = serve_all-none cs in rw stays (still, (refused, all_refused))

  -- If the file is not there when the service starts, every request that reads or reloads the
  -- configuration is answered with 503, in any sequence of them and whatever the file holds by then.
  pub startup_watcher-missing :
      (read hashed : Option String) (now : ℕ) (w : Option Watcher) (cs : List Call)
      → startup_watcher tools describe path false read hashed now ≡ ok w
      → All IsUnavailable (serve_all tools describe path gbps cs w).1
  unfolding startup_watcher
  startup_watcher-missing read hashed now w cs h =
      let none_is : none ≡ w = ok-injective h in
      subst (λ v. All IsUnavailable (serve_all tools describe path gbps cs v).1) none_is
        (serve_all-none cs).1

  serve-Serves :
      (c : Call) (u : Watcher)
      → Serves u
      → ¬ IsUnavailable (serve tools describe path gbps c (some u)).1
  unfolding serve status_of healthz get_canonical get_config_raw get_version get_derived list_walls
      list_sources get_policy get_wall_by_id get_source_by_id config_reload with_config get_config
  serve-Serves health_call u (cfg, current, valid) = rw current fine
  serve-Serves canonical_call u (cfg, current, valid) = rw current fine
  serve-Serves raw_call u (cfg, current, valid) = rw current fine
  serve-Serves version_call u (cfg, current, valid) = rw current fine
  serve-Serves derived_call u (cfg, current, valid) = rw current fine
  serve-Serves walls_call u (cfg, current, valid) = rw current fine
  serve-Serves sources_call u (cfg, current, valid) = rw current fine
  serve-Serves policy_call u (cfg, current, valid) = rw current fine
  serve-Serves (wall_call id) u (cfg, current, valid) =
      rw current (found_fine (get_wall cfg id) wall_dict)
  serve-Serves (source_call id) u (cfg, current, valid) =
      rw current (found_fine (get_source cfg id) source_dict)
  serve-Serves (reload_call hashed read now) u s =
      reloaded_fine (force_reload tools describe path u hashed read now)

  -- Once the first load has succeeded, no request is answered with 503, whatever polls and forced
  -- reloads have happened since and whatever they found.
  pub serve-Reach :
      (read hashed : Option String) (t : ℕ) (w u : Watcher) (cfg : PlatformConfig) (c : Call)
      → load_initial tools describe path init read hashed t ≡ ok (w, cfg)
      → Reach tools describe path w u
      → ¬ IsUnavailable (serve tools describe path gbps c (some u)).1
  serve-Reach read hashed t w u cfg c loaded reach =
      serve-Serves c u (load_initial-Serves tools describe path read hashed t w u cfg loaded reach)
