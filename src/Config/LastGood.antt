-- ===== src/Config/LastGood.antt =====
-- The watcher keeps the last good configuration, whatever the file becomes.
use airgap_videowall.Prelude.{
  ℕ, String, ◌≡◌, refl, ◌≢◌, inl, inr, Option, none, some, Bool-cases, ◌==◌, string_eq, eq_iff, sym,
  subst, arith, ap, eq_of_beq, ◌∙◌,
}
use airgap_videowall.Config.Data.{Failure, Result, ok, raise}
use airgap_videowall.Config.Loader.{Tools, PlatformConfig}
use airgap_videowall.Config.Validity.{IsValid, load_config-IsValid, ok-injective}
use airgap_videowall.Config.Watcher.{
  Watcher, init, file_hash, load_config_file, load_initial, started, settle, check_and_reload,
  force_reload,
}

-- The watcher serves a valid configuration.
abbrev pub Serves : Watcher → Type 0
Serves w = (cfg : PlatformConfig) × (w.current ≡ some cfg) × IsValid cfg

module _ (tools : Tools) (describe : Failure → String) (path : String) where
  -- What happens to a running watcher: a poll or a forced reload, with the file as its two reads
  -- find it.
  pub data Step (w : Watcher) : Watcher → Type 0 where
    poll :
        (hashed read : Option String) (now : ℕ)
        → Step w (check_and_reload tools describe path w hashed read now).0
    force :
        (hashed read : Option String) (now : ℕ)
        → Step w (force_reload tools describe path w hashed read now).0

  pub data Reach (w : Watcher) : Watcher → Type 0 where
    now : Reach w w
    next : {v u : Watcher} → Reach w v → Step v u → Reach w u

  load_config_file-IsValid :
      (read : Option String) (t : ℕ) (cfg : PlatformConfig)
      → load_config_file tools describe path read t ≡ ok cfg
      → IsValid cfg
  unfolding load_config_file
  load_config_file-IsValid none t cfg h = absurd (cc)
  load_config_file-IsValid (some text) t cfg h = load_config-IsValid tools text path t cfg h

  settle-Serves :
      (w : Watcher) (hash : String) (t : ℕ) (r : Result PlatformConfig)
      → ((cfg : PlatformConfig) → r ≡ ok cfg → IsValid cfg)
      → Serves w
      → Serves (settle tools describe path w hash t r).0
  unfolding settle
  settle-Serves w hash t (ok cfg) v s = (cfg, refl, v cfg refl)
  settle-Serves w hash t (raise e) v s = s

  check_and_reload-Serves :
      (w : Watcher) (hashed read : Option String) (t : ℕ)
      → Serves w
      → Serves (check_and_reload tools describe path w hashed read t).0
  unfolding check_and_reload
  check_and_reload-Serves w hashed read t s =
      elim (Bool-cases (file_hash tools describe path hashed == w.last_hash)) [
        | inl e ↦ rw e s
        | inr e ↦ rw e (
            settle-Serves w _ t (load_config_file tools describe path read t)
              (load_config_file-IsValid read t) s)
      ]

  Step-Serves : {w u : Watcher} → Step w u → Serves w → Serves u
  unfolding force_reload
  Step-Serves {w} (poll hashed read t) s = check_and_reload-Serves w hashed read t s
  Step-Serves {w} (force hashed read t) s =
      check_and_reload-Serves (record w { last_hash = "" }) hashed read t s

  Reach-Serves : {w u : Watcher} → Reach w u → Serves w → Serves u
  Reach-Serves now s = s
  Reach-Serves (next r st) s = Step-Serves st (Reach-Serves r s)

  started-Serves :
      (w : Watcher) (hash : String) (t : ℕ) (r : Result PlatformConfig) {v : Watcher}
      {c : PlatformConfig}
      → ((cfg : PlatformConfig) → r ≡ ok cfg → IsValid cfg)
      → started tools describe path w hash t r ≡ ok (v, c)
      → Serves v
  unfolding started
  started-Serves w hash t (ok cfg) v e =
      subst Serves (ap (λ p. p.0) (ok-injective e)) (cfg, refl, v cfg refl)
  started-Serves w hash t (raise f) v e = absurd (cc)

  -- Once the first load has succeeded, a valid configuration is served after every sequence of polls
  -- and forced reloads, whatever the file holds and whether it is there.
  pub load_initial-Serves :
      (read hashed : Option String) (t : ℕ) (w u : Watcher) (cfg : PlatformConfig)
      → load_initial tools describe path init read hashed t ≡ ok (w, cfg)
      → Reach w u
      → Serves u
  unfolding load_initial
  load_initial-Serves read hashed t w u cfg h r = Reach-Serves r (
      started-Serves init _ t (load_config_file tools describe path read t)
        (load_config_file-IsValid read t) h)

  settle-last_hash :
      (w : Watcher) (hash : String) (t : ℕ) (r : Result PlatformConfig)
      → (settle tools describe path w hash t r).0.last_hash ≡ hash
  unfolding settle
  settle-last_hash w hash t (ok cfg) = refl
  settle-last_hash w hash t (raise e) = refl

  check_and_reload_same :
      (w : Watcher) (hashed read : Option String) (t : ℕ)
      → w.last_hash ≡ file_hash tools describe path hashed
      → check_and_reload tools describe path w hashed read t ≡ (w, none)
  unfolding check_and_reload
  check_and_reload_same w hashed read t h = rw ((eq_iff _ _).1 (sym h))

  last_hash-check_and_reload :
      (w : Watcher) (hashed read : Option String) (t : ℕ)
      → (check_and_reload tools describe path w hashed read t).0.last_hash
        ≡ file_hash tools describe path hashed
  unfolding check_and_reload
  last_hash-check_and_reload w hashed read t =
      let hash = file_hash tools describe path hashed in
      elim (Bool-cases (hash == w.last_hash)) [
        | inl e ↦ rw e (sym (eq_of_beq hash w.last_hash e))
        | inr e ↦ rw e (settle-last_hash w hash t (load_config_file tools describe path read t))
      ]

  started_fields :
      (w : Watcher) (hash : String) (t : ℕ) (r : Result PlatformConfig) {v : Watcher}
      {c : PlatformConfig}
      → started tools describe path w hash t r ≡ ok (v, c)
      → (v.current ≡ some c) × (v.last_hash ≡ hash)
  unfolding started
  started_fields w hash t (ok cfg) e =
      let p = ok-injective e in
      (sym (ap (λ q. q.0.current) p) ∙ ap (λ q. some q.1) p, sym (ap (λ q. q.0.last_hash) p))
  started_fields w hash t (raise f) e = absurd (cc)

  -- A content of the file is tried once: the next poll that finds the same content changes nothing,
  -- whether the content was accepted or rejected.
  pub check_and_reload-settles :
      (w : Watcher) (hashed read read' : Option String) (t t' : ℕ)
      → let w' = (check_and_reload tools describe path w hashed read t).0 in
        check_and_reload tools describe path w' hashed read' t' ≡ (w', none)
  unfolding check_and_reload
  check_and_reload-settles w hashed read read' t t' =
      check_and_reload_same _ hashed read' t' (last_hash-check_and_reload w hashed read t)

  -- A poll that finds a new hash and a content that cannot be loaded leaves the configuration, and the time of the last reload, as
  -- they were, and its error is kept.
  pub check_and_reload-rejected :
      (w : Watcher) (hashed read : Option String) (t : ℕ) (e : Failure)
      → file_hash tools describe path hashed ≢ w.last_hash
      → load_config_file tools describe path read t ≡ raise e
      → let (w', r) = check_and_reload tools describe path w hashed read t in
        (r ≡ none)
        × (w'.current ≡ w.current)
        × (w'.last_reload_ts ≡ w.last_reload_ts)
        × (w'.last_error ≡ some (describe e))
        × (w'.notified ≡ w.notified)
  unfolding check_and_reload settle
  check_and_reload-rejected w hashed read t e changed failed =
      ground (arith, eq_iff (file_hash tools describe path hashed) w.last_hash)

  -- A forced reload of a file that is not there reports no error: it answers as if nothing had
  -- changed, and the error of a missing file is never recorded.
  pub force_reload-missing :
      (w : Watcher) (read : Option String) (t : ℕ)
      → force_reload tools describe path w none read t ≡ (record w { last_hash = "" }, none)
  unfolding force_reload check_and_reload file_hash
  force_reload-missing w read t = refl

  -- If the file changes between the first load and the hash taken after it, polls that find the new
  -- content do nothing, and the old configuration stays.
  pub load_initial-race :
      (old : String) (new read : Option String) (t t' : ℕ) (w : Watcher) (cfg : PlatformConfig)
      → load_initial tools describe path init (some old) new t ≡ ok (w, cfg)
      → (w.current ≡ some cfg) × (check_and_reload tools describe path w new read t' ≡ (w, none))
  unfolding load_initial
  load_initial-race old new read t t' w cfg h =
      let r = load_config_file tools describe path (some old) t in
      let (current, last) = started_fields init (file_hash tools describe path new) t r h in
      (current, check_and_reload_same w new read t' last)
