-- ===== src/Config/Watcher.antt =====
-- services/vw-config/app/config_authority.py: `ConfigWatcher` and `dry_run`. The file is what each
-- read of it finds, `none` if it is not there: hashing and loading read it separately.
use airgap_videowall.Prelude.{
  ℕ, String, Option, none, some, List, [], ◌∷◌, ◌++◌, if◌then◌else◌, ◌==◌, string_eq,
}
use airgap_videowall.Config.Data.{Failure, file_not_found, Result, ok, raise}
use airgap_videowall.Config.Derived.{DerivedMetrics}
use airgap_videowall.Config.Loader.{Tools, PlatformConfig, load_config}

pub data Kind : Type 0 where
  config_applied config_rejected : Kind

-- A line of the event log.
pub record Event : Type 0 where
  pub ts : ℕ
  pub event : Kind
  pub old_hash : String
  pub new_hash : String
  pub error : String

-- `notified` are the configurations handed to the callbacks.
pub record Watcher : Type 0 where
  pub last_hash : String
  pub current : Option PlatformConfig
  pub last_reload_ts : ℕ
  pub last_error : Option String
  pub events : List Event
  pub notified : List PlatformConfig

unfoldable pub init : Watcher
init = record {
  last_hash = "";
  current = none;
  last_reload_ts = 0;
  last_error = none;
  events = [];
  notified = [];
}

module _ (tools : Tools) (describe : Failure → String) (path : String) where
  -- `_file_hash`
  unfoldable pub file_hash : Option String → String
  file_hash none = ""
  file_hash (some text) = tools.sha256_hex text

  -- `load_config_file`
  unfoldable pub load_config_file : Option String → ℕ → Result PlatformConfig
  load_config_file none now = raise file_not_found
  load_config_file (some text) now = load_config tools text path now

  unfoldable pub active_hash : Option PlatformConfig → String
  active_hash none = ""
  active_hash (some cfg) = cfg.derived.config_hash

  unfoldable pub started :
      Watcher → String → ℕ → Result PlatformConfig → Result (Watcher × PlatformConfig)
  started w hash now (raise e) = raise e
  started w hash now (ok cfg) = ok (
    record w {
      last_hash = hash;
      current = some cfg;
      last_reload_ts = now;
      last_error = none;
      events =
          w.events
          ++ record {
            ts = now;
            event = config_applied;
            old_hash = "";
            new_hash = cfg.derived.config_hash;
            error = "";
          }
            ∷ [];
    },
    cfg,
  )

  -- `load_initial`: the file is loaded first and hashed by a second read
  unfoldable pub load_initial :
      Watcher → Option String → Option String → ℕ → Result (Watcher × PlatformConfig)
  unfolding started
  load_initial w read hashed now = started w (file_hash hashed) now (load_config_file read now)

  unfoldable pub settle :
      Watcher → String → ℕ → Result PlatformConfig → Watcher × Option PlatformConfig
  settle w hash now (ok cfg) = (
    record w {
      last_hash = hash;
      current = some cfg;
      last_reload_ts = now;
      last_error = none;
      events =
          w.events
          ++ record {
            ts = now;
            event = config_applied;
            old_hash = active_hash w.current;
            new_hash = cfg.derived.config_hash;
            error = "";
          }
            ∷ [];
      notified = w.notified ++ cfg ∷ [];
    },
    some cfg,
  )
  settle w hash now (raise e) = (
    record w {
      last_hash = hash;
      last_error = some (describe e);
      events =
          w.events
          ++ record {
            ts = now;
            event = config_rejected;
            old_hash = active_hash w.current;
            new_hash = "";
            error = describe e;
          }
            ∷ [];
    },
    none,
  )

  -- `check_and_reload`: the file is hashed first and loaded by a second read
  unfoldable pub check_and_reload :
      Watcher → Option String → Option String → ℕ → Watcher × Option PlatformConfig
  unfolding settle
  check_and_reload w hashed read now =
      if file_hash hashed == w.last_hash
      then (w, none)
      else settle w (file_hash hashed) now (load_config_file read now)

  -- `force_reload`
  unfoldable pub force_reload :
      Watcher → Option String → Option String → ℕ → Watcher × Option PlatformConfig
  force_reload w hashed read now = check_and_reload (record w { last_hash = "" }) hashed read now

-- What `dry_run` answers.
pub data DryRun : Type 0 where
  valid : String → DerivedMetrics → DryRun
  invalid : Failure → DryRun

unfoldable pub dry_run_of : Result PlatformConfig → DryRun
dry_run_of (ok cfg) = valid cfg.platform.version cfg.derived
dry_run_of (raise e) = invalid e

unfoldable pub dry_run : Tools → String → ℕ → DryRun
unfolding dry_run_of
dry_run tools text now = dry_run_of (load_config tools text "<dry-run>" now)
