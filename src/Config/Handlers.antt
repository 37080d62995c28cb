-- ===== src/Config/Handlers.antt =====
-- services/vw-config/app/main.py: the handlers in front of the watcher, which is `none` where the
-- file was not there when the service started. How a bandwidth in gigabits is written is a parameter.
use airgap_videowall.Config.Json.{
  nat, wall_dict, text_json, source_dict, walls_json, sources_json, counts_json,
}
use airgap_videowall.Prelude.{
  ℕ, String, Bool, true, false, Option, none, some, List, [], ◌∷◌, if◌then◌else◌, ◌==◌, nat_eq,
  string_eq,
}
use airgap_videowall.Values.{Value, Fields, bool, num, str, list, obj, end, field}
use airgap_videowall.Config.Data.{Failure, Result, ok, raise}
use airgap_videowall.Config.Derived.{DerivedMetrics}
use airgap_videowall.Config.Loader.{Tools, PlatformConfig}
use airgap_videowall.Config.Validity.{get_wall, get_source}
use airgap_videowall.Config.Watcher.{
  Watcher, DryRun, valid, invalid, init, load_initial, force_reload, dry_run,
}
use airgap_videowall.Config.Api.{policy_json}

-- A response: its status, and the JSON or the text of its body with the hash in the header.
pub data Response : Type 0 where
  json : ℕ → Fields → Response
  text : String → String → Response
  error : ℕ → Response

-- `_get_config`
unfoldable pub get_config : Option Watcher → Option PlatformConfig
get_config none = none
get_config (some w) = w.current

-- `raise HTTPException(status_code=503)` where no configuration is loaded
unfoldable pub with_config : Option Watcher → (PlatformConfig → Response) → Response
unfolding get_config
with_config w answer = elim (get_config w) [ none ↦ error 503 | some cfg ↦ answer cfg ]

unfoldable pub last_error_json : Option String → Fields
last_error_json none = end
last_error_json (some e) = text_json "last_error" e

-- `healthz`
unfoldable pub healthz : Option Watcher → Response
unfolding last_error_json text_json
healthz none = json 503 (field "status" (str "no_config") end)
healthz (some w) = elim w.current [
  | none ↦ json 503 (field "status" (str "no_config") end)
  | some cfg ↦ json 200 (
      field "status" (str "ok") (
        field "active_hash" (str cfg.derived.config_hash)
          (field "last_reload_ts" (nat w.last_reload_ts) (last_error_json w.last_error))))
]

unfoldable pub get_canonical : Option Watcher → Response
unfolding with_config
get_canonical w = with_config w λ cfg. text cfg.canonical_json cfg.derived.config_hash

unfoldable pub get_config_raw : Option Watcher → Response
unfolding with_config
get_config_raw w = with_config w λ cfg. text cfg.raw_yaml cfg.derived.config_hash

unfoldable pub get_version : Option Watcher → Response
unfolding with_config
get_version w = with_config w λ cfg. json 200 (
    field "version" (str cfg.platform.version) (
      field "config_hash" (str cfg.derived.config_hash)
        (field "loaded_from" (str cfg.loaded_from) (field "loaded_at" (nat cfg.loaded_at) end))))

unfoldable pub derived_json : (ℕ → Value) → DerivedMetrics → Fields
unfolding counts_json
derived_json gbps d = field "total_walls" (nat d.total_walls) (
    field "tile_walls" (nat d.tile_walls) (
      field "bigscreen_walls" (nat d.bigscreen_walls) (
        field "total_tiles" (nat d.total_tiles) (
          field "total_screens" (nat d.total_screens) (
            field "total_display_endpoints" (nat d.total_display_endpoints) (
              field "total_sources" (nat d.total_sources) (
                field "sources_by_type" (obj (counts_json d.sources_by_type)) (
                  field "sfu_rooms_needed" (nat d.sfu_rooms_needed) (
                    field "mosaic_pipelines_needed" (nat d.mosaic_pipelines_needed) (
                      field "estimated_bandwidth_gbps" (gbps d.estimated_bandwidth_kbps) (
                        field "worst_case_concurrency" (nat d.worst_case_concurrency) (
                          field "concurrency_headroom" (num d.concurrency_headroom)
                            (field "config_hash" (str d.config_hash) end)))))))))))))

unfoldable pub get_derived : (ℕ → Value) → Option Watcher → Response
unfolding with_config derived_json
get_derived gbps w = with_config w λ cfg. json 200 (derived_json gbps cfg.derived)

unfoldable pub list_walls : Option Watcher → Response
unfolding with_config walls_json
list_walls w = with_config w λ cfg. json 200 (field "walls" (list (walls_json cfg.walls)) end)

unfoldable pub list_sources : Option Watcher → Response
unfolding with_config sources_json
list_sources w =
    with_config w λ cfg. json 200 (field "sources" (list (sources_json cfg.sources)) end)

unfoldable pub get_wall_by_id : String → Option Watcher → Response
unfolding with_config wall_dict
get_wall_by_id id w =
    with_config w
      λ cfg. elim (get_wall cfg id) [ none ↦ error 404 | some wall ↦ json 200 (wall_dict wall) ]

unfoldable pub get_source_by_id : String → Option Watcher → Response
unfolding with_config source_dict
get_source_by_id id w = with_config w λ cfg. elim (get_source cfg id) [
  | none ↦ error 404
  | some source ↦ json 200 (source_dict source)
]

unfoldable pub get_policy : Option Watcher → Response
unfolding with_config policy_json
get_policy w = with_config w λ cfg. json 200 (policy_json cfg.policy)

-- `config_dry_run`: the status beside the answer
unfoldable pub config_dry_run : Tools → String → ℕ → ℕ × DryRun
unfolding dry_run
config_dry_run tools body now =
    let result = dry_run tools body now in
    (elim result [ valid version derived ↦ 200 | invalid e ↦ 400 ], result)

unfoldable pub reloaded : Watcher × Option PlatformConfig → Option Watcher × Response
reloaded (w, some cfg) = (
  some w,
  json 200 (
      field "reloaded" (bool true) (
        field "version" (str cfg.platform.version)
          (field "hash" (str cfg.derived.config_hash) end))),
)
reloaded (w, none) = (
  some w,
  json 200 (
      field "reloaded" (bool false) (
        field "error"
          (str (elim w.last_error [
            | none ↦ "No changes"
            | some e ↦ if e == "" then "No changes" else e
          ]))
          end)),
)

module _ (tools : Tools) (describe : Failure → String) (path : String) where
  -- `config_reload`
  unfoldable pub config_reload :
      Option Watcher → Option String → Option String → ℕ → Option Watcher × Response
  unfolding force_reload reloaded
  config_reload none hashed read now = (none, error 503)
  config_reload (some w) hashed read now =
      reloaded (force_reload tools describe path w hashed read now)

  unfoldable pub watching : Result (Watcher × PlatformConfig) → Result (Option Watcher)
  watching (ok (w, cfg)) = ok (some w)
  watching (raise e) = raise e

  -- `_startup_watcher`: no watcher is made where the file is not there, and an exception of the first
  -- load ends the service
  unfoldable pub startup_watcher :
      Bool → Option String → Option String → ℕ → Result (Option Watcher)
  unfolding load_initial init watching
  startup_watcher exists read hashed now =
      if exists then watching (load_initial tools describe path init read hashed now) else ok none

-- The requests that read the configuration or reload it.
pub data Call : Type 0 where
  health_call canonical_call raw_call version_call derived_call walls_call sources_call
        policy_call :
      Call
  wall_call source_call : String → Call
  reload_call : Option String → Option String → ℕ → Call

module _ (tools : Tools) (describe : Failure → String) (path : String) (gbps : ℕ → Value) where
  unfoldable pub serve : Call → Option Watcher → Option Watcher × Response
  unfolding healthz get_canonical get_config_raw get_version get_derived list_walls list_sources
      get_policy get_wall_by_id get_source_by_id config_reload
  serve health_call w = (w, healthz w)
  serve canonical_call w = (w, get_canonical w)
  serve raw_call w = (w, get_config_raw w)
  serve version_call w = (w, get_version w)
  serve derived_call w = (w, get_derived gbps w)
  serve walls_call w = (w, list_walls w)
  serve sources_call w = (w, list_sources w)
  serve policy_call w = (w, get_policy w)
  serve (wall_call id) w = (w, get_wall_by_id id w)
  serve (source_call id) w = (w, get_source_by_id id w)
  serve (reload_call hashed read now) w = config_reload tools describe path w hashed read now

  -- the responses to a sequence of requests
  unfoldable pub serve_all : List Call → Option Watcher → Option Watcher × List Response
  unfolding serve
  serve_all [] w = (w, [])
  serve_all (c ∷ cs) w = let (v, r) = serve c w in let (u, rs) = serve_all cs v in (u, r ∷ rs)
