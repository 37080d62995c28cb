-- ===== src/Lib.antt =====
-- airgap-videowall: a control plane for video walls in networks without an uplink.
--
-- The program is a set of Python services that call each other over HTTP. The configuration
-- authority (services/vw-config) validates a YAML file and serves it. The policy service
-- (services/policy) fetches its rules from there, or from a file, and decides who may show which
-- source on which wall. The management API (services/mgmt-api) keeps walls, sources and layouts in
-- PostgreSQL, asks the policy service before it mints a stream token, and logs an event for every
-- change. The audit service (services/audit) keeps a hash chain of events. The gateway and the
-- compositor (services/gateway, services/compositor) run GStreamer pipelines as child processes; the
-- compositor asks the policy service first. The agents (agents/) run beside the screens and the sources:
-- the wall controller starts a player for each tile of the layout, the players and the encoder restart
-- their pipelines, and the source registration sends heartbeats to the health service (services/health).
-- The bundle tool (tools/bundlectl) carries configurations across the air gap in signed archives.
--
-- Which file models which part:
--   Values            the values that Python reads from JSON or YAML without a schema
--   Policy.Engine     services/policy/app/main.py, PolicyEngine.evaluate and its closures
--   Policy.Decides    what the rules of a document mean, told apart from the code
--   Policy.Service    the same file, reload, the tag lookup and the /evaluate handler
--   Audit.Chain       services/audit/app/main.py, ingest and verify
--   Audit.Query       the same file, query and export_log
--   Config.Data .. Config.Loader
--                     services/vw-config/app/config_authority.py, the data classes, validate_semantic,
--                     DerivedMetrics.compute and load_config
--   Config.Watcher    the same file, ConfigWatcher and dry_run
--   Config.Api, Config.Json, Config.Handlers
--                     services/vw-config/app/main.py, the JSON of the policy and all the handlers
--   Mgmt.Data .. Mgmt.Requests
--                     services/mgmt-api/app/{models,database,main}.py, the tables, the handlers of
--                     walls, sources and layouts, require_role and append_audit_event
--   Mgmt.Users        services/mgmt-api/app/main.py, get_current_user and require_role
--   Mgmt.Proxies      the same file, policy_evaluate and bundles_import
--   Mgmt.Tokens       services/mgmt-api/app/main.py, tokens_subscribe
--   Reconcile         services/mgmt-api/app/reconcile.py: Mapping has the rows of the entries, Rows the
--                     interface of the two tables, Upsert the passes, Loop the rounds,
--                     Served the walls as vw-config answers them
--   Health.Heartbeats services/health/app/main.py, the heartbeats, and the foreign keys of their tables
--   Bundle            tools/bundlectl/bundlectl.py: Archive has the manifest and its signature, Verify the
--                     check of a bundle, Commands export, verify and import, Diff the comparison
--   Agents.Wallctl    agents/wallctl/vw_wallctl.py: Settings has the configuration, Tokens the caches and
--                     the requests, Streams the stream of a tile, Tiles the players, Layout a layout that is applied and the rounds
--   Agents.Encoder    agents/vdi-encoder/vw_vdi_encoder.py, the pipeline and the watchdog loop
--   Agents.Players    agents/tile-player/vw_tile_player.py, agents/big-player/vw_big_player.py
--   Agents.Sourcereg  agents/sourcereg/vw_sourcereg.py; Endpoint has the request as the
--                     management API takes it (services/mgmt-api/app/main.py and models.py)
--   Agents.Http       agents/_common/vw_http.py, the retries of the agents' requests
--   Processes.Table   the process table that services/gateway/app/main.py and
--                     services/compositor/app/main.py share word for word
--   Processes.Gateway services/gateway/app/pipelines.py and main.py
--   Processes.Compositor
--                     services/compositor/app/policy.py and main.py
--   Processes.Mosaic  services/compositor/app/pipelines.py
--
-- Functions keep the names of the code. A handler takes the state and gives the state after it with
-- its answer; an exception is a value of the answer. A database table is a list of its rows with the
-- newest first. Two requests that interleave are written as their statements in sequence. Loops are
-- structural recursion on the list that the code walks, or on the number of rounds that are left where
-- the code counts them, so no fuel is needed.
--
-- What stands outside the repository is a parameter: SHA-256, canonical JSON, the YAML parser, the
-- verdict of the JSON schema, the text of JSONB columns and what PostgreSQL refuses, which of several
-- rows a SELECT without an order gives, the JWT encoding, the answers of HTTP requests and of the file
-- system, the clock, and which child processes live. Texts are lowered for the letters A to Z only, and
-- floating point numbers are compared by their text. Bandwidth estimates are kept as whole kilobits per
-- second, where the code rounds a floating point number.
--
-- Not modelled: the read-only handlers of the management API, the reports
-- of the health service, the web interface, charts and scripts.
pub mod Prelude
pub mod Values
pub mod Policy
pub mod Audit
pub mod Config
pub mod Mgmt
pub mod Processes
pub mod Reconcile
pub mod Health
pub mod Agents
pub mod Bundle
