-- ===== src/Mgmt/Log.antt =====
-- The log of the management API, whichever of its parts write to it.
use airgap_videowall.Mgmt.Ingested.{
  of_response, of_token, of_verdict, of_import, total, of_pass, Ingests, same, one, then_,
  handle-Ingests,
}
use airgap_videowall.Mgmt.Proxied.{
  tokens_subscribe-Ingests, policy_evaluate-Ingests, bundles_import-Ingests,
}
use airgap_videowall.Prelude.{
  ℕ, ◌+◌, String, ◌≡◌, subst, Option, none, some, List, [], ◌∷◌, arith, string_eq,
}
use airgap_videowall.Mgmt.Data.{Env, User, Db, Wall, Source}
use airgap_videowall.Mgmt.Requests.{Request, handle}
use airgap_videowall.Mgmt.Tokens.{TokenTools, Subject, TokenSubscribeRequest, tokens_subscribe}
use airgap_videowall.Mgmt.Proxies.{
  policy_evaluate, ImportTools, BundleImportRequest, bundles_import,
}
use airgap_videowall.Reconcile.Rows.{Select, Change, created, updated, unchanged, change}
use airgap_videowall.Reconcile.Mapping.{ConfigWall, ConfigSource, managed_walls, managed_sources}
use airgap_videowall.Reconcile.Upsert.{
  Stats, no_stats, apply_wall, apply_source, reconcile_walls, reconcile_sources, reconcile_once,
}
use airgap_videowall.Values.{Value, Fields}

-- What the database becomes: requests of any users and passes of the reconciliation, at any instants
-- and with whatever the other services answer. The number is that of the events that the answers
-- stand for.
pub data History (env : Env) (db : Db) : ℕ → Db → Type 0 where
  start : History env db 0 db
  request :
      {n : ℕ} {db' : Db}
      → History env db n db'
      → (user : User) (now : ℕ) (req : Request)
      → History env db
          (n + of_response (handle env user now req db').1)
          (handle env user now req db').0
  subscribe :
      {n : ℕ} {db' : Db}
      → History env db n db'
      → (tools : TokenTools) (now : ℕ) (user : Subject) (req : TokenSubscribeRequest)
      → History env db
          (n + of_token (tokens_subscribe env tools now user req db').1)
          (tokens_subscribe env tools now user req db').0
  evaluate :
      {n : ℕ} {db' : Db}
      → History env db n db'
      → (tools : TokenTools) (now : ℕ) (user : Subject) (payload : Fields)
      → History env db
          (n + of_verdict (policy_evaluate env tools now user payload db').1)
          (policy_evaluate env tools now user payload db').0
  import_bundle :
      {n : ℕ} {db' : Db}
      → History env db n db'
      → (repr : Value → String) (tools : ImportTools) (now : ℕ) (user : Subject)
        (req : BundleImportRequest)
      → History env db
          (n + of_import (bundles_import env repr tools now user req db').1)
          (bundles_import env repr tools now user req db').0
  reconcile :
      {n : ℕ} {db' : Db}
      → History env db n db'
      → (select_wall : Select Wall) (select_source : Select Source)
        (walls : Option (List (ℕ × ConfigWall))) (sources : Option (List (ℕ × ConfigSource)))
      → History env db
          (n + of_pass (reconcile_once env select_wall select_source walls sources db').1)
          (reconcile_once env select_wall select_source walls sources db').0

module _ (env : Env) where
  -- The statistics grow with the log.
  record Counts (s s' : Db × Stats) : Type 0 where
    added : ℕ
    counted : total s'.1 ≡ added + total s.1
    log : Ingests env added s.0.events s'.0.events

  idle : (s : Db × Stats) → Counts s s
  idle s = record { added = 0; counted = omega arith; log = same env s.0.events }

  then_counts : (a b c : Db × Stats) → Counts a b → Counts b c → Counts a c
  then_counts a b c p q = record {
    added = p.added + q.added;
    counted = omega (arith, p.counted, q.counted);
    log = then_ env p.added q.added a.0.events b.0.events c.0.events p.log q.log;
  }

  apply_wall-Counts :
      (now : ℕ) (cw : ConfigWall) (c : Change Wall) (s : Db × Stats)
      → Counts s (apply_wall env now cw c s)
  unfolding apply_wall
  apply_wall-Counts now cw (created w) s = record {
    added = 1;
    counted = omega arith;
    log = one env now _ s.0;
  }
  apply_wall-Counts now cw (updated w old) s = record {
    added = 1;
    counted = omega arith;
    log = one env now _ s.0;
  }
  apply_wall-Counts now cw unchanged s = idle s

  apply_source-Counts :
      (now : ℕ) (cs : ConfigSource) (c : Change Source) (s : Db × Stats)
      → Counts s (apply_source env now cs c s)
  unfolding apply_source
  apply_source-Counts now cs (created r) s = record {
    added = 1;
    counted = omega arith;
    log = one env now _ s.0;
  }
  apply_source-Counts now cs (updated r old) s = record {
    added = 1;
    counted = omega arith;
    log = one env now _ s.0;
  }
  apply_source-Counts now cs unchanged s = idle s

  reconcile_walls-Counts :
      (select : Select Wall) (entries : List (ℕ × ConfigWall)) (s : Db × Stats)
      → Counts s (reconcile_walls env select entries s)
  unfolding reconcile_walls
  reconcile_walls-Counts select [] s = idle s
  reconcile_walls-Counts select ((now, cw) ∷ entries) s =
      let c = change managed_walls select now s.0.next_wall cw s.0.walls in
      then_counts _ _ _ (apply_wall-Counts now cw c s)
        (reconcile_walls-Counts select entries (apply_wall env now cw c s))

  reconcile_sources-Counts :
      (select : Select Source) (entries : List (ℕ × ConfigSource)) (s : Db × Stats)
      → Counts s (reconcile_sources env select entries s)
  unfolding reconcile_sources
  reconcile_sources-Counts select [] s = idle s
  reconcile_sources-Counts select ((now, cs) ∷ entries) s =
      let c = change managed_sources select now s.0.next_source cs s.0.sources in
      then_counts _ _ _ (apply_source-Counts now cs c s)
        (reconcile_sources-Counts select entries (apply_source env now cs c s))

  Counts-Ingests :
      (db : Db) (s : Db × Stats)
      → Counts (db, no_stats) s
      → Ingests env (total s.1) db.events s.0.events
  Counts-Ingests db s c =
      let n : c.added ≡ total s.1 = omega (arith, c.counted) in
      subst (λ m. Ingests env m db.events s.0.events) n c.log

  reconcile_once-Ingests :
      (select_wall : Select Wall) (select_source : Select Source)
      (walls : Option (List (ℕ × ConfigWall))) (sources : Option (List (ℕ × ConfigSource)))
      (db : Db)
      → let (after, r) = reconcile_once env select_wall select_source walls sources db in
        Ingests env (of_pass r) db.events after.events
  unfolding reconcile_once
  reconcile_once-Ingests sw ss none sources db = same env db.events
  reconcile_once-Ingests sw ss (some walls) none db = same env db.events
  reconcile_once-Ingests sw ss (some walls) (some sources) db =
      let first = reconcile_walls env sw walls (db, no_stats) in
      let second = reconcile_sources env ss sources (first.0, no_stats) in
      then_ env (total first.1) (total second.1) db.events first.0.events second.0.events
        (Counts-Ingests db first (reconcile_walls-Counts sw walls (db, no_stats)))
        (Counts-Ingests first.0 second (reconcile_sources-Counts ss sources (first.0, no_stats)))

  -- Whatever requests change the database, those for tokens, for verdicts and for imports included,
  -- and whatever passes of the reconciliation, at any instants and with any answers of the other
  -- services: the log is that of the audit service's `ingest`, called in turn from the log before,
  -- once for every request that is answered without an error or with a verdict, and for every row
  -- that a pass creates or updates.
  pub History-Ingests :
      (db : Db) (n : ℕ) (db' : Db) → History env db n db' → Ingests env n db.events db'.events
  History-Ingests db n db' start = same env db.events
  History-Ingests db n db' (request {n = k} {db' = mid} h user now req) =
      then_ env k _ _ _ _ (History-Ingests db k mid h) (handle-Ingests env user now req mid)
  History-Ingests db n db' (subscribe {n = k} {db' = mid} h tools now user req) =
      then_ env k _ _ _ _ (History-Ingests db k mid h)
        (tokens_subscribe-Ingests env tools now user req mid)
  History-Ingests db n db' (evaluate {n = k} {db' = mid} h tools now user payload) =
      then_ env k _ _ _ _ (History-Ingests db k mid h)
        (policy_evaluate-Ingests env tools now user payload mid)
  History-Ingests db n db' (import_bundle {n = k} {db' = mid} h repr tools now user req) =
      then_ env k _ _ _ _ (History-Ingests db k mid h)
        (bundles_import-Ingests env repr tools now user req mid)
  History-Ingests db n db' (reconcile {n = k} {db' = mid} h sw ss walls sources) =
      then_ env k _ _ _ _ (History-Ingests db k mid h)
        (reconcile_once-Ingests sw ss walls sources mid)
