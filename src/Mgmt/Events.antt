-- ===== src/Mgmt/Events.antt =====
-- The events that the management API logs of the requests on walls, sources and layouts.
use airgap_videowall.Audit.Ingest.{rows_of, length-ingest}
use airgap_videowall.Values.{Fields}
use airgap_videowall.Mgmt.Catalogue.{
  create_wall, update_wall, delete_wall, has_wall, create_source, update_source, delete_source,
}
use airgap_videowall.Mgmt.Layouts.{
  report_layout, update_row, create_layout, activate_row, update_layout, delete_layout, activate,
  find_layout, rewrite, new_row,
}
use airgap_videowall.Mgmt.Data.{
  no_content, Env, User, Db, Response, append_audit_event, Layout, Error, failed, LayoutIn,
  forbidden, not_found, value_error, dict_of, foreign_key, event_in, wall_out, source_out,
  layout_out, activated,
}
use airgap_videowall.Prelude.{
  ℕ, ◌+◌, String, ◌≡◌, refl, ap, ◌≢◌, ◌⊎◌, inl, inr, Bool, true, false, Option, none, some, arith,
  if◌then◌else◌, Bool-cases, length,
}
use airgap_videowall.Audit.Chain.{IngestIn, ingest}
use airgap_videowall.Mgmt.Guards.{handle_cases}
use airgap_videowall.Mgmt.Requests.{
  create_wall_request, Request, handle, serve, create_wall_request, update_wall_request,
  delete_wall_request, create_source_request, update_source_request, delete_source_request,
  create_layout_request, update_layout_request, delete_layout_request, activate_request,
}

-- What a handler leaves of the log: the log as it was, or one more event ingested.
data Logged (env : Env) (now : ℕ) (db db' : Db) : Response → Type 0 where
  refused : (e : Error) → e ≢ forbidden → db'.events ≡ db.events → Logged env now db db' (failed e)
  logged :
      (ev : IngestIn) (r : Response)
      → db'.events ≡ ingest env.codec env.audit_chain_id now ev db.events
      → ((e : Error) → r ≢ failed e)
      → Logged env now db db' r

Logged-cases :
    {env : Env} {now : ℕ} {db db' : Db} {r : Response}
    → Logged env now db db' r
    → ((e : Error) × (r ≡ failed e) × (e ≢ forbidden) × (db'.events ≡ db.events))
      ⊎ ((ev : IngestIn) × ((e : Error) → r ≢ failed e)
          × (db'.events ≡ ingest env.codec env.audit_chain_id now ev db.events))
Logged-cases (refused e ne h) = inl (e, refl, ne, h)
Logged-cases (logged ev r h n) = inr (ev, n, h)

module _ (env : Env) (user : User) (now : ℕ) where
  append-Logged :
      (action object_type : String) (id : ℕ) (details : Fields) (db db' : Db) (r : Response)
      → db'.events ≡ db.events
      → ((e : Error) → r ≢ failed e)
      → Logged env now db
          (append_audit_event env now action user.actor object_type id details db')
          r
  unfolding append_audit_event ingest
  append-Logged action object_type id details db db' r e n =
      let ev = event_in action user.actor object_type id details in
      logged ev r (ap (λ s. ingest env.codec env.audit_chain_id now ev s) e) n

  report_layout-Logged :
      (action : String) (row : Layout) (grid : Option Fields) (db db' : Db)
      → db'.events ≡ db.events
      → let (after, r) = report_layout env user now action row grid db' in Logged env now db after r
  unfolding report_layout
  report_layout-Logged action row none db db' e = refused value_error (λ h. absurd (cc)) e
  report_layout-Logged action row (some grid) db db' e =
      append-Logged action "layout" row.id _ db db' _ e (λ f h. absurd (cc))

  -- a handler that looks for a row first
  guarded-Logged :
      (found : Bool) (what : String) (db after : Db) (r : Response)
      → Logged env now db after r
      → let (s, q) : Db × Response = if found then (after, r) else (db, failed (not_found what)) in
        Logged env now db s q
  guarded-Logged true what db after r l = l
  guarded-Logged false what db after r l = refused (not_found what) (λ h. absurd (cc)) refl

  update_row-Logged :
      (id : ℕ) (payload : LayoutIn) (found : Option Layout) (db : Db)
      → let (after, r) = update_row env user now id payload found db in Logged env now db after r
  unfolding update_row
  update_row-Logged id payload none db = refused _ (λ h. absurd (cc)) refl
  update_row-Logged id payload (some old) db =
      elim (Bool-cases (has_wall payload.wall_id db.walls)) [
        | inl e ↦ rw e (
            report_layout-Logged _ (rewrite id payload old)
              (dict_of (env.read_jsonb payload.grid_config)) db _ refl)
        | inr e ↦ rw e (refused foreign_key (λ h. absurd (cc)) refl)
      ]

  activate_row-Logged :
      (id : ℕ) (found : Option Layout) (db : Db)
      → let (after, r) = activate_row env user now id found db in Logged env now db after r
  unfolding activate_row
  activate_row-Logged id none db = refused _ (λ h. absurd (cc)) refl
  activate_row-Logged id (some l) db = append-Logged _ _ id _ db _ _ refl (λ f h. absurd (cc))

  create_layout-Logged :
      (payload : LayoutIn) (db : Db)
      → let (after, r) = create_layout env user now payload db in Logged env now db after r
  unfolding create_layout
  create_layout-Logged payload db = elim (Bool-cases (has_wall payload.wall_id db.walls)) [
    | inl e ↦ rw e (
        report_layout-Logged _ (new_row user now payload db)
          (dict_of (env.read_jsonb payload.grid_config)) db _ refl)
    | inr e ↦ rw e (refused foreign_key (λ h. absurd (cc)) refl)
  ]

  serve-Logged :
      (req : Request) (db : Db)
      → let (after, r) = serve env user now req db in Logged env now db after r
  unfolding serve create_wall update_wall delete_wall create_source update_source delete_source
      update_layout delete_layout activate
  serve-Logged (create_wall_request payload) db =
      append-Logged _ _ _ _ db _ _ refl (λ f h. absurd (cc))
  serve-Logged (update_wall_request id payload) db =
      guarded-Logged _ _ db _ _ (append-Logged _ _ id _ db _ _ refl (λ f h. absurd (cc)))
  serve-Logged (delete_wall_request id) db =
      guarded-Logged _ _ db _ _ (append-Logged _ _ id _ db _ _ refl (λ f h. absurd (cc)))
  serve-Logged (create_source_request payload) db =
      append-Logged _ _ _ _ db _ _ refl (λ f h. absurd (cc))
  serve-Logged (update_source_request id payload) db =
      guarded-Logged _ _ db _ _ (append-Logged _ _ id _ db _ _ refl (λ f h. absurd (cc)))
  serve-Logged (delete_source_request id) db =
      guarded-Logged _ _ db _ _ (append-Logged _ _ id _ db _ _ refl (λ f h. absurd (cc)))
  serve-Logged (create_layout_request payload) db = create_layout-Logged payload db
  serve-Logged (update_layout_request id payload) db =
      update_row-Logged id payload (find_layout id db.layouts) db
  serve-Logged (delete_layout_request id) db =
      guarded-Logged _ _ db _ _ (append-Logged _ _ id _ db _ _ refl (λ f h. absurd (cc)))
  serve-Logged (activate_request id) db = activate_row-Logged id (find_layout id db.layouts) db

  pub serve-ne-forbidden :
      (req : Request) (db : Db) → (serve env user now req db).1 ≢ failed forbidden
  serve-ne-forbidden req db h = elim (Logged-cases (serve-Logged req db)) [
    | inl (f, k, ne, e) ↦ ne (cc)
    | inr (ev, n, e) ↦ n forbidden h
  ]

  pub handle_events :
      (req : Request) (db : Db)
      → let (after, r) = handle env user now req db in
        ((e : Error) × (r ≡ failed e) × (after.events ≡ db.events))
        ⊎ ((ev : IngestIn) × ((e : Error) → r ≢ failed e)
            × (after.events ≡ ingest env.codec env.audit_chain_id now ev db.events))
  handle_events req db = elim (handle_cases env user now req db) [
    | inl (p, e) ↦ rw e (elim (Logged-cases (serve-Logged req db)) [
      | inl (f, k, ne, h) ↦ inl (f, k, h)
      | inr logged_event ↦ inr logged_event
    ])
    | inr (n, e) ↦ rw e (inl (forbidden, refl, refl))
  ]

abbrev pub is_failure : Response → Bool
is_failure (failed e) = true
is_failure _ = false

pub not-failed : (r : Response) → ((e : Error) → r ≢ failed e) → is_failure r ≡ false
not-failed (failed e) n = absurd (n e refl)
not-failed (wall_out w) n = refl
not-failed (source_out s) n = refl
not-failed (layout_out l) n = refl
not-failed (activated l) n = refl
not-failed no_content n = refl

-- A request that is answered without an error adds one event to the log, and one that fails adds
-- none.
pub length-handle :
    (env : Env) (user : User) (now : ℕ) (req : Request) (db : Db)
    → let (after, r) = handle env user now req db in
      length (rows_of env.audit_chain_id after.events)
      ≡ length (rows_of env.audit_chain_id db.events) + (if is_failure r then 0 else 1)
length-handle env user now req db = elim (handle_events env user now req db) [
  | inl (e, f, h) ↦ rw (f, h) (omega arith)
  | inr (ev, n, h) ↦
      rw (not-failed _ n, h) (length-ingest env.codec env.audit_chain_id now ev db.events)
]
