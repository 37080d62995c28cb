-- ===== src/Mgmt/Access.antt =====
-- Who may change what: `require_role` on every request that changes the database.
use airgap_videowall.Mgmt.Events.{serve-ne-forbidden}
use airgap_videowall.Prelude.{ℕ, ◌≡◌, ◌≢◌, inl, inr}
use airgap_videowall.Mgmt.Data.{User, Env, Db, failed, forbidden}
use airgap_videowall.Mgmt.Guards.{IsAllowed, handle_cases}
use airgap_videowall.Mgmt.Requests.{Request, handle, serve}

module _ (env : Env) (user : User) (now : ℕ) (req : Request) (db : Db) where
  -- A request of an administrator, and one of an operator that neither creates a wall nor deletes
  -- anything, is served by its handler and not answered with `forbidden`; every other request is,
  -- and changes nothing.
  pub handle-IsAllowed :
      (IsAllowed req user
        → (handle env user now req db ≡ serve env user now req db)
          × ((handle env user now req db).1 ≢ failed forbidden))
      × (¬ IsAllowed req user → handle env user now req db ≡ (db, failed forbidden))
  handle-IsAllowed = elim (handle_cases env user now req db) [
    | inl (p, e) ↦
        (λ q. (e, λ h. serve-ne-forbidden env user now req db (cc (e, h))), λ n. absurd (n p))
    | inr (n, e) ↦ (λ q. absurd (n q), λ m. e)
  ]
