-- ===== src/Mgmt/Requests.antt =====
-- services/mgmt-api/app/main.py: `require_role`, and the requests that change the database. The
-- handlers run one after another.
use airgap_videowall.Mgmt.Layouts.{create_layout, update_layout, delete_layout, activate}
use airgap_videowall.Mgmt.Catalogue.{
  create_wall, update_wall, delete_wall, create_source, update_source, delete_source,
}
use airgap_videowall.Mgmt.Data.{
  WallIn, Env, User, SourceIn, Db, LayoutIn, Response, failed, forbidden,
}
use airgap_videowall.Prelude.{
  ℕ, String, Bool, true, List, [], ◌∷◌, if◌then◌else◌, string_eq, elem, intersects,
}

-- `require_role`
unfoldable pub permits : List String → List String → Bool
permits required roles = if elem "admin" roles then true else intersects required roles

pub data Request : Type 0 where
  create_wall_request : WallIn → Request
  update_wall_request : ℕ → WallIn → Request
  delete_wall_request : ℕ → Request
  create_source_request : SourceIn → Request
  update_source_request : ℕ → SourceIn → Request
  delete_source_request : ℕ → Request
  create_layout_request : LayoutIn → Request
  update_layout_request : ℕ → LayoutIn → Request
  delete_layout_request : ℕ → Request
  activate_request : ℕ → Request

-- A handler that depends on `require_role(…)`
unfoldable pub guard : List String → User → (Db → Db × Response) → Db → Db × Response
unfolding permits
guard required user h db = if permits required user.roles then h db else (db, failed forbidden)

module _ (env : Env) (user : User) (now : ℕ) where
  -- The handlers without their guards
  unfoldable pub serve : Request → Db → Db × Response
  serve (create_wall_request payload) db = create_wall env user now payload db
  serve (update_wall_request id payload) db = update_wall env user now id payload db
  serve (delete_wall_request id) db = delete_wall env user now id db
  serve (create_source_request payload) db = create_source env user now payload db
  serve (update_source_request id payload) db = update_source env user now id payload db
  serve (delete_source_request id) db = delete_source env user now id db
  serve (create_layout_request payload) db = create_layout env user now payload db
  serve (update_layout_request id payload) db = update_layout env user now id payload db
  serve (delete_layout_request id) db = delete_layout env user now id db
  serve (activate_request id) db = activate env user now id db

  -- The handlers, each behind the roles of its declaration
  unfoldable pub handle : Request → Db → Db × Response
  unfolding guard
  handle (create_wall_request payload) db =
      guard ("admin" ∷ []) user (create_wall env user now payload) db
  handle (update_wall_request id payload) db =
      guard ("operator" ∷ "admin" ∷ []) user (update_wall env user now id payload) db
  handle (delete_wall_request id) db = guard ("admin" ∷ []) user (delete_wall env user now id) db
  handle (create_source_request payload) db =
      guard ("operator" ∷ "admin" ∷ []) user (create_source env user now payload) db
  handle (update_source_request id payload) db =
      guard ("operator" ∷ "admin" ∷ []) user (update_source env user now id payload) db
  handle (delete_source_request id) db =
      guard ("admin" ∷ []) user (delete_source env user now id) db
  handle (create_layout_request payload) db =
      guard ("operator" ∷ "admin" ∷ []) user (create_layout env user now payload) db
  handle (update_layout_request id payload) db =
      guard ("operator" ∷ "admin" ∷ []) user (update_layout env user now id payload) db
  handle (delete_layout_request id) db =
      guard ("admin" ∷ []) user (delete_layout env user now id) db
  handle (activate_request id) db =
      guard ("operator" ∷ "admin" ∷ []) user (activate env user now id) db

-- What the database becomes: requests of any users, at any instants.
pub data Reach (env : Env) (db : Db) : Db → Type 0 where
  start : Reach env db db
  next :
      {db' : Db}
      → Reach env db db'
      → (user : User) (now : ℕ) (req : Request) → Reach env db (handle env user now req db').0
