-- ===== src/Mgmt/Guards.antt =====
-- Which requests the guards of the handlers let through.
use airgap_videowall.Prelude.{
  ℕ, String, ◌≡◌, refl, ◌↔◌, ◌⊎◌, inl, inr, Bool, true, false, List, [], ◌∷◌, arith, if◌then◌else◌,
  Bool-cases, string_eq, elem, In, elem_iff, intersects_iff, here, there,
}
use airgap_videowall.Mgmt.Data.{User, Env, Db, failed, forbidden, Response}
use airgap_videowall.Mgmt.Requests.{
  Request, permits, guard, handle, serve, create_wall_request, update_wall_request,
  delete_wall_request, create_source_request, update_source_request, delete_source_request,
  create_layout_request, update_layout_request, delete_layout_request, activate_request,
}

-- Creating a wall, and deleting anything, is reserved to administrators.
abbrev pub is_reserved : Request → Bool
is_reserved (create_wall_request _) = true
is_reserved (delete_wall_request _) = true
is_reserved (delete_source_request _) = true
is_reserved (delete_layout_request _) = true
is_reserved _ = false

-- The user is an administrator, or an operator with a request that is not reserved.
abbrev pub IsAllowed : Request → User → Type 0
IsAllowed req user = In "admin" user.roles ⊎ ((is_reserved req ≡ false) × In "operator" user.roles)

permits_iff :
    (required roles : List String)
    → (permits required roles ≡ true)
      ↔ (In "admin" roles ⊎ ((r : String) × In r required × In r roles))
unfolding permits
permits_iff required roles = (
  λ h. elim (Bool-cases (elem "admin" roles)) [
    | inl e ↦ inl ((elem_iff "admin" roles).0 e)
    | inr e ↦ inr ((intersects_iff required roles).0 (rw e at h))
  ],
  λ p. elim p [
    | inl m ↦ rw ((elem_iff "admin" roles).1 m) refl
    | inr k ↦ ground (arith, (intersects_iff required roles).1 k)
  ],
)

module _ (user : User) (req : Request) where
  admin_iff :
      is_reserved req ≡ true → (permits ("admin" ∷ []) user.roles ≡ true) ↔ IsAllowed req user
  admin_iff reserved =
      let (f, g) = permits_iff ("admin" ∷ []) user.roles in
      (
        λ h. elim (f h) [
          | inl m ↦ inl m
          | inr (r, here e, m) ↦ inl (rw e at m)
          | inr (r, there n, m) ↦ absurd (elim n [ ])
        ],
        λ p. elim p [ inl m ↦ g (inl m) | inr (e, m) ↦ absurd (cc (e, reserved)) ],
      )

  operator_iff :
      is_reserved req ≡ false
      → (permits ("operator" ∷ "admin" ∷ []) user.roles ≡ true) ↔ IsAllowed req user
  operator_iff free =
      let (f, g) = permits_iff ("operator" ∷ "admin" ∷ []) user.roles in
      (
        λ h. elim (f h) [
          | inl m ↦ inl m
          | inr (r, here e, m) ↦ inr (free, rw e at m)
          | inr (r, there (here e), m) ↦ inl (rw e at m)
          | inr (r, there (there n), m) ↦ absurd (elim n [ ])
        ],
        λ p. elim p [ inl m ↦ g (inl m) | inr (e, m) ↦ g (inr ("operator", here refl, m)) ],
      )

-- What is known of an answer, with the one of the handler itself.
abbrev pub Guarded : Request → User → Db → Db × Response → Db × Response → Type 0
Guarded req user db inner outer =
    (IsAllowed req user × (outer ≡ inner))
    ⊎ ((¬ IsAllowed req user) × (outer ≡ (db, failed forbidden)))

guard_cases :
    (required : List String) (user : User) (req : Request) (inner : Db × Response) (db : Db)
    → ((permits required user.roles ≡ true) ↔ IsAllowed req user)
    → Guarded req user db inner
        (if permits required user.roles then inner else (db, failed forbidden))
guard_cases required user req inner db (f, g) = elim (Bool-cases (permits required user.roles)) [
  | inl e ↦ inl (f e, rw e refl)
  | inr e ↦ inr (λ p. cc (e, g p), rw e refl)
]

module _ (env : Env) (user : User) (now : ℕ) where
  reserved_cases :
      (req : Request) (db : Db)
      → is_reserved req ≡ true
      → let inner = serve env user now req db in
        Guarded req user db inner
          (if permits ("admin" ∷ []) user.roles then inner else (db, failed forbidden))
  reserved_cases req db e =
      guard_cases ("admin" ∷ []) user req (serve env user now req db) db (admin_iff user req e)

  free_cases :
      (req : Request) (db : Db)
      → is_reserved req ≡ false
      → let inner = serve env user now req db in
        Guarded req user db inner
          (if permits ("operator" ∷ "admin" ∷ []) user.roles then inner else (db, failed forbidden))
  free_cases req db e =
      guard_cases ("operator" ∷ "admin" ∷ []) user req (serve env user now req db) db
        (operator_iff user req e)

  pub handle_cases :
      (req : Request) (db : Db)
      → Guarded req user db (serve env user now req db) (handle env user now req db)
  unfolding handle serve guard
  handle_cases (create_wall_request payload) db =
      reserved_cases (create_wall_request payload) db refl
  handle_cases (update_wall_request id payload) db =
      free_cases (update_wall_request id payload) db refl
  handle_cases (delete_wall_request id) db = reserved_cases (delete_wall_request id) db refl
  handle_cases (create_source_request payload) db =
      free_cases (create_source_request payload) db refl
  handle_cases (update_source_request id payload) db =
      free_cases (update_source_request id payload) db refl
  handle_cases (delete_source_request id) db = reserved_cases (delete_source_request id) db refl
  handle_cases (create_layout_request payload) db =
      free_cases (create_layout_request payload) db refl
  handle_cases (update_layout_request id payload) db =
      free_cases (update_layout_request id payload) db refl
  handle_cases (delete_layout_request id) db = reserved_cases (delete_layout_request id) db refl
  handle_cases (activate_request id) db = free_cases (activate_request id) db refl
