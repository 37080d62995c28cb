-- ===== src/Mgmt/Verified.antt =====
-- services/mgmt-api/app/main.py: what is known of a request that `require_role` lets through.
use airgap_videowall.Mgmt.Elements.{passed-injective, then_passed}
use airgap_videowall.Mgmt.Claimed.{IsClaimed, extract_roles_iff}
use airgap_videowall.Mgmt.Tokens.{Subject}
use airgap_videowall.Prelude.Text.{lower, split}
use airgap_videowall.Mgmt.Requests.{permits}
use airgap_videowall.Mgmt.Users.{
  OidcSettings, bearer_of, passed, refused, JwtTools, get_current_user, parse_bearer, require_role,
  jwt_invalid, invalid_authorization, decode_and_verify, public_key_for_token, extract_roles,
}
use airgap_videowall.Values.{Fields}
use airgap_videowall.Prelude.{
  String, ◌≡◌, refl, ap, subst, ◌↔◌, ◌⊎◌, inl, inr, Bool, true, Option, none, some, List, [], ◌∷◌,
  if◌then◌else◌, Bool-cases, ◌==◌, eq_of_beq, elem, In, elem_iff, intersects_iff, string_eq,
}

bearer_of-passed :
    (ws : List String) (token : String)
    → bearer_of ws ≡ passed token
    → (scheme : String) × (ws ≡ scheme ∷ token ∷ []) × (lower scheme ≡ "bearer")
unfolding bearer_of
bearer_of-passed [] token h = absurd (cc)
bearer_of-passed (a ∷ []) token h = absurd (cc)
bearer_of-passed (a ∷ b ∷ c ∷ ws) token h = absurd (cc)
bearer_of-passed (a ∷ b ∷ []) token h =
    let asked : Bool → Type 0 =
      λ t. (if t then passed b else refused invalid_authorization) ≡ passed token in
    elim (Bool-cases (lower a == "bearer")) [
      | inl t ↦ (
        a,
        ap (λ u. a ∷ u ∷ []) (passed-injective (subst asked t h)),
        eq_of_beq (lower a) "bearer" t,
      )
      | inr f ↦ let no = subst asked f h in absurd (cc)
    ]

-- The header has a bearer token whose claims are the user's, verified under the key that the settings
-- give for it, and the user's roles are those of the claims.
pub record IsVerified (settings : OidcSettings) (tools : JwtTools) (header : Option String)
    (user : Subject) : Type 0 where
  pub text : String
  pub scheme : String
  pub token : String
  pub key : String
  pub is_header : header ≡ some text
  pub is_bearer : (split text ≡ scheme ∷ token ∷ []) × (lower scheme ≡ "bearer")
  pub is_key : public_key_for_token settings tools token ≡ passed key
  pub decodes : tools.decode token key ≡ some user.claims
  pub roles : (r : String) → In r user.roles ↔ IsClaimed settings.client_id user.claims r

decoded :
    (o : Option Fields) (claims : Fields)
    → elim o [ none ↦ refused jwt_invalid | some c ↦ passed c ] ≡ passed claims
    → o ≡ some claims
decoded none claims h = absurd (cc)
decoded (some c) claims h = ap some (passed-injective h)

pub permits-role :
    (required roles : List String)
    → permits required roles ≡ true
    → (r : String) × ((r ≡ "admin") ⊎ In r required) × In r roles
unfolding permits
permits-role required roles h = elim (Bool-cases (elem "admin" roles)) [
  | inl e ↦ ("admin", inl refl, (elem_iff "admin" roles).0 e)
  | inr e ↦ let (r, m, n) = (intersects_iff required roles).0 (rw e at h) in (r, inr m, n)
]

module _ (settings : OidcSettings) (tools : JwtTools) where
  parse_bearer-passed :
      (header : Option String) (token : String)
      → parse_bearer header ≡ passed token
      → (text : String) × (header ≡ some text) × (bearer_of (split text) ≡ passed token)
  unfolding parse_bearer
  parse_bearer-passed none token h = absurd (cc)
  parse_bearer-passed (some text) token h = elim (Bool-cases (text == "")) [
    | inl t ↦ let no = (rw t at h) in absurd (cc)
    | inr f ↦ (text, refl, (rw f at h))
  ]

  get_current_user-IsVerified :
      (header : Option String) (user : Subject)
      → get_current_user settings tools header ≡ passed user
      → IsVerified settings tools header user
  unfolding get_current_user decode_and_verify
  get_current_user-IsVerified header user h =
      let (token, e, h1) = then_passed (parse_bearer header) _ h in
      let (text, is, bearer) = parse_bearer-passed header token e in
      let (scheme, parts, low) = bearer_of-passed (split text) token bearer in
      let (claims, d, h2) = then_passed (decode_and_verify settings tools token) _ h1 in
      let (key, k, d1) = then_passed (public_key_for_token settings tools token) _ d in
      let (roles, listed, done) = then_passed (extract_roles settings.client_id claims) _ h2 in
      subst (IsVerified settings tools header) (passed-injective done) (record {
        text = text;
        scheme = scheme;
        token = token;
        key = key;
        is_header = is;
        is_bearer = (parts, low);
        is_key = k;
        decodes = decoded (tools.decode token key) claims d1;
        roles = λ r. extract_roles_iff settings.client_id claims roles r listed;
      })

  -- If a handler that requires one of some roles runs, the request has a bearer token that is verified
  -- under the key of the settings, the user has the roles of its claims and no others, and the claims
  -- have the role `admin` or one of those required.
  pub require_role-IsVerified :
      (required : List String) (header : Option String) (user : Subject)
      → require_role settings tools required header ≡ passed user
      → IsVerified settings tools header user
        × ((r : String) × ((r ≡ "admin") ⊎ In r required)
            × IsClaimed settings.client_id user.claims r)
  unfolding require_role
  require_role-IsVerified required header user h =
      let (found, e, p) = then_passed (get_current_user settings tools header) _ h in
      let v = get_current_user-IsVerified header found e in
      elim (Bool-cases (permits required found.roles)) [
        | inl t ↦
            let (r, which, m) = permits-role required found.roles t in
            let same = passed-injective (rw t at p) in
            subst
              (λ u.
                IsVerified settings tools header u
                × ((r : String) × ((r ≡ "admin") ⊎ In r required)
                    × IsClaimed settings.client_id u.claims r))
              same (v, (r, which, (v.roles r).0 m))
        | inr f ↦ let no = (rw f at p) in absurd (cc)
      ]
