-- ===== src/Mgmt/Imported.antt =====
-- Which bundles are staged, and what the policy proxy says of a stream token.
use airgap_videowall.Mgmt.Elements.{some-injective}
use airgap_videowall.Mgmt.Verified.{permits-role}
use airgap_videowall.Mgmt.Granted.{conclude_iff}
use airgap_videowall.Policy.Engine.{EvalResponse}
use airgap_videowall.Values.{Value, Fields, has_field, int_of, get_field}
use airgap_videowall.Prelude.Text.{lower, strip}
use airgap_videowall.Mgmt.Tokens.{
  TokenTools, Subject, TokenSubscribeRequest, tokens_subscribe, ask, conclude, policy_request,
  IsGranted, operator_tags,
}
use airgap_videowall.Mgmt.Requests.{permits}
use airgap_videowall.Mgmt.Data.{Env, Db}
use airgap_videowall.Mgmt.Proxies.{
  ImportAnswer, check_hmac, check_digest, bundles_import, ImportTools, BundleImportRequest, staged,
  is_ascii, stage_import, PolicyAnswer, policy_evaluate, evaluated, evaluate_tagged,
  evaluate_payload, evaluated_by, check_given,
}
use airgap_videowall.Prelude.{
  ℕ, String, ◌≡◌, refl, ◌↔◌, inl, inr, true, false, none, some, List, [], ◌∷◌, arith, Bool-cases,
  ◌==◌, eq_of_beq, In, eq_iff, string_eq, Option, sym, ap, subst, ◌∙◌, here, there, elem_iff,
}

-- The request carries the HMAC of its payload under the configured secret, in either case of letters.
pub record IsSigned (tools : ImportTools) (req : BundleImportRequest) : Type 0 where
  pub given : String
  pub is_given : req.hmac_hex ≡ some given
  pub not_empty : (given == "") ≡ false
  pub ascii : is_ascii (lower given) ≡ true
  pub is_mac :
      tools.hmac_sha256_hex (strip tools.bundle_hmac_secret) (tools.json req.payload) ≡ lower given

abbrev pub IsStaged : ImportAnswer → Type 0
IsStaged a = (ring : String) × (a ≡ staged ring)

check_digest_iff :
    (expected given : String)
    → (check_digest expected given ≡ none) ↔ ((is_ascii given ≡ true) × (expected ≡ given))
unfolding check_digest
check_digest_iff expected given = elim (Bool-cases (is_ascii given)) [
  | inr e ↦ rw e (λ h. absurd (cc), λ p. absurd (cc))
  | inl e ↦ elim (Bool-cases (expected == given)) [
    | inl f ↦ rw (e, f) (λ h. (refl, eq_of_beq expected given f), λ p. refl)
    | inr f ↦ rw (e, f) (λ h. absurd (cc), λ p. absurd (ground (arith, eq_iff expected given)))
  ]
]

check_given_iff :
    (tools : ImportTools) (payload : Fields) (o : Option String)
    → (check_given tools payload o ≡ none) ↔ (
        (given : String) × (o ≡ some given)
        × ((given == "") ≡ false)
        × (is_ascii (lower given) ≡ true)
        × (tools.hmac_sha256_hex (strip tools.bundle_hmac_secret) (tools.json payload)
            ≡ lower given))
unfolding check_given
check_given_iff tools payload none = (λ h. absurd (cc), λ (g, e, full, ascii, mac). absurd (cc))
check_given_iff tools payload (some given) =
    let iff =
      check_digest_iff (tools.hmac_sha256_hex (strip tools.bundle_hmac_secret) (tools.json payload))
        (lower given) in
    elim (Bool-cases (given == "")) [
      | inl e ↦ rw e (
        λ h. absurd (cc),
        λ (g, is, full, ascii, mac).
            let no = subst (λ u. (u == "") ≡ false) (sym (some-injective is)) full in absurd (cc),
      )
      | inr e ↦ (
        λ h. let p = iff.0 (rw e at h) in (given, refl, e, p.0, p.1),
        λ (g, is, full, ascii, mac).
            let same = sym (some-injective is) in
            rw e (iff.1 (subst (λ u. is_ascii (lower u) ≡ true) same ascii, mac ∙ ap lower same)),
      )
    ]

check_hmac_iff :
    (tools : ImportTools) (req : BundleImportRequest)
    → (strip tools.bundle_hmac_secret == "") ≡ false
    → (check_hmac tools req ≡ none) ↔ IsSigned tools req
unfolding check_hmac
check_hmac_iff tools req configured =
    let (f, g) = check_given_iff tools req.payload req.hmac_hex in
    (
      λ h.
          let (given, is, full, ascii, mac) = f (rw configured at h) in
          record { given = given; is_given = is; not_empty = full; ascii = ascii; is_mac = mac },
      λ s. rw configured (g (s.given, s.is_given, s.not_empty, s.ascii, s.is_mac)),
    )

check_digest-unstaged :
    (expected given : String) (a : ImportAnswer)
    → check_digest expected given ≡ some a
    → ¬ IsStaged a
unfolding check_digest
check_digest-unstaged expected given a h (ring, is) = elim (Bool-cases (is_ascii given)) [
  | inr e ↦ let no = (rw e at h) in absurd (cc)
  | inl e ↦ elim (Bool-cases (expected == given)) [
    | inl f ↦ let no = (rw (e, f) at h) in absurd (cc)
    | inr f ↦ let no = (rw (e, f) at h) in absurd (cc)
  ]
]

check_given-unstaged :
    (tools : ImportTools) (payload : Fields) (o : Option String) (a : ImportAnswer)
    → check_given tools payload o ≡ some a
    → ¬ IsStaged a
unfolding check_given
check_given-unstaged tools payload none a h (ring, is) = absurd (cc)
check_given-unstaged tools payload (some given) a h is = elim (Bool-cases (given == "")) [
  | inl e ↦ let (ring, was) = is in let no = (rw e at h) in absurd (cc)
  | inr e ↦ check_digest-unstaged _ (lower given) a (rw e at h) is
]

stage_import_iff :
    (env : Env) (repr : Value → String) (tools : ImportTools) (now : ℕ) (user : Subject)
    (req : BundleImportRequest) (db : Db) (o : Option ImportAnswer)
    → ((a : ImportAnswer) → o ≡ some a → ¬ IsStaged a)
    → let r = stage_import env repr tools now user req o db in
      (IsStaged r.1 ↔ (o ≡ none)) × (¬ IsStaged r.1 → r.0 ≡ db)
unfolding stage_import
stage_import_iff env repr tools now user req db none u =
    ((λ st. refl, λ h. (req.ring, refl)), λ n. absurd (n (req.ring, refl)))
stage_import_iff env repr tools now user req db (some a) u =
    ((λ st. absurd (u a refl st), λ h. absurd (cc)), λ n. refl)

permits_admin_iff : (roles : List String) → (permits ("admin" ∷ []) roles ≡ true) ↔ In "admin" roles
unfolding permits
permits_admin_iff roles = (
  λ h.
      let (r, which, m) = permits-role ("admin" ∷ []) roles h in
      subst (λ t. In t roles)
        (elim which [ inl e ↦ e | inr n ↦ elim n [ here e ↦ e | there k ↦ absurd (elim k [ ]) ] ])
        m,
  λ m. rw ((elem_iff "admin" roles).1 m) refl,
)

-- With a secret configured, a bundle is staged exactly if the user is an administrator and the request
-- carries the HMAC of its payload; a request that is not staged leaves the database as it was.
pub bundles_import_iff :
    (env : Env) (repr : Value → String) (tools : ImportTools) (now : ℕ) (user : Subject)
    (req : BundleImportRequest) (db : Db)
    → (strip tools.bundle_hmac_secret == "") ≡ false
    → let r = bundles_import env repr tools now user req db in
      (IsStaged r.1 ↔ (In "admin" user.roles × IsSigned tools req)) × (¬ IsStaged r.1 → r.0 ≡ db)
unfolding bundles_import check_hmac
bundles_import_iff env repr tools now user req db configured =
    let (f, g) = permits_admin_iff user.roles in
    let (f', g') = check_hmac_iff tools req configured in
    let unstaged : (a : ImportAnswer) → check_hmac tools req ≡ some a → ¬ IsStaged a =
      λ a h. check_given-unstaged tools req.payload req.hmac_hex a (rw configured at h) in
    let ((p, q), same) =
      stage_import_iff env repr tools now user req db (check_hmac tools req) unstaged in
    elim (Bool-cases (permits ("admin" ∷ []) user.roles)) [
      | inl e ↦ rw e ((λ st. (f e, f' (p st)), λ (m, sg). q (g' sg)), same)
      | inr e ↦
          rw e ((λ (ring, h). absurd (cc), λ (m, sg). let yes = g m in absurd (cc)), λ n. refl)
    ]

evaluated-injective : {q r : EvalResponse} → evaluated q ≡ evaluated r → q ≡ r
evaluated-injective {q} h = ap (λ a. elim a [ evaluated u ↦ u | _ ↦ q ]) h

abbrev pub Allows : PolicyAnswer → Type 0
Allows a = (r : EvalResponse) × (a ≡ evaluated r) × (r.allowed ≡ true)

module _ (env : Env) (tools : TokenTools) (now : ℕ) (user : Subject) (req : TokenSubscribeRequest)
    (payload : Fields) (db : Db) where
  concluded_iff :
      (o : Option EvalResponse)
      → IsGranted (conclude env tools now user req o db).1
        ↔ Allows (evaluated_by env tools now user req.wall_id req.source_id o db).1
  unfolding conclude evaluated_by
  concluded_iff none = (λ (t, g). absurd (cc), λ (r, e, a). absurd (cc))
  concluded_iff (some r) =
      let iff = conclude_iff env tools now user req r db in
      (
        λ g. (r, refl, iff.0 g),
        λ (q, is, a).
            iff.1 (subst (λ (u : EvalResponse). u.allowed ≡ true) (sym (evaluated-injective is)) a),
      )

  tagged_iff :
      (tags : Option (List String))
      → has_field payload "wall_id" ≡ true
      → has_field payload "source_id" ≡ true
      → int_of (get_field payload "wall_id") ≡ some req.wall_id
      → int_of (get_field payload "source_id") ≡ some req.source_id
      → IsGranted (ask env tools now user req tags db).1
        ↔ Allows (evaluate_tagged env tools now user payload tags db).1
  unfolding ask evaluate_tagged evaluate_payload policy_request
  tagged_iff none hw hs w s = (λ (t, g). absurd (cc), λ (r, e, a). absurd (cc))
  tagged_iff (some tags) hw hs w s =
      rw (hw, w, hs, s) (concluded_iff (tools.policy (policy_request tools.repr user req tags)))

  -- A user gets a stream token for a wall and a source exactly if the policy proxy, asked by the same
  -- user for the same wall and source, answers that it is allowed.
  pub tokens_subscribe-policy_evaluate :
      has_field payload "wall_id" ≡ true
      → has_field payload "source_id" ≡ true
      → int_of (get_field payload "wall_id") ≡ some req.wall_id
      → int_of (get_field payload "source_id") ≡ some req.source_id
      → IsGranted (tokens_subscribe env tools now user req db).1
        ↔ Allows (policy_evaluate env tools now user payload db).1
  unfolding tokens_subscribe policy_evaluate ask evaluate_tagged evaluate_payload evaluated_by
      conclude policy_request
  tokens_subscribe-policy_evaluate hw hs w s =
      elim (Bool-cases (permits ("viewer" ∷ "operator" ∷ "admin" ∷ []) user.roles)) [
        | inl e ↦ rw e (tagged_iff (operator_tags tools.repr user) hw hs w s)
        | inr e ↦ rw e (λ (t, g). absurd (cc), λ (r, is, a). absurd (cc))
      ]
