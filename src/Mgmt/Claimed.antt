-- ===== src/Mgmt/Claimed.antt =====
-- Which roles a request has, told apart from the code that reads them.
use airgap_videowall.Mgmt.Elements.{
  Listed, passed-injective, then_passed, texts_iff, or_empty_iff, or_crash-some, iff_trans,
}
use airgap_videowall.Reconcile.Sorting.{sorted_set, sorted_set-In, In-sorted_set}
use airgap_videowall.Policy.Service.{iterate}
use airgap_videowall.Values.{
  Fields, Value, str, get_field, obj, bool, num, list, other, null, truthy, or_else, nil, has_field,
  field, end,
}
use airgap_videowall.Mgmt.Users.{
  roles_of, extract_roles, client_roles, listed_roles, passed, ◌>>=◌, or_crash, fields_of,
}
use airgap_videowall.Prelude.{
  String, ◌≡◌, refl, ap, ◌↔◌, List, In, [], ◌≢◌, false, Bool-cases, inl, subst, sym, ◌==◌, ◌++◌,
  ◌∙◌, In-append_cases, inr, string_eq, In-append_left, In-append_right, if◌then◌else◌, Bool, true,
}

-- `v` is a mapping whose `roles` have `r`.
abbrev pub HasRole : Value → String → Type 0
HasRole v r = (fs : Fields) × (v ≡ obj fs) × Listed (get_field fs "roles") r

-- The claims have the role for the realm, or for the client.
pub data IsClaimed (client : String) (claims : Fields) (r : String) : Type 0 where
  of_realm : HasRole (get_field claims "realm_access") r → IsClaimed client claims r
  of_client :
      (fs : Fields)
      → get_field claims "resource_access" ≡ obj fs
      → HasRole (get_field fs client) r
      → IsClaimed client claims r

listed_roles_iff :
    (fs : Fields) (rs : List String) (r : String)
    → listed_roles fs ≡ passed rs
    → In r rs ↔ Listed (get_field fs "roles") r
unfolding listed_roles
listed_roles_iff fs rs r h =
    let (vs, e, f) =
      then_passed (or_crash (iterate (or_else (get_field fs "roles") (list nil)))) _ h in
    let iff = or_empty_iff (get_field fs "roles") vs r (or_crash-some _ e) in
    subst (λ ts. In r ts ↔ Listed (get_field fs "roles") r) (passed-injective f)
      (iff_trans (texts_iff r vs) iff)

fields_of-obj : (v : Value) (fs : Fields) → fields_of v ≡ passed fs → v ≡ obj fs
fields_of-obj (obj gs) fs h = ap obj (passed-injective h)
fields_of-obj null fs h = absurd (cc)
fields_of-obj (bool b) fs h = absurd (cc)
fields_of-obj (num n) fs h = absurd (cc)
fields_of-obj (str s) fs h = absurd (cc)
fields_of-obj (list is) fs h = absurd (cc)
fields_of-obj (other s b n) fs h = absurd (cc)

obj-injective : {fs gs : Fields} → obj fs ≡ obj gs → fs ≡ gs
obj-injective {fs} h = ap (λ v. elim v [ obj es ↦ es | _ ↦ fs ]) h

no_roles : {r : String} (fs : Fields) → truthy (obj fs) ≡ false → ¬ Listed (get_field fs "roles") r
unfolding truthy get_field iterate
no_roles end f (vs, e, m) = absurd (cc)
no_roles (field k v fs) f l = absurd (cc)

roles_of_iff :
    (v : Value) (rs : List String) (r : String) → roles_of v ≡ passed rs → In r rs ↔ HasRole v r
unfolding roles_of truthy
roles_of_iff v rs r h =
    let chosen : Bool → Type 0 =
      λ b. (fields_of (if b then v else obj end) >>= listed_roles) ≡ passed rs in
    elim (Bool-cases (truthy v)) [
      | inl t ↦
          let (fs, e, l) = then_passed (fields_of v) listed_roles (subst chosen t h) in
          let is = fields_of-obj v fs e in
          let iff = listed_roles_iff fs rs r l in
          (
            λ m. (fs, is, iff.0 m),
            λ (gs, e', m).
                iff.1
                  (subst (λ es. Listed (get_field es "roles") r) (obj-injective (sym e' ∙ is)) m),
          )
      | inr f ↦
          let iff = listed_roles_iff end rs r (subst chosen f h) in
          (
            λ m. absurd (no_roles end refl (iff.0 m)),
            λ (gs, e, m). absurd (no_roles gs (subst (λ u. truthy u ≡ false) e f) m),
          )
    ]

missing_field : (fs : Fields) (k : String) → has_field fs k ≡ false → get_field fs k ≡ null
unfolding has_field get_field
missing_field end k h = refl
missing_field (field j v fs) k h = elim (Bool-cases (j == k)) [
  | inl e ↦ let no = subst (λ b. (if b then true else has_field fs k) ≡ false) e h in absurd (cc)
  | inr e ↦
      rw e (missing_field fs k (subst (λ b. (if b then true else has_field fs k) ≡ false) e h))
]

no_role :
    {r : String} (fs : Fields) (client : String)
    → has_field fs client ≡ false
    → ¬ HasRole (get_field fs client) r
no_role fs client f (gs, e, m) = absurd (cc (missing_field fs client f))

no_mapping :
    (client : String) {r : String} {v : Value} {rs : List String}
    → [] ≡ rs
    → ((fs : Fields) → v ≢ obj fs)
    → In r rs ↔ ((fs : Fields) × (v ≡ obj fs) × HasRole (get_field fs client) r)
no_mapping client {r} empty none_is =
    (λ m. absurd (elim (subst (In r) (sym empty) m) [ ]), λ (fs, e, has). absurd (none_is fs e))

client_roles_iff :
    (client : String) (v : Value) (rs : List String) (r : String)
    → client_roles client v ≡ passed rs
    → In r rs ↔ ((fs : Fields) × (v ≡ obj fs) × HasRole (get_field fs client) r)
unfolding client_roles
client_roles_iff client (obj fs) rs r h =
    let found : Bool → Type 0 =
      λ b. (if b then roles_of (get_field fs client) else passed []) ≡ passed rs in
    elim (Bool-cases (has_field fs client)) [
      | inl t ↦
          let iff = roles_of_iff (get_field fs client) rs r (subst found t h) in
          (
            λ m. (fs, refl, iff.0 m),
            λ (gs, e, has).
                iff.1 (subst (λ es. HasRole (get_field es client) r) (obj-injective (sym e)) has),
          )
      | inr f ↦
          let empty : [] ≡ rs = passed-injective (subst found f h) in
          (
            λ m. absurd (elim (subst (In r) (sym empty) m) [ ]),
            λ (gs, e, has). absurd (
                no_role fs client f
                  (subst (λ es. HasRole (get_field es client) r) (obj-injective (sym e)) has)),
          )
    ]
client_roles_iff client null rs r h = no_mapping client (passed-injective h) (λ fs e. absurd (cc))
client_roles_iff client (bool b) rs r h =
    no_mapping client (passed-injective h) (λ fs e. absurd (cc))
client_roles_iff client (num n) rs r h =
    no_mapping client (passed-injective h) (λ fs e. absurd (cc))
client_roles_iff client (str s) rs r h =
    no_mapping client (passed-injective h) (λ fs e. absurd (cc))
client_roles_iff client (list is) rs r h =
    no_mapping client (passed-injective h) (λ fs e. absurd (cc))
client_roles_iff client (other s b n) rs r h =
    no_mapping client (passed-injective h) (λ fs e. absurd (cc))

pub extract_roles_iff :
    (client : String) (claims : Fields) (rs : List String) (r : String)
    → extract_roles client claims ≡ passed rs
    → In r rs ↔ IsClaimed client claims r
unfolding extract_roles
extract_roles_iff client claims rs r h =
    let (realm, e, h1) = then_passed (roles_of (get_field claims "realm_access")) _ h in
    let (own, f, h2) =
      then_passed (client_roles client (get_field claims "resource_access")) _ h1 in
    let of = roles_of_iff _ realm r e in
    let oc = client_roles_iff client _ own r f in
    let same : sorted_set (realm ++ own) ≡ rs = passed-injective h2 in
    (
      λ m. elim (In-append_cases r realm own (sorted_set-In r _ (subst (In r) (sym same) m))) [
        | inl n ↦ of_realm (of.0 n)
        | inr n ↦ let (fs, is, has) = oc.0 n in of_client fs is has
      ],
      λ c. subst (In r) same (
          In-sorted_set r _ (elim c [
            | of_realm has ↦ In-append_left r realm own (of.1 has)
            | of_client fs is has ↦ In-append_right r realm own (oc.1 (fs, is, has))
          ])),
    )
