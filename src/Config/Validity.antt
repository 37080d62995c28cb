-- ===== src/Config/Validity.antt =====
-- What a configuration that `load_config` returns is certain to satisfy, and the look-ups by id.

use airgap_videowall.Prelude.{
  ◌≤◌, String, ◌≡◌, refl, ◌∙◌, Option, none, some, List, [], ◌∷◌, map, arith, ◌==◌, find, In,
  string_eq, ap, ℕ, subst, sym, here, beq_self, there, Bool-cases, inl, eq_of_beq, In-map, inr,
}
use airgap_videowall.Config.Data.{
  PlatformSettings, WallConfig, SourceConfig, RawWall, RawSource, or_default, Fault, Result, ok,
  raise, ◌>>=◌, RawConfig, schema_fault,
}
use airgap_videowall.Config.Semantic.{
  Distinct, validate_semantic_iff, validate_semantic, raw_walls, raw_sources,
}
use airgap_videowall.Config.Derived.{DerivedMetrics, sum_of, endpoints_of, compute_totals, compute}
use airgap_videowall.Config.Loader.{
  malformed, scalar, mapping, required, parse_wall, parse_source, traverse, PlatformConfig,
  raise_if, guardrail, Tools, mapping, load_config, assemble, Parsed, from_parsed, parse_policy,
  parse_platform,
}

-- `wall_ids` and `source_ids`
unfoldable pub wall_ids : PlatformConfig → List String
wall_ids cfg = map (λ (w : WallConfig). w.id) cfg.walls

unfoldable pub source_ids : PlatformConfig → List String
source_ids cfg = map (λ (s : SourceConfig). s.id) cfg.sources

-- `get_wall` and `get_source`
unfoldable pub get_wall : PlatformConfig → String → Option WallConfig
get_wall cfg id = find (λ (w : WallConfig). w.id == id) cfg.walls

unfoldable pub get_source : PlatformConfig → String → Option SourceConfig
get_source cfg id = find (λ (s : SourceConfig). s.id == id) cfg.sources

pub record IsValid (cfg : PlatformConfig) : Type 0 where
  pub distinct_walls : Distinct (wall_ids cfg)
  pub distinct_sources : Distinct (source_ids cfg)
  pub disjoint : (x : String) → In x (wall_ids cfg) → ¬ In x (source_ids cfg)
  pub within_limit : sum_of endpoints_of cfg.walls ≤ cfg.platform.max_concurrent_streams
  pub endpoints : cfg.derived.worst_case_concurrency ≡ sum_of endpoints_of cfg.walls

>>=-ok :
    {A B : Type 0} (action : Result A) (next : A → Result B) {out : B}
    → (action >>= next) ≡ ok out
    → (value : A) × (action ≡ ok value) × (next value ≡ ok out)
>>=-ok (raise failure) next eq = absurd (cc)
>>=-ok (ok value) next eq = (value, refl, eq)

pub ok-injective : {A : Type 0} {a b : A} → ok a ≡ ok b → a ≡ b
ok-injective h = cc

required-or_default : (o : Option String) (s : String) → required o ≡ ok s → or_default o "" ≡ s
unfolding required
required-or_default none s h = absurd (cc)
required-or_default (some t) s h = cc

parse_wall-id :
    (raw : RawWall) (w : WallConfig) → parse_wall raw ≡ ok w → or_default raw.id "" ≡ w.id
unfolding parse_wall
parse_wall-id raw w h =
    let (id, r, e) = >>=-ok (required raw.id) _ h in
    required-or_default raw.id id r ∙ ap (λ (v : WallConfig). v.id) (ok-injective e)

parse_source-id :
    (raw : RawSource) (s : SourceConfig) → parse_source raw ≡ ok s → or_default raw.id "" ≡ s.id
unfolding parse_source
parse_source-id raw s h =
    let (id, r, e) = >>=-ok (required raw.id) _ h in
    required-or_default raw.id id r ∙ ap (λ (v : SourceConfig). v.id) (ok-injective e)

-- If `f` keeps a key, so does the whole list.
traverse-keys :
    {A B : Type 0} (f : A → Result B) (key : A → String) (key' : B → String)
    → ((a : A) (b : B) → f a ≡ ok b → key a ≡ key' b)
    → (xs : List A) (ys : List B) → traverse f xs ≡ ok ys
    → map key xs ≡ map key' ys
unfolding traverse
traverse-keys f key key' same [] ys h = ap (map key') (ok-injective h)
traverse-keys f key key' same (x ∷ xs) ys h =
    let (y, e, h₁) = >>=-ok (f x) _ h in
    let (ys', e', h₂) = >>=-ok (traverse f xs) _ h₁ in
    let ih = traverse-keys f key key' same xs ys' e' in
    cc (same x y e, ih, ap (map key') (ok-injective h₂))

raise_if-ok : (es : List Fault) {u : Unit {0}} → raise_if es ≡ ok u → es ≡ []
unfolding raise_if
raise_if-ok [] h = refl
raise_if-ok (e ∷ es) h = absurd (cc)

guardrail-nil :
    (m : DerivedMetrics) (p : PlatformSettings)
    → guardrail m p ≡ []
    → m.worst_case_concurrency ≤ p.max_concurrent_streams
unfolding guardrail
guardrail-nil m p h = ground arith

-- The steps of `load_config` that raise, all passed.
pub record Loaded (tools : Tools) (text : String) (cfg : PlatformConfig) : Type 0 where
  pub document : RawConfig
  pub parsed : tools.safe_load text ≡ mapping document
  pub schema : map schema_fault (tools.schema_errors document) ≡ []
  pub semantic : validate_semantic document ≡ []
  pub walls : traverse parse_wall (raw_walls document) ≡ ok cfg.walls
  pub sources : traverse parse_source (raw_sources document) ≡ ok cfg.sources
  pub policy : parse_policy document.policy ≡ ok cfg.policy
  pub guarded : guardrail cfg.derived cfg.platform ≡ []
  pub platform : cfg.platform ≡ parse_platform document.platform
  pub derived :
      cfg.derived
      ≡ compute cfg.platform cfg.walls cfg.sources
          (tools.sha256_hex (tools.canonical_json document))
  pub raw_yaml : cfg.raw_yaml ≡ text

module _ (tools : Tools) (text path : String) (now : ℕ) where
  assemble-Loaded :
      (d : RawConfig) (cfg : PlatformConfig)
      → tools.safe_load text ≡ mapping d
      → assemble tools text path now d ≡ ok cfg
      → Loaded tools text cfg
  unfolding assemble
  assemble-Loaded d cfg p h =
      let (_, e₁, h₁) = >>=-ok (raise_if (map schema_fault (tools.schema_errors d))) _ h in
      let (_, e₂, h₂) = >>=-ok (raise_if (validate_semantic d)) _ h₁ in
      let (walls, e₃, h₃) = >>=-ok (traverse parse_wall (raw_walls d)) _ h₂ in
      let (sources, e₄, h₄) = >>=-ok (traverse parse_source (raw_sources d)) _ h₃ in
      let (policy, e₅, h₅) = >>=-ok (parse_policy d.policy) _ h₄ in
      let platform = parse_platform d.platform in
      let m = compute platform walls sources (tools.sha256_hex (tools.canonical_json d)) in
      let (_, e₆, h₆) = >>=-ok (raise_if (guardrail m platform)) _ h₅ in
      let r = ok-injective h₆ in
      subst (Loaded tools text) r (record {
        document = d;
        parsed = p;
        schema = raise_if-ok _ e₁;
        semantic = raise_if-ok _ e₂;
        walls = e₃;
        sources = e₄;
        policy = e₅;
        guarded = raise_if-ok _ e₆;
        platform = refl;
        derived = refl;
        raw_yaml = refl;
      })

  load_config-Loaded :
      (cfg : PlatformConfig) → load_config tools text path now ≡ ok cfg → Loaded tools text cfg
  unfolding load_config
  load_config-Loaded cfg h = parsed_cases (tools.safe_load text) refl h
    where
      parsed_cases :
          (p : Parsed)
          → tools.safe_load text ≡ p
          → from_parsed tools text path now p ≡ ok cfg
          → Loaded tools text cfg
      parsed_cases malformed e k = absurd (cc)
      parsed_cases scalar e k = absurd (cc)
      parsed_cases (mapping d) e k = assemble-Loaded d cfg e k

  -- A configuration that is returned has distinct wall ids, distinct source ids, no id in common,
  -- and no more endpoints than the platform's limit on streams.
  pub load_config-IsValid :
      (cfg : PlatformConfig) → load_config tools text path now ≡ ok cfg → IsValid cfg
  unfolding wall_ids source_ids
  load_config-IsValid cfg h =
      let l = load_config-Loaded cfg h in
      let c = (validate_semantic_iff l.document).0 l.semantic in
      let ws =
        traverse-keys parse_wall (λ (w : RawWall). or_default w.id "") (λ (w : WallConfig). w.id)
          parse_wall-id _ _ l.walls in
      let ss =
        traverse-keys parse_source (λ (s : RawSource). or_default s.id "")
          (λ (s : SourceConfig). s.id) parse_source-id _ _ l.sources in
      let total : cfg.derived.worst_case_concurrency ≡ sum_of endpoints_of cfg.walls =
        ap (λ (m : DerivedMetrics). m.worst_case_concurrency) l.derived
        ∙ (compute_totals cfg.platform cfg.walls cfg.sources _).0 in
      let limit = guardrail-nil cfg.derived cfg.platform l.guarded in
      record {
        distinct_walls = subst Distinct ws c.distinct_walls;
        distinct_sources = subst Distinct ss c.distinct_sources;
        disjoint = λ x m n. c.disjoint x (subst (In x) (sym ws) m) (subst (In x) (sym ss) n);
        within_limit = omega arith;
        endpoints = total;
      }

find_key :
    {A : Type 0} (key : A → String) (x : A) (xs : List A)
    → Distinct (map key xs)
    → In x xs
    → find (λ a. key a == key x) xs ≡ some x
find_key key x [] d m = elim m [ ]
find_key key x (y ∷ ys) (n, d) (here e) = rw (← e, beq_self (key x))
find_key key x (y ∷ ys) (n, d) (there m) = elim (Bool-cases (key y == key x)) [
  | inl e ↦
      absurd
        (n (subst (λ k. In k (map key ys)) (sym (eq_of_beq (key y) (key x) e)) (In-map key x ys m)))
  | inr e ↦ rw e (find_key key x ys d m)
]

-- In a valid configuration each wall and each source is found under its own id.
pub get-IsValid :
    (cfg : PlatformConfig)
    → IsValid cfg
    → ((w : WallConfig) → In w cfg.walls → get_wall cfg w.id ≡ some w)
      × ((s : SourceConfig) → In s cfg.sources → get_source cfg s.id ≡ some s)
unfolding get_wall get_source wall_ids source_ids
get-IsValid cfg v = (
  λ w m. find_key (λ (a : WallConfig). a.id) w cfg.walls v.distinct_walls m,
  λ s m. find_key (λ (a : SourceConfig). a.id) s cfg.sources v.distinct_sources m,
)
