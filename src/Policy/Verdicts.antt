-- ===== src/Policy/Verdicts.antt =====
-- What `PolicyEngine.evaluate` answers, on every document whose rules and defaults are mappings.
use airgap_videowall.Prelude.{
  String, ◌≡◌, ◌↔◌, inl, inr, true, false, none, List, [], ◌∷◌, Bool-cases, ◌==◌, eq_of_beq, any→In,
  In→any, string_eq, ◌⊎◌, subst, arith, ◌∙◌, sym, refl,
}
use airgap_videowall.Prelude.Text.{lower}
use airgap_videowall.Values.{Value, Fields, obj, end, str, or_else, get_field, str_of}
use airgap_videowall.Policy.Engine.{
  ok, Query, Match, get_rules, is_admin, decision, default_reason, evaluate, rule_effect,
  EvalResponse,
}
use airgap_videowall.Policy.Decides.{Decides, AreMappings, IsAdmin, Applies, IsFinal, first, later}
use airgap_videowall.Policy.Evaluation.{
  decisive, decisive→Final, Final→decisive, answer, Undecided, evaluate_rules-Decides,
  evaluate_rules-Undecided,
}

is_admin_iff : (q : Query) → (is_admin q.operator_roles ≡ true) ↔ IsAdmin q
unfolding is_admin
is_admin_iff q = (
  λ h.
      let (r, m, e) = any→In (λ r. lower r == "admin") q.operator_roles h in
      (r, m, eq_of_beq (lower r) "admin" e),
  λ (r, m, e). In→any (λ r. lower r == "admin") r q.operator_roles m (rw e),
)

pub not-admin : (q : Query) → ¬ IsAdmin q → is_admin q.operator_roles ≡ false
not-admin q h = elim (Bool-cases (is_admin q.operator_roles)) [
  | inl e ↦ absurd (h ((is_admin_iff q).0 e))
  | inr e ↦ e
]

-- The document's rules are mappings, and `defaults` is missing, empty or a mapping.
pub record IsWellFormed (policy : Fields) : Type 0 where
  pub rules : AreMappings (get_rules policy)
  pub defaults : Fields
  pub defaults_lem : or_else (get_field policy "defaults") (obj end) ≡ obj defaults

module _ (repr : Value → String) (policy : Fields) (q : Query) where
  -- A request with the role `admin`, in any case, is allowed by every document.
  pub evaluate-IsAdmin :
      IsAdmin q
      → evaluate repr policy q
        ≡ decision true "admin_bypass" (record { id = "admin-bypass"; effect = none } ∷ [])
  unfolding evaluate
  evaluate-IsAdmin a = rw ((is_admin_iff q).1 a)

  -- Under a well-formed document, and for a request without the role `admin`, the first rule that
  -- applies and allows or denies gives the answer.
  pub evaluate-Decides :
      (rule : Fields)
      → IsWellFormed policy
      → ¬ IsAdmin q
      → Decides repr policy q (get_rules policy) rule
      → (before : List Match) × (evaluate repr policy q ≡ ok (answer repr rule before))
  unfolding evaluate default_reason
  evaluate-Decides rule w n d =
      let reason =
        str_of repr (or_else (get_field w.defaults "deny_reason") (str "default_deny")) in
      let (before, e) = evaluate_rules-Decides repr policy q reason [] d in
      (before, rw (not-admin q n, w.defaults_lem) e)

  -- Under a well-formed document, a request without the role `admin` that no rule decides is denied
  -- for the document's default reason.
  pub evaluate-Undecided :
      (w : IsWellFormed policy)
      → ¬ IsAdmin q
      → Undecided repr policy q (get_rules policy)
      → (m : List Match) × (evaluate repr policy q
          ≡ decision false
              (str_of repr (or_else (get_field w.defaults "deny_reason") (str "default_deny")))
              m)
  unfolding evaluate default_reason
  evaluate-Undecided w n u =
      let reason =
        str_of repr (or_else (get_field w.defaults "deny_reason") (str "default_deny")) in
      let (m, e) = evaluate_rules-Undecided repr policy q reason [] (get_rules policy) w.rules u in
      (m, rw (not-admin q n, w.defaults_lem) e)

  Undecided-later :
      (fs : Fields) (rules : List Value)
      → ¬ (Applies repr policy q fs × IsFinal (rule_effect repr fs))
      → Undecided repr policy q rules
      → Undecided repr policy q (obj fs ∷ rules)
  Undecided-later fs rules n u rule (first _ _ a f) = n (a, f)
  Undecided-later fs rules n u rule (later _ _ _ _ d) = u rule d

  abbrev Decision : List Value → Type 0
  Decision rules =
      ((rule : Fields) × Decides repr policy q rules rule) ⊎ Undecided repr policy q rules

  decide_later :
      (fs : Fields) (rules : List Value)
      → ¬ (Applies repr policy q fs × IsFinal (rule_effect repr fs))
      → Decision rules
      → Decision (obj fs ∷ rules)
  decide_later fs rules n (inl (rule, d)) = inl (rule, later fs rule rules n d)
  decide_later fs rules n (inr u) = inr (Undecided-later fs rules n u)

  decide_first : (fs : Fields) (rules : List Value) → Decision rules → Decision (obj fs ∷ rules)
  decide_first fs rules rest = elim (Bool-cases (decisive repr policy q fs)) [
    | inl e ↦ let (a, f) = decisive→Final repr policy q fs e in inl (fs, first fs rules a f)
    | inr e ↦
        decide_later fs rules (λ (a, f). absurd (cc (e, Final→decisive repr policy q fs a f))) rest
  ]

  -- Some rule decides, or none does.
  decide : (rules : List Value) → AreMappings rules → Decision rules
  decide [] w = inr (λ rule d. elim d [ ])
  decide (v ∷ rules) ((fs, e), w) =
      subst (λ x. Decision (x ∷ rules)) (sym e) (decide_first fs rules (decide rules w))

  -- What admits a request: the role, or a first deciding rule that allows.
  pub data Admits : Type 0 where
    admin : IsAdmin q → Admits
    rule :
        (r : Fields)
        → Decides repr policy q (get_rules policy) r
        → rule_effect repr r ≡ "allow"
        → Admits

  allowed_decided :
      (r : Fields) (before : List Match)
      → IsWellFormed policy
      → ¬ IsAdmin q
      → evaluate repr policy q ≡ ok (answer repr r before)
      → Admits
      → (rule_effect repr r == "allow") ≡ true
  allowed_decided r before w n e (admin a) = absurd (n a)
  allowed_decided r before w n e (rule r' d a) =
      let (before', e') = evaluate-Decides r' w n d in
      let same : (rule_effect repr r == "allow") ≡ (rule_effect repr r' == "allow") = cc (e, e') in
      same ∙ rw a

  not-Admits : ¬ IsAdmin q → Undecided repr policy q (get_rules policy) → ¬ Admits
  not-Admits n u (admin a) = n a
  not-Admits n u (rule r d e) = u r d

  -- `evaluate` answers on every well-formed document, and allows exactly what is admitted.
  pub evaluate-allowed_iff :
      IsWellFormed policy
      → (r : EvalResponse) × (evaluate repr policy q ≡ ok r) × ((r.allowed ≡ true) ↔ Admits)
  evaluate-allowed_iff w = elim (Bool-cases (is_admin q.operator_roles)) [
    | inl e ↦
        (_, evaluate-IsAdmin ((is_admin_iff q).0 e), (λ _. admin ((is_admin_iff q).0 e), λ _. refl))
    | inr e ↦
        let n = λ (a : IsAdmin q). absurd {A = ⊥} (ground (arith, (is_admin_iff q).1 a)) in
        elim (decide (get_rules policy) w.rules) [
          | inl (r, d) ↦
              let (before, v) = evaluate-Decides r w n d in
              (_, v, (λ h. rule r d (eq_of_beq _ "allow" h), allowed_decided r before w n v))
          | inr u ↦
              let (m, v) = evaluate-Undecided w n u in
              (_, v, (λ h. absurd (cc), λ a. absurd (not-Admits n u a)))
        ]
  ]
