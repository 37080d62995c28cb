-- ===== src/Policy/Evaluation.antt =====
-- `PolicyEngine.evaluate` against the meaning of the document: the first rule that applies and
-- allows or denies decides, and nothing else does.
use Prim.Native.String.{◌++◌ as append}
use airgap_videowall.Prelude.{
  String, ◌≡◌, inl, inr, Bool, true, false, ◌&&◌, ◌||◌, some, List, [], ◌∷◌, ◌++◌, arith,
  if◌then◌else◌, Bool-cases, ◌==◌, eq_of_beq, string_eq, subst, ◌∙◌, refl, sym,
}
use airgap_videowall.Values.{Value, Fields, obj}
use airgap_videowall.Policy.Engine.{
  ok, Query, Match, EvalResponse, conditions_met, rule_id, rule_effect, rule_conditions,
  evaluate_rules, decision,
}
use airgap_videowall.Policy.Decides.{Applies, IsFinal, Decides, first, AreMappings, later}
use airgap_videowall.Policy.Conditions.{conditions_met→All, All→conditions_met}

abbrev pub final : String → Bool
final effect = effect == "allow" || effect == "deny"

module _ (repr : Value → String) where
  -- The entry that a rule leaves in `matched_rules`.
  abbrev pub entry : Fields → Match
  entry rule = record { id = rule_id repr rule; effect = some (rule_effect repr rule) }

  -- What a deciding rule answers, behind the entries of the rules before it.
  abbrev pub answer : Fields → List Match → EvalResponse
  answer rule before =
      let allows = rule_effect repr rule == "allow" in
      record {
        allowed = allows;
        reason = append (if allows then "allowed_by:" else "denied_by:") (rule_id repr rule);
        matched_rules = before ++ entry rule ∷ [];
      }

  module _ (policy : Fields) (q : Query) where
    abbrev pub decisive : Fields → Bool
    decisive rule =
        conditions_met repr policy q (rule_conditions rule) && final (rule_effect repr rule)

    pub decisive→Final :
        (rule : Fields)
        → decisive rule ≡ true
        → Applies repr policy q rule × IsFinal (rule_effect repr rule)
    decisive→Final rule h = (
      conditions_met→All repr policy q (rule_conditions rule) (ground arith),
      elim (Bool-cases (rule_effect repr rule == "allow")) [
        | inl e ↦ inl (eq_of_beq _ _ e)
        | inr n ↦ inr (eq_of_beq _ "deny" (ground arith))
      ],
    )

    final_iff : (effect : String) → IsFinal effect → final effect ≡ true
    final_iff effect (inl e) = rw e
    final_iff effect (inr e) = rw e

    pub Final→decisive :
        (rule : Fields)
        → Applies repr policy q rule
        → IsFinal (rule_effect repr rule)
        → decisive rule ≡ true
    Final→decisive rule a f =
        rw (All→conditions_met repr policy q (rule_conditions rule) a)
          (final_iff (rule_effect repr rule) f)

    not-decisive :
        (rule : Fields)
        → ¬ (Applies repr policy q rule × IsFinal (rule_effect repr rule))
        → decisive rule ≡ false
    not-decisive rule h = elim (Bool-cases (decisive rule)) [
      | inl e ↦ absurd (h (decisive→Final rule e))
      | inr e ↦ e
    ]

    evaluate_rules-decisive :
        (reason : String) (matched : List Match) (rule : Fields) (rules : List Value)
        → decisive rule ≡ true
        → evaluate_rules repr policy q reason matched (obj rule ∷ rules) ≡ ok (answer rule matched)
    unfolding evaluate_rules
    evaluate_rules-decisive reason matched rule rules h =
        elim (Bool-cases (rule_effect repr rule == "allow")) [
          | inl e ↦ ground arith
          | inr e ↦ ground arith
        ]

    evaluate_rules_skip :
        (reason : String) (matched : List Match) (rule : Fields) (rules : List Value)
        → decisive rule ≡ false
        → (m : List Match) × (evaluate_rules repr policy q reason matched (obj rule ∷ rules)
            ≡ evaluate_rules repr policy q reason m rules)
    unfolding evaluate_rules
    evaluate_rules_skip reason matched rule rules h =
        elim (Bool-cases (conditions_met repr policy q (rule_conditions rule))) [
          | inl e ↦ (matched ++ entry rule ∷ [], ground arith)
          | inr e ↦ (matched, ground arith)
        ]

    -- The loop ends at the deciding rule, with that rule's answer.
    pub evaluate_rules-Decides :
        (reason : String) (matched : List Match) {rules : List Value} {rule : Fields}
        → Decides repr policy q rules rule
        → (before : List Match) × (evaluate_rules repr policy q reason matched rules
            ≡ ok (answer rule before))
    evaluate_rules-Decides reason matched (first rule rules a f) =
        (matched, evaluate_rules-decisive reason matched rule rules (Final→decisive rule a f))
    evaluate_rules-Decides reason matched (later skipped rule rules h d) =
        let (m, step) = evaluate_rules_skip reason matched skipped rules (not-decisive skipped h) in
        let (before, rest) = evaluate_rules-Decides reason m d in (before, step ∙ rest)

    abbrev pub Undecided : List Value → Type 0
    Undecided rules = (rule : Fields) → ¬ Decides repr policy q rules rule

    Undecided-decisive :
        (rule : Fields) (rules : List Value) → Undecided (obj rule ∷ rules) → decisive rule ≡ false
    Undecided-decisive rule rules u = not-decisive rule (λ af. u rule (first rule rules af.0 af.1))

    -- With no deciding rule the loop runs to its end and denies.
    pub evaluate_rules-Undecided :
        (reason : String) (matched : List Match) (rules : List Value)
        → AreMappings rules
        → Undecided rules
        → (m : List Match) × (evaluate_rules repr policy q reason matched rules
            ≡ decision false reason m)
    unfolding evaluate_rules
    evaluate_rules-Undecided reason matched [] w u = (matched, refl)
    evaluate_rules-Undecided reason matched (v ∷ rules) ((fs, e), w) u =
        let u' : Undecided (obj fs ∷ rules) = subst (λ x. Undecided (x ∷ rules)) e u in
        let d = Undecided-decisive fs rules u' in
        let (m, step) = evaluate_rules_skip reason matched fs rules d in
        let skip = λ (af : Applies repr policy q fs × IsFinal (rule_effect repr fs)).
          u' fs (first fs rules af.0 af.1) in
        let (m', rest) =
          evaluate_rules-Undecided reason m rules w (λ r x. u' r (later fs r rules skip x)) in
        (
          m',
          subst
              (λ x.
                evaluate_rules repr policy q reason matched (x ∷ rules) ≡ decision false reason m')
              (sym e) (step ∙ rest),
        )
