-- ===== src/Mgmt/Proxied.antt =====
-- The events of the requests for tokens, for verdicts and for imports.
use airgap_videowall.Mgmt.Ingested.{of_token, of_verdict, of_import, Ingests, same, one, either}
use airgap_videowall.Prelude.Text.{strip, lower}
use airgap_videowall.Prelude.{
  ℕ, String, ◌≡◌, refl, inl, inr, Option, none, some, List, arith, Bool-cases, Option-cases, ◌==◌,
  string_eq,
}
use airgap_videowall.Mgmt.Data.{Env, Db}
use airgap_videowall.Mgmt.Tokens.{
  TokenTools, Subject, TokenSubscribeRequest, tokens_subscribe, ask, conclude, operator_tags,
}
use airgap_videowall.Policy.Engine.{EvalResponse}
use airgap_videowall.Mgmt.Proxies.{
  policy_evaluate, evaluate_tagged, evaluate_payload, evaluated_by, ImportTools, ImportAnswer,
  BundleImportRequest, bundles_import, stage_import, check_hmac, check_given, check_digest,
}
use airgap_videowall.Values.{Value, Fields, int_of, get_field, ℤ, has_field}

-- The checks of an import give no answer that is logged.
abbrev of_check : Option ImportAnswer → ℕ
of_check none = 0
of_check (some answer) = of_import answer

of_check-check_digest : (expected given : String) → of_check (check_digest expected given) ≡ 0
unfolding check_digest
of_check-check_digest expected given = ground arith

of_check-check_given :
    (tools : ImportTools) (payload : Fields) (given : Option String)
    → of_check (check_given tools payload given) ≡ 0
unfolding check_given
of_check-check_given tools payload none = refl
of_check-check_given tools payload (some given) = elim (Bool-cases (given == "")) [
  | inl e ↦ rw e refl
  | inr e ↦ rw e (
      of_check-check_digest
        (tools.hmac_sha256_hex (strip tools.bundle_hmac_secret) (tools.json payload)) (lower given))
]

of_check-check_hmac :
    (tools : ImportTools) (req : BundleImportRequest) → of_check (check_hmac tools req) ≡ 0
unfolding check_hmac
of_check-check_hmac tools req = elim (Bool-cases (strip tools.bundle_hmac_secret == "")) [
  | inl e ↦ rw e refl
  | inr e ↦ rw e (of_check-check_given tools req.payload req.hmac_hex)
]

module _ (env : Env) where
  module _ (tools : TokenTools) (now : ℕ) (user : Subject) where
    conclude-Ingests :
        (req : TokenSubscribeRequest) (o : Option EvalResponse) (db : Db)
        → let (after, r) = conclude env tools now user req o db in
          Ingests env (of_token r) db.events after.events
    unfolding conclude
    conclude-Ingests req none db = same env db.events
    conclude-Ingests req (some r) db =
        either env of_token r.allowed _ _ db.events (one env now _ db) (one env now _ db)

    ask-Ingests :
        (req : TokenSubscribeRequest) (tags : Option (List String)) (db : Db)
        → let (after, r) = ask env tools now user req tags db in
          Ingests env (of_token r) db.events after.events
    unfolding ask
    ask-Ingests req none db = same env db.events
    ask-Ingests req (some tags) db = conclude-Ingests req _ db

    pub tokens_subscribe-Ingests :
        (req : TokenSubscribeRequest) (db : Db)
        → let (after, r) = tokens_subscribe env tools now user req db in
          Ingests env (of_token r) db.events after.events
    unfolding tokens_subscribe
    tokens_subscribe-Ingests req db =
        either env of_token _ _ _ db.events (ask-Ingests req (operator_tags tools.repr user) db)
          (same env db.events)

    evaluated_by-Ingests :
        (wall source : ℤ) (o : Option EvalResponse) (db : Db)
        → let (after, r) = evaluated_by env tools now user wall source o db in
          Ingests env (of_verdict r) db.events after.events
    unfolding evaluated_by
    evaluated_by-Ingests wall source none db = same env db.events
    evaluated_by-Ingests wall source (some r) db = one env now _ db

    evaluate_payload-Ingests :
        (payload : Fields) (tags : List String) (db : Db)
        → let (after, r) = evaluate_payload env tools now user payload tags db in
          Ingests env (of_verdict r) db.events after.events
    unfolding evaluate_payload
    evaluate_payload-Ingests payload tags db = elim (Bool-cases (has_field payload "wall_id")) [
      | inr h ↦ rw h (same env db.events)
      | inl h ↦ elim (Option-cases (int_of (get_field payload "wall_id"))) [
        | inl e ↦ rw (h, e) (same env db.events)
        | inr (wall, e) ↦ elim (Bool-cases (has_field payload "source_id")) [
          | inr k ↦ rw (h, e, k) (same env db.events)
          | inl k ↦ elim (Option-cases (int_of (get_field payload "source_id"))) [
            | inl f ↦ rw (h, e, k, f) (same env db.events)
            | inr (source, f) ↦ rw (h, e, k, f) (evaluated_by-Ingests wall source _ db)
          ]
        ]
      ]
    ]

    evaluate_tagged-Ingests :
        (payload : Fields) (tags : Option (List String)) (db : Db)
        → let (after, r) = evaluate_tagged env tools now user payload tags db in
          Ingests env (of_verdict r) db.events after.events
    unfolding evaluate_tagged
    evaluate_tagged-Ingests payload none db = same env db.events
    evaluate_tagged-Ingests payload (some tags) db = evaluate_payload-Ingests payload tags db

    pub policy_evaluate-Ingests :
        (payload : Fields) (db : Db)
        → let (after, r) = policy_evaluate env tools now user payload db in
          Ingests env (of_verdict r) db.events after.events
    unfolding policy_evaluate
    policy_evaluate-Ingests payload db =
        either env of_verdict _ _ _ db.events
          (evaluate_tagged-Ingests payload (operator_tags tools.repr user) db) (same env db.events)

  stage_import-Ingests :
      (repr : Value → String) (tools : ImportTools) (now : ℕ) (user : Subject)
      (req : BundleImportRequest) (o : Option ImportAnswer) (db : Db)
      → of_check o ≡ 0
      → let (after, r) = stage_import env repr tools now user req o db in
        Ingests env (of_import r) db.events after.events
  unfolding stage_import
  stage_import-Ingests repr tools now user req none db h = one env now _ db
  stage_import-Ingests repr tools now user req (some a) db h = rw h (same env db.events)

  pub bundles_import-Ingests :
      (repr : Value → String) (tools : ImportTools) (now : ℕ) (user : Subject)
      (req : BundleImportRequest) (db : Db)
      → let (after, r) = bundles_import env repr tools now user req db in
        Ingests env (of_import r) db.events after.events
  unfolding bundles_import
  bundles_import-Ingests repr tools now user req db =
      either env of_import _ _ _ db.events
        (stage_import-Ingests repr tools now user req (check_hmac tools req) db
          (of_check-check_hmac tools req))
        (same env db.events)
