-- ===== src/Mgmt/Granted.antt =====
-- A stream token is minted exactly for what the policy admits.
use airgap_videowall.Prelude.{
  ℕ, String, ◌≡◌, refl, ◌↔◌, inl, inr, true, some, List, [], ◌∷◌, Bool-cases,
}
use airgap_videowall.Policy.Engine.{EvalResponse}
use airgap_videowall.Policy.Verdicts.{IsWellFormed, Admits, evaluate-allowed_iff}
use airgap_videowall.Policy.Service.{World, Engine, handle_evaluate, query_of}
use airgap_videowall.Mgmt.Data.{Env, Db}
use airgap_videowall.Mgmt.Requests.{permits}
use airgap_videowall.Mgmt.Tokens.{
  Subject, TokenSubscribeRequest, TokenTools, IsGranted, tokens_subscribe, conclude, ask, answer_of,
  policy_request, operator_tags,
}

-- The management API in front of the policy service.
abbrev pub behind : TokenTools → World → Engine → TokenTools
behind tools w e = record tools { policy = λ req. answer_of (handle_evaluate tools.repr w e req) }

pub conclude_iff :
    (env : Env) (tools : TokenTools) (now : ℕ) (user : Subject) (req : TokenSubscribeRequest)
    (r : EvalResponse) (db : Db)
    → IsGranted (conclude env tools now user req (some r) db).1 ↔ (r.allowed ≡ true)
unfolding conclude
conclude_iff env tools now user req r db = elim (Bool-cases r.allowed) [
  | inl e ↦ rw e (λ g. refl, λ h. (_, refl))
  | inr e ↦ rw e (λ (t, g). absurd (cc), λ h. absurd (cc))
]

-- A user who has a role and whose tags can be listed gets a stream token, from the management API
-- in front of a policy service with a well-formed document, exactly if the document admits the
-- user's request.
pub tokens_subscribe-Admits :
    (env : Env) (tools : TokenTools) (now : ℕ) (w : World) (e : Engine) (user : Subject)
    (req : TokenSubscribeRequest) (tags : List String) (db : Db)
    → IsWellFormed e.policy
    → permits ("viewer" ∷ "operator" ∷ "admin" ∷ []) user.roles ≡ true
    → operator_tags tools.repr user ≡ some tags
    → IsGranted (tokens_subscribe env (behind tools w e) now user req db).1
      ↔ Admits tools.repr e.policy (query_of tools.repr w (policy_request tools.repr user req tags))
unfolding tokens_subscribe ask handle_evaluate answer_of
tokens_subscribe-Admits env tools now w e user req tags db wf p t =
    let q = query_of tools.repr w (policy_request tools.repr user req tags) in
    let (r, run, iff) = evaluate-allowed_iff tools.repr e.policy q wf in
    let (f, g) = conclude_iff env (behind tools w e) now user req r db in
    rw (p, t, run) (λ h. iff.0 (f h), λ a. g (iff.1 a))
