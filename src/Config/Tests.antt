-- ===== src/Config/Tests.antt =====
-- The configuration service at concrete documents, with transparent functions in place of the YAML
-- parser and the digest.
use airgap_videowall.Config.Sample.{
  raw, tools, platform, walls, sources, cfg, describe, watcher, loads, starts,
}
use airgap_videowall.Config.Api.{policy_json, evaluate-policy_json}
use airgap_videowall.Prelude.Dict.{get}
use airgap_videowall.Config.Semantic.{validate_semantic, IsConsistent, validate_semantic_iff}
use airgap_videowall.Config.Derived.{
  compute, sum_of, endpoints_of, sub_int, of_type, compute_totals,
}
use airgap_videowall.Config.Validity.{IsValid, load_config-IsValid}
use airgap_videowall.Config.Watcher.{check_and_reload}
use airgap_videowall.Policy.Engine
use airgap_videowall.Policy.Engine.{Query, EvalResponse}
use airgap_videowall.Values.{pos, bool, field, end, Value, num}
use airgap_videowall.Config.Data.{or_default, PolicyRule}
use airgap_videowall.Config.Available.{serve-Reach, IsUnavailable}
use airgap_videowall.Config.Handlers.{serve, wall_call}
use airgap_videowall.Prelude.{ℕ, String, ◌≡◌, refl, ◌↔◌, true, some, [], ◌∷◌, string_eq}
use airgap_videowall.Config.LastGood.{load_initial-Serves, Serves, next, now, poll}

validate_semantic_iff_example : (validate_semantic raw ≡ []) ↔ IsConsistent raw
validate_semantic_iff_example = validate_semantic_iff raw

compute_totals_example :
    let m = compute platform walls sources "{}" in
    (m.worst_case_concurrency ≡ sum_of endpoints_of walls)
    × (m.concurrency_headroom ≡ sub_int 8 (sum_of endpoints_of walls))
    × ((kind : String) → or_default (get m.sources_by_type kind) 0 ≡ of_type kind sources)
compute_totals_example = compute_totals platform walls sources "{}"

load_config-IsValid_example : IsValid cfg
load_config-IsValid_example = load_config-IsValid tools "good" "walls.yaml" 7 cfg loads

load_initial-Serves_example :
    Serves (check_and_reload tools describe "walls.yaml" watcher (some "bad") (some "bad") 9).0
load_initial-Serves_example =
    load_initial-Serves tools describe "walls.yaml" (some "good") (some "good") 7 watcher
      (check_and_reload tools describe "walls.yaml" watcher (some "bad") (some "bad") 9).0 cfg
      starts (next now (poll (some "bad") (some "bad") 9))

abbrev gbps : ℕ → Value
gbps n = num (pos n)

serve-Reach_example :
    ¬ IsUnavailable
      (serve tools describe "walls.yaml" gbps (wall_call "w1") (
        some
          (check_and_reload tools describe "walls.yaml" watcher (some "bad") (some "bad") 9).0)).1
serve-Reach_example =
    serve-Reach tools describe "walls.yaml" gbps (some "good") (some "good") 7 watcher
      (check_and_reload tools describe "walls.yaml" watcher (some "bad") (some "bad") 9).0 cfg
      (wall_call "w1") starts (next now (poll (some "bad") (some "bad") 9))

-- A rule that asks for clearance, as the configuration's schema wants it written.
abbrev clearance : PolicyRule
clearance = record {
  id = "clearance";
  effect = "allow";
  description = "";
  when = field "source_tags_subset_of_operator_tags" (bool true) end;
}

abbrev guest : Query
guest = record {
  wall_id = pos 1;
  source_id = pos 2;
  operator_id = "mallory";
  operator_roles = [];
  operator_tags = [];
  source_tags = "secret" ∷ [];
  wall_tags = [];
}

evaluate-policy_json_example :
    (a : EvalResponse) × (Engine.evaluate
        (λ v. "<value>")
        (policy_json (record { taxonomy = []; rules = clearance ∷ []; allow_list = [] }))
        guest
      ≡ Engine.ok a)
    × (a.allowed ≡ true)
evaluate-policy_json_example =
    evaluate-policy_json (λ v. "<value>")
      (record { taxonomy = []; rules = clearance ∷ []; allow_list = [] }) clearance [] guest refl
      refl
