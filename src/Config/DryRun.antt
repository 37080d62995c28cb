-- ===== src/Config/DryRun.antt =====
-- services/vw-config/app/config_authority.py: what `dry_run` foretells of a later load.
use airgap_videowall.Config.Semantic.{validate_semantic, raw_walls, raw_sources}
use airgap_videowall.Prelude.{ℕ, String, ◌≡◌, refl, ap, ◌∙◌, map}
use airgap_videowall.Config.Data.{RawConfig, Failure, Result, ok, raise, ◌>>=◌, schema_fault}
use airgap_videowall.Config.Loader.{
  Tools, PlatformConfig, Parsed, malformed, scalar, mapping, assemble, from_parsed, load_config,
  parse_platform, raise_if, traverse, parse_wall, parse_source, parse_policy, guardrail,
}
use airgap_videowall.Config.Derived.{compute}
use airgap_videowall.Config.Watcher.{valid, invalid, dry_run, dry_run_of}

>>=-dry_run :
    {A : Type 0} (action : Result A) (f g : A → Result PlatformConfig)
    → ((a : A) → dry_run_of (f a) ≡ dry_run_of (g a))
    → dry_run_of (action >>= f) ≡ dry_run_of (action >>= g)
>>=-dry_run (ok a) f g h = h a
>>=-dry_run (raise e) f g h = refl

module _ (tools : Tools) (text path path' : String) (t t' : ℕ) where
  -- Where the text comes from and when it is loaded does not count.
  assemble_same :
      (d : RawConfig)
      → dry_run_of (assemble tools text path t d) ≡ dry_run_of (assemble tools text path' t' d)
  unfolding assemble dry_run_of
  assemble_same d =
      let platform = parse_platform d.platform in
      let hash = tools.sha256_hex (tools.canonical_json d) in
      >>=-dry_run (raise_if (map schema_fault (tools.schema_errors d))) _ _ λ _.
        >>=-dry_run (raise_if (validate_semantic d)) _ _ λ _.
          >>=-dry_run (traverse parse_wall (raw_walls d)) _ _ λ walls.
            >>=-dry_run (traverse parse_source (raw_sources d)) _ _ λ sources.
              >>=-dry_run (parse_policy d.policy) _ _ λ policy.
                >>=-dry_run (raise_if (guardrail (compute platform walls sources hash) platform)) _
                  _ λ _. refl

  from_parsed_same :
      (p : Parsed)
      → dry_run_of (from_parsed tools text path t p)
        ≡ dry_run_of (from_parsed tools text path' t' p)
  unfolding from_parsed dry_run_of
  from_parsed_same malformed = refl
  from_parsed_same scalar = refl
  from_parsed_same (mapping d) = assemble_same d

-- A dry run accepts a text exactly if loading it succeeds, from any path and at any time, and then
-- gives the version and the derived metrics, with the hash, of what is loaded; else it gives the
-- failure.
pub dry_run-load_config :
    (tools : Tools) (text path : String) (t t' : ℕ)
    → ((cfg : PlatformConfig)
        → load_config tools text path t ≡ ok cfg
        → dry_run tools text t' ≡ valid cfg.platform.version cfg.derived)
      × ((e : Failure)
          → load_config tools text path t ≡ raise e
          → dry_run tools text t' ≡ invalid e)
unfolding dry_run load_config dry_run_of
dry_run-load_config tools text path t t' =
    let same = from_parsed_same tools text "<dry-run>" path t' t (tools.safe_load text) in
    (λ cfg h. same ∙ ap dry_run_of h, λ e h. same ∙ ap dry_run_of h)
