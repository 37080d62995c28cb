-- ===== src/Bundle/Staging.antt =====
-- What is staged, and what the check of a bundle does not look at.
use airgap_videowall.Bundle.Integrity.{verify_bundle-inv}
use airgap_videowall.Bundle.Commands.{
  stage, stage_if, stage_at, cmd_import, stage_dir_for_ring, path_of,
}
use airgap_videowall.Prelude.{
  ℕ, String, ◌≡◌, refl, ap, ◌∙◌, subst, inl, inr, false, Option, none, some, List, [], ◌∷◌, arith,
  Bool-cases, ◌==◌, In, there, string_eq, here, if◌then◌else◌, sym,
}
use airgap_videowall.Prelude.Dict.{Dict, get, put, get-put}
use airgap_videowall.Values.{Value, Fields, obj, has_field, get_field, list, nil}
use airgap_videowall.Bundle.Archive.{
  Tools, Archive, Bytes, Result, ok, raised, ◌>>=◌, verify_sig, manifest_digest,
}
use airgap_videowall.Bundle.Verify.{
  Verdict, accepted, verify_bundle, check_files, look, read_entry, found_of, check_manifest,
  check_found, listed, mapping, without, signature_invalid,
}

bind-cong :
    {A B : Type 0} (r : Result A) (f g : A → Result B)
    → ((a : A) → r ≡ ok a → f a ≡ g a)
    → (r >>= f) ≡ (r >>= g)
bind-cong (ok a) f g h = h a refl
bind-cong raised f g h = refl

-- A call of `vw-bundlectl import`, of a bundle that stays as it is while the command runs.
pub record Import : Type 0 where
  pub bundle : Bytes
  pub ring : ℕ
  pub name : String

module _ (tools : Tools) (pubkey : Bytes) where
  unfoldable pub imports : List Import → Dict String Bytes → Dict String Bytes
  unfolding cmd_import
  imports [] staged = staged
  imports (i ∷ is) staged =
      imports is (cmd_import tools i.bundle pubkey i.ring i.name i.bundle staged).0

  abbrev pub AllVerified : Dict String Bytes → Type 0
  AllVerified staged =
      (path : String) (content : Bytes)
      → get staged path ≡ some content
      → verify_bundle tools content pubkey ≡ ok accepted

  put-AllVerified :
      (o : Option String) (bundle : Bytes) (name : String) (staged : Dict String Bytes)
      → verify_bundle tools bundle pubkey ≡ ok accepted
      → AllVerified staged
      → AllVerified (stage_at o name bundle staged).0
  unfolding stage_at
  put-AllVerified none bundle name staged v ver path content g = ver path content g
  put-AllVerified (some dir) bundle name staged v ver path content g =
      elim (Bool-cases (path_of dir name == path)) [
        | inl e ↦
            let same : bundle ≡ content =
              ground (arith, get-put staged (path_of dir name) path bundle) in
            subst (λ c. verify_bundle tools c pubkey ≡ ok accepted) same v
        | inr e ↦ ver path content (ground (arith, get-put staged (path_of dir name) path bundle))
      ]

  stage-AllVerified :
      (v : Verdict) (bundle : Bytes) (ring : ℕ) (name : String) (staged : Dict String Bytes)
      → verify_bundle tools bundle pubkey ≡ ok v
      → AllVerified staged
      → AllVerified (stage tools v ring name bundle staged).0
  unfolding stage
  stage-AllVerified accepted bundle ring name staged h ver =
      put-AllVerified (stage_dir_for_ring ring) bundle name staged h ver
  stage-AllVerified _ bundle ring name staged h ver = ver

  cmd_import-AllVerified :
      (r : Result Verdict) (bundle : Bytes) (ring : ℕ) (name : String) (staged : Dict String Bytes)
      → verify_bundle tools bundle pubkey ≡ r
      → AllVerified staged
      → AllVerified (stage_if tools r ring name bundle staged).0
  unfolding stage_if
  cmd_import-AllVerified raised bundle ring name staged h ver = ver
  cmd_import-AllVerified (ok v) bundle ring name staged h ver =
      stage-AllVerified v bundle ring name staged h ver

  -- If every file that is staged already is a bundle that `verify_bundle` accepts under a public key,
  -- and bundles are imported with that key, in any order and into any ring, none of which changes while
  -- its command runs, then every file in the staging directories is accepted under it.
  pub imports-AllVerified :
      (is : List Import) (staged : Dict String Bytes)
      → AllVerified staged
      → AllVerified (imports is staged)
  unfolding imports cmd_import
  imports-AllVerified [] staged ver = ver
  imports-AllVerified (i ∷ is) staged ver = imports-AllVerified is _ (
      cmd_import-AllVerified (verify_bundle tools i.bundle pubkey) i.bundle i.ring i.name staged
        refl ver)

module _ (tools : Tools) (a : Archive) (path : String) (content : Bytes) where
  abbrev with_file : Archive
  with_file = record a { config = put a.config path content }

  module _ (alone : (rel : String) → tools.names with_file rel ≡ tools.names a rel) where
    look-other :
        (rel : String) → (path == rel) ≡ false → look tools with_file rel ≡ look tools a rel
    unfolding look
    look-other rel d =
        let same : get with_file.config rel ≡ get a.config rel =
          get-put a.config path rel content ∙ rw d refl in
        ap (λ o. found_of o (tools.names with_file rel)) same
        ∙ ap (found_of (get a.config rel)) (alone rel)

    check_files-other :
        (fs : List Value)
        → ((f : Value) (e : String × Value)
            → In f fs
            → read_entry tools f ≡ ok e
            → (path == e.0) ≡ false)
        → check_files tools with_file fs ≡ check_files tools a fs
    unfolding check_files
    check_files-other [] h = refl
    check_files-other (f ∷ fs) h =
        let rest = check_files-other fs (λ g e m. h g e (there m)) in
        bind-cong (read_entry tools f) _ _ λ e q.
          ap (λ found. check_found tools found e.0 e.1 (check_files tools with_file fs))
            (look-other e.0 (h f e (here refl) q))
          ∙ ap (check_found tools (look tools a e.0) e.0 e.1) rest

    -- A file whose path the manifest does not list can be added to a bundle, which is accepted or
    -- refused as before, if it changes what no other path names: `verify_bundle` does not see it.
    pub verify_bundle-with_file :
        (bundle bundle' pubkey : Bytes) (text : String) (m : Fields) (files : List Value)
        → tools.unpack bundle ≡ some a
        → tools.unpack bundle' ≡ some with_file
        → a.manifest ≡ some text
        → tools.loads text ≡ some (obj m)
        → listed tools (if has_field m "files" then get_field m "files" else list nil) ≡ ok files
        → ((f : Value) (e : String × Value)
            → In f files
            → read_entry tools f ≡ ok e
            → (path == e.0) ≡ false)
        → verify_bundle tools bundle' pubkey ≡ verify_bundle tools bundle pubkey
    unfolding check_manifest
    verify_bundle-with_file bundle bundle' pubkey text m files u u' t l listing unlisted =
        let same : check_manifest tools with_file m pubkey ≡ check_manifest tools a m pubkey =
          bind-cong (mapping tools (get_field m "signature")) _ _ λ siginfo _.
            bind-cong
              (verify_sig tools (manifest_digest tools (without "signature" m)) siginfo pubkey) _ _
              λ valid _.
                ap (λ r. if valid then r else ok signature_invalid)
                  (rw listing (check_files-other files unlisted)) in
        verify_bundle-inv tools bundle' pubkey with_file text m u' t l
        ∙ (same ∙ sym (verify_bundle-inv tools bundle pubkey a text m u t l))
