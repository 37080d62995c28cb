-- ===== src/Bundle/Tests.antt =====
-- A bundle of one file, signed in development mode, and the theorems of the bundle tool at it.
use airgap_videowall.Bundle.Integrity.{verify_bundle-HasFiles}
use airgap_videowall.Bundle.Commands.{append_field, cmd_export}
use airgap_videowall.Bundle.Compared.{Agrees, cmd_diff-zero_iff}
use airgap_videowall.Bundle.Staging.{AllVerified, imports, imports-AllVerified}
use airgap_videowall.Bundle.Export.{Fits, verify_bundle-cmd_export}
use airgap_videowall.Bundle.Diff.{cmd_diff}
use Prim.Native.String.{◌++◌ as append}
use airgap_videowall.Prelude.{
  String, ◌≡◌, refl, sym, ◌∙◌, subst, ◌↔◌, false, Option, none, some, [], ◌∷◌, if◌then◌else◌, ◌==◌,
  string_eq, In, here, there,
}
use airgap_videowall.Prelude.Dict.{get}
use airgap_videowall.Values.{
  Value, Fields, str, obj, list, num, pos, cons, nil, end, field, get_field, has_field,
}
use airgap_videowall.Bundle.Archive.{
  Tools, Archive, Bytes, Dir, Found, missing, file, ok, sign_digest, sha256_file, manifest_for,
  manifest_digest, collect_files,
}
use airgap_videowall.Bundle.Verify.{
  accepted, verify_bundle, without, listed, read_entry, signature_invalid, look,
}

abbrev dir : Dir
dir = ("a.yaml", "x: 1") ∷ []

abbrev entry : Value
entry =
    obj (field "path" (str "a.yaml") (field "sha256" (str "x: 1") (field "size" (num (pos 4)) end)))

abbrev siginfo : Fields
siginfo = field "alg" (str "hmac-sha256-DEV") (field "sig" (str "kc") end)

abbrev signed : Fields
signed = field "version" (num (pos 1)) (
    field "config_dir" (str "/etc/videowall")
      (field "files" (list (cons entry nil)) (field "signature" (obj siginfo) end)))

abbrev archive : Archive
archive = record { manifest = some "m"; config = dir }

abbrev larger : Archive
larger = record { manifest = some "m"; config = ("a.yaml", "x: 1") ∷ ("b.sh", "rm") ∷ [] }

abbrev tools : Tools
tools = record {
  sha256 = λ b. if b == "x: 2" then "x: 1" else b;
  hmac = λ k d. append k d;
  hex = λ b. b;
  fromhex = λ s. some s;
  canonical = λ v. "c";
  dumps = λ v. "m";
  loads = λ s. some (obj signed);
  have_pynacl = false;
  nacl_sign = λ k d. none;
  nacl_verify = λ k d s. none;
  pack = λ a. some "bundle";
  unpack = λ b. if b == "bundle" then some archive else if b == "larger" then some larger else none;
  names = λ a rel. missing;
}

verify_bundle_runs : verify_bundle tools "bundle" "k" ≡ ok accepted
unfolding verify_bundle get_field has_field get
verify_bundle_runs = refl

-- Another key does not fit.
verify_bundle_refuses : verify_bundle tools "bundle" "x" ≡ ok signature_invalid
unfolding verify_bundle get_field has_field get
verify_bundle_refuses = refl

-- Another content has the same hash, but is not in the bundle.
collides : sha256_file tools "x: 2" ≡ sha256_file tools "x: 1"
unfolding sha256_file
collides = refl

found_content :
    (found : Bytes)
    → look tools archive "a.yaml" ≡ file found
    → sha256_file tools found ≡ sha256_file tools "x: 1"
    → found ≡ "x: 1"
unfolding look get
found_content found l h = cc

verify_bundle-HasFiles_example : look tools archive "a.yaml" ≡ file "x: 1"
unfolding without manifest_for
verify_bundle-HasFiles_example =
    verify_bundle-HasFiles tools "bundle" "k" archive "m" signed "/etc/videowall" dir "a.yaml"
      "x: 1" refl refl refl refl verify_bundle_runs (here refl) found_content

fits :
    Fits tools "k" "k"
      (manifest_digest tools (manifest_for tools "/etc/videowall" (collect_files dir)))
fits = record { hexes = λ b. refl; signed = λ sig h. absurd (cc h); shared = λ _. refl }

verify_bundle-cmd_export_example :
    (cmd_export tools "/etc/videowall" dir "k" ≡ ok "bundle")
    × (verify_bundle tools "bundle" "k" ≡ ok accepted)
unfolding sign_digest manifest_digest manifest_for append_field collect_files get
verify_bundle-cmd_export_example =
    verify_bundle-cmd_export tools "/etc/videowall" dir "k" "k" siginfo "bundle" (refl, tt) fits
      refl refl refl refl

no_files : AllVerified tools "k" []
unfolding get
no_files path content g = absurd (cc g)

imports-AllVerified_example : AllVerified tools "k" (
    imports tools "k"
      (record { bundle = "bundle"; ring = 1; name = "v1.tar.zst" }
        ∷ record { bundle = "other"; ring = 0; name = "v2" }
        ∷ [])
      [])
imports-AllVerified_example =
    imports-AllVerified tools "k"
      (record { bundle = "bundle"; ring = 1; name = "v1.tar.zst" }
        ∷ record { bundle = "other"; ring = 0; name = "v2" }
        ∷ [])
      [] no_files

files_listed :
    listed tools (if has_field signed "files" then get_field signed "files" else list nil)
    ≡ ok (entry ∷ [])
unfolding listed has_field get_field
files_listed = refl

unlisted :
    (f : Value) (e : String × Value)
    → In f (entry ∷ [])
    → read_entry tools f ≡ ok e
    → ("b.sh" == e.0) ≡ false
unfolding read_entry has_field get_field
unlisted f e (here q) r =
    let is : read_entry tools f ≡ ok ("a.yaml", str "x: 1") = rw q refl in
    let same : ok e ≡ ok ("a.yaml", str "x: 1") = sym r ∙ is in
    let is_same : e ≡ ("a.yaml", str "x: 1") = cc same in
    subst (λ (x : String × Value). ("b.sh" == x.0) ≡ false) (sym is_same) refl
unlisted f e (there m) r = elim m [ ]

abbrev local : String → Found
local rel = if rel == "a.yaml" then file "y: 1" else missing

abbrev safe_load : Bytes → Option Value
safe_load content = some (obj (field "x" (num (pos 1)) end))

cmd_diff-zero_iff_example :
    (cmd_diff tools safe_load local "bundle" ≡ ok 0)
    ↔ ((g : String × Bytes) → In g dir → Agrees tools safe_load local g.0 g.1)
cmd_diff-zero_iff_example = cmd_diff-zero_iff tools safe_load local "bundle" archive refl
