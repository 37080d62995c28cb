-- ===== src/Bundle/Verify.antt =====
-- tools/bundlectl/bundlectl.py: `verify_bundle`, the check of a bundle's manifest and files.
use airgap_videowall.Prelude.{
  String, ◌&&◌, none, some, List, [], ◌∷◌, if◌then◌else◌, ◌==◌, string_eq, Option,
}
use airgap_videowall.Prelude.Dict.{get}
use airgap_videowall.Values.{
  Value, Fields, str, list, obj, nil, end, field, get_field, has_field, truthy, values,
}
use airgap_videowall.Values.Equality.{same_value}
use airgap_videowall.Bundle.Archive.{
  Tools, Archive, Bytes, Found, missing, file, directory, Result, ok, raised, ◌>>=◌, of_option,
  verify_sig, sha256_file, manifest_digest,
}

-- d.pop(k, None), of a mapping
unfoldable pub without : String → Fields → Fields
without k end = end
without k (field j v fs) = if j == k then without k fs else field j v (without k fs)

-- What `verify_bundle` returns.
pub data Verdict : Type 0 where
  accepted : Verdict
  manifest_missing : Verdict
  signature_invalid : Verdict
  missing_file : String → Verdict
  hash_mismatch : String → Verdict

unfoldable pub found_of : Option Bytes → Found → Found
found_of none other = other
found_of (some content) other = file content

module _ (tools : Tools) where
  -- what `cfg_dir / rel` names
  unfoldable pub look : Archive → String → Found
  unfolding found_of
  look a rel = found_of (get a.config rel) (tools.names a rel)

  unfoldable pub check_found : Found → String → Value → Result Verdict → Result Verdict
  unfolding sha256_file same_value
  check_found missing rel expected rest = ok (missing_file rel)
  check_found directory rel expected rest = raised
  check_found (file content) rel expected rest =
      if same_value (str (sha256_file tools content)) expected then rest else ok (hash_mismatch rel)

  -- `f["path"]` and `f["sha256"]`
  unfoldable pub read_entry : Value → Result (String × Value)
  read_entry (obj fs) =
      if has_field fs "path" && has_field fs "sha256"
      then elim (get_field fs "path") [ str rel ↦ ok (rel, get_field fs "sha256") | _ ↦ raised ]
      else raised
  read_entry _ = raised

  -- the loop over the manifest's files
  unfoldable pub check_files : Archive → List Value → Result Verdict
  unfolding read_entry look check_found
  check_files a [] = ok accepted
  check_files a (f ∷ fs) =
      let rest = check_files a fs in read_entry f >>= λ e. check_found (look a e.0) e.0 e.1 rest

  -- iter(v): what is no list and not empty gives items that are no mappings
  unfoldable pub listed : Value → Result (List Value)
  listed (list vs) = ok (values vs)
  listed (obj end) = ok []
  listed (str s) = if s == "" then ok [] else raised
  listed _ = raised

  unfoldable pub mapping : Value → Result Fields
  mapping (obj fs) = ok fs
  mapping v = if truthy v then raised else ok end

  unfoldable pub check_manifest : Archive → Fields → Bytes → Result Verdict
  unfolding mapping verify_sig manifest_digest without listed check_files
  check_manifest a manifest pubkey = do
    siginfo ← mapping (get_field manifest "signature")
    valid ← verify_sig tools (manifest_digest tools (without "signature" manifest)) siginfo pubkey
    if valid
        then (listed (if has_field manifest "files" then get_field manifest "files" else list nil)
            >>= λ files. check_files a files)
        else ok signature_invalid

  unfoldable pub check_loaded : Archive → Option Value → Bytes → Result Verdict
  unfolding check_manifest
  check_loaded a (some (obj manifest)) pubkey = check_manifest a manifest pubkey
  check_loaded a _ pubkey = raised

  unfoldable pub check_archive : Archive → Option String → Bytes → Result Verdict
  unfolding check_loaded
  check_archive a none pubkey = ok manifest_missing
  check_archive a (some text) pubkey = check_loaded a (tools.loads text) pubkey

  -- `verify_bundle`
  unfoldable pub verify_bundle : Bytes → Bytes → Result Verdict
  unfolding check_archive
  verify_bundle bundle pubkey =
      of_option (tools.unpack bundle) >>= λ a. check_archive a a.manifest pubkey
