-- ===== src/Bundle/Commands.antt =====
-- tools/bundlectl/bundlectl.py: the commands that export, verify and stage a bundle, with their exit
-- codes. A file that is read twice is given by its content at each time.
use Prim.Native.String.{◌++◌ as append}
use airgap_videowall.Prelude.{ℕ, String, Option, none, some, if◌then◌else◌, ◌==◌, nat_eq, string_eq}
use airgap_videowall.Prelude.Dict.{Dict, put}
use airgap_videowall.Values.{Value, Fields, obj, end, field}
use airgap_videowall.Bundle.Archive.{
  Tools, Archive, Bytes, Dir, Result, ok, raised, ◌>>=◌, of_option, collect_files, manifest_for,
  manifest_digest, sign_digest,
}
use airgap_videowall.Bundle.Verify.{Verdict, accepted, verify_bundle}

-- d[k] = v
unfoldable pub append_field : Fields → String → Value → Fields
append_field end k v = field k v end
append_field (field j w fs) k v = if j == k then field j v fs else field j w (append_field fs k v)

-- `stage_dir_for_ring`
unfoldable pub stage_dir_for_ring : ℕ → Option String
stage_dir_for_ring ring =
    if ring == 0
    then some "/var/lib/vw-bundles/ring0-staging"
    else if ring == 1
    then some "/var/lib/vw-bundles/ring1-pilot"
    else if ring == 2
    then some "/var/lib/vw-bundles/ring2-full"
    else none

abbrev pub path_of : String → String → String
path_of dir name = append dir (append "/" name)

-- shutil.copy2(bundle, dst / bundle.name)
unfoldable pub stage_at :
    Option String → String → Bytes → Dict String Bytes → Dict String Bytes × Result ℕ
stage_at none name copied staged = (staged, raised)
stage_at (some dir) name copied staged = (put staged (path_of dir name) copied, ok 0)

-- The exit code: an exception that ends the program makes it 1.
unfoldable pub exit_code : Result ℕ → ℕ
exit_code (ok n) = n
exit_code raised = 1

module _ (tools : Tools) where
  unfoldable pub signed_manifest : String → Dir → Bytes → Result Archive
  unfolding collect_files manifest_for manifest_digest sign_digest append_field
  signed_manifest config_dir files privkey =
      let manifest = manifest_for tools config_dir (collect_files files) in
      sign_digest tools (manifest_digest tools manifest) privkey >>= λ siginfo. ok (record {
        manifest = some (tools.dumps (obj (append_field manifest "signature" (obj siginfo))));
        config = collect_files files;
      })

  -- `cmd_export`: the bundle that is written
  unfoldable pub cmd_export : String → Dir → Bytes → Result Bytes
  unfolding signed_manifest
  cmd_export config_dir files privkey =
      signed_manifest config_dir files privkey >>= λ a. of_option (tools.pack a)

  unfoldable pub code_of : Verdict → ℕ
  code_of accepted = 0
  code_of _ = 1

  -- `cmd_verify`
  unfoldable pub cmd_verify : Bytes → Bytes → Result ℕ
  unfolding verify_bundle code_of
  cmd_verify bundle pubkey = verify_bundle tools bundle pubkey >>= λ v. ok (code_of v)

  -- the files below the staging directories, by their path
  unfoldable pub stage :
      Verdict → ℕ → String → Bytes → Dict String Bytes → Dict String Bytes × Result ℕ
  unfolding stage_dir_for_ring stage_at
  stage accepted ring name copied staged = stage_at (stage_dir_for_ring ring) name copied staged
  stage _ ring name copied staged = (staged, ok 1)

  unfoldable pub stage_if :
      Result Verdict → ℕ → String → Bytes → Dict String Bytes → Dict String Bytes × Result ℕ
  unfolding stage
  stage_if raised ring name copied staged = (staged, raised)
  stage_if (ok v) ring name copied staged = stage v ring name copied staged

  -- `cmd_import`: the bundle is read to be verified, and again to be copied
  unfoldable pub cmd_import :
      Bytes → Bytes → ℕ → String → Bytes → Dict String Bytes → Dict String Bytes × Result ℕ
  unfolding verify_bundle stage_if
  cmd_import verified pubkey ring name copied staged =
      stage_if (verify_bundle tools verified pubkey) ring name copied staged
