-- ===== src/Bundle/Archive.antt =====
-- tools/bundlectl/bundlectl.py: the manifest of a directory, its signature and the check of both. A
-- text stands for bytes. SHA-256, HMAC, PyNaCl, JSON's text, hexadecimal digits and the compressed
-- archive are parameters.
use Prim.Native.Char.{code}
use airgap_videowall.Prelude.{
  ℕ, suc, String, Bool, true, false, Option, none, some, [], ◌∷◌, ltb, if◌then◌else◌, ◌==◌, nat_eq,
  string_eq,
}
use airgap_videowall.Prelude.Dict.{Dict}
use airgap_videowall.Values.{
  Value, Items, Fields, num, str, list, obj, nil, cons, end, field, get_field, has_field, pos,
}
use airgap_videowall.Values.Equality.{same_value}

abbrev pub Bytes : Type 0
Bytes = String

-- A directory by its files: the path below it, and the content.
abbrev pub Dir : Type 0
Dir = Dict String Bytes

-- An archive that is unpacked: `manifest.json`, and the files below `config`.
pub record Archive : Type 0 where
  pub manifest : Option String
  pub config : Dir

-- What a path names.
pub data Found : Type 0 where
  missing : Found
  file : Bytes → Found
  directory : Found

pub record Tools : Type 0 where
  pub sha256 : Bytes → Bytes
  pub hmac : Bytes → Bytes → Bytes
  pub hex : Bytes → String
  pub fromhex : String → Option Bytes
  -- `json.dumps` with sorted keys, and with an indent; `json.loads`
  pub canonical : Value → String
  pub dumps : Value → String
  pub loads : String → Option Value
  -- PyNaCl, `none` where it raises on the key
  pub have_pynacl : Bool
  pub nacl_sign : Bytes → Bytes → Option Bytes
  pub nacl_verify : Bytes → Bytes → Bytes → Option Bool
  -- tar and zstd, `none` where they raise
  pub pack : Archive → Option Bytes
  pub unpack : Bytes → Option Archive
  -- what a path below `config` names that is the path of no file
  pub names : Archive → String → Found

-- A result, or an exception that ends the command.
pub data Result (A : Type 0) : Type 0 where
  ok : A → Result A
  raised : Result A

infixl 5 ◌>>=◌
abbrev pub ◌>>=◌ : {A B : Type 0} → Result A → (A → Result B) → Result B
ok a >>= f = f a
raised >>= f = raised

abbrev pub of_option : {A : Type 0} → Option A → Result A
of_option none = raised
of_option (some a) = ok a

-- the order of paths, which compares their parts
unfoldable pub path_before : String → String → Bool
path_before String.[] String.[] = false
path_before String.[] (String.◌∷◌ d t) = true
path_before (String.◌∷◌ c s) String.[] = false
path_before (String.◌∷◌ c s) (String.◌∷◌ d t) =
    let rest = path_before s t in
    if code c == code d
    then rest
    else if code c == b'/'
    then true
    else if code d == b'/'
    then false
    else ltb (code c) (code d)

unfoldable pub insert_file : String × Bytes → Dir → Dir
unfolding path_before
insert_file f [] = f ∷ []
insert_file f (g ∷ d) = if path_before f.0 g.0 then f ∷ g ∷ d else g ∷ insert_file f d

-- `collect_files`, with the content of the files
unfoldable pub collect_files : Dir → Dir
unfolding insert_file
collect_files [] = []
collect_files (f ∷ d) = insert_file f (collect_files d)

-- p.stat().st_size
unfoldable pub size_of : Bytes → ℕ
size_of String.[] = 0
size_of (String.◌∷◌ c s) = suc (size_of s)

module _ (tools : Tools) where
  -- `sha256_file`
  unfoldable pub sha256_file : Bytes → String
  sha256_file content = tools.hex (tools.sha256 content)

  unfoldable pub file_entry : String × Bytes → Value
  unfolding sha256_file size_of
  file_entry f = obj (
      field "path" (str f.0)
        (field "sha256" (str (sha256_file f.1)) (field "size" (num (pos (size_of f.1))) end)))

  unfoldable pub file_entries : Dir → Items
  unfolding file_entry
  file_entries [] = nil
  file_entries (f ∷ d) = cons (file_entry f) (file_entries d)

  -- `manifest_for`
  unfoldable pub manifest_for : String → Dir → Fields
  unfolding file_entries
  manifest_for config_dir files =
      field "version" (num (pos 1))
        (field "config_dir" (str config_dir) (field "files" (list (file_entries files)) end))

  -- `manifest_digest`
  unfoldable pub manifest_digest : Fields → Bytes
  manifest_digest manifest = tools.sha256 (tools.canonical (obj manifest))

  -- `sign_digest`
  unfoldable pub sign_digest : Bytes → Bytes → Result Fields
  sign_digest digest privkey =
      let signed =
        of_option (tools.nacl_sign privkey digest)
        >>= (λ sig. ok (field "alg" (str "ed25519") (field "sig" (str (tools.hex sig)) end))) in
      if tools.have_pynacl
      then signed
      else ok (
          field "alg" (str "hmac-sha256-DEV")
            (field "sig" (str (tools.hex (tools.hmac privkey digest))) end))

  unfoldable pub from_hex : Value → Result Bytes
  from_hex (str s) = of_option (tools.fromhex s)
  from_hex _ = raised

  unfoldable pub check_alg : Bytes → Value → Bytes → Bytes → Result Bool
  unfolding same_value
  check_alg digest alg sig pubkey =
      if same_value (str "ed25519") alg
      then (if tools.have_pynacl then of_option (tools.nacl_verify pubkey digest sig) else raised)
      else if same_value (str "hmac-sha256-DEV") alg
      then ok (tools.hmac pubkey digest == sig)
      else raised

  -- `verify_sig`
  unfoldable pub verify_sig : Bytes → Fields → Bytes → Result Bool
  unfolding from_hex check_alg
  verify_sig digest siginfo pubkey = do
    sig ← from_hex (if has_field siginfo "sig" then get_field siginfo "sig" else str "")
    check_alg digest (get_field siginfo "alg") sig pubkey
