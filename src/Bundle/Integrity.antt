-- ===== src/Bundle/Integrity.antt =====
-- A bundle that is accepted has the files of its manifest.
use airgap_videowall.Values.Equality.{same_value}
use airgap_videowall.Prelude.{
  String, ◌≡◌, refl, inl, inr, true, false, List, if◌then◌else◌, Bool-cases, ◌==◌, eq_of_beq,
  string_eq, some, sym, In, ◌∙◌, ap, ◌∷◌, here, there, [],
}
use airgap_videowall.Values.{
  Value, Fields, list, nil, end, field, get_field, has_field, str, obj, values,
}
use airgap_videowall.Bundle.Archive.{
  Tools, Archive, Bytes, ok, verify_sig, manifest_digest, manifest_for, sha256_file, file_entries,
  file_entry, Dir, file, of_option, ◌>>=◌,
}
use airgap_videowall.Bundle.Verify.{
  accepted, mapping, without, check_manifest, listed, check_files, verify_bundle, read_entry,
  signature_invalid, check_archive, look, check_loaded,
}
use airgap_videowall.Bundle.Accepts.{>>=-inv, if-accepted, check_files-inv}

pub get_field-without :
    (k j : String) (fs : Fields)
    → (k == j) ≡ false
    → (get_field (without k fs) j ≡ get_field fs j) × (has_field (without k fs) j ≡ has_field fs j)
unfolding without get_field has_field
get_field-without k j end d = (refl, refl)
get_field-without k j (field i v fs) d = elim (Bool-cases (i == k)) [
  | inl e ↦
      let same = eq_of_beq i k e in
      let apart : (i == j) ≡ false = rw same d in rw (e, apart) (get_field-without k j fs d)
  | inr e ↦ elim (Bool-cases (i == j)) [
    | inl f ↦ rw (e, without, get_field, has_field, f) (refl, refl)
    | inr f ↦ rw (e, without, get_field, has_field, f) (get_field-without k j fs d)
  ]
]

module _ (tools : Tools) where
  -- What was read and found when a bundle is accepted.
  pub record IsAccepted (a : Archive) (m : Fields) (pubkey : Bytes) : Type 0 where
    pub siginfo : Fields
    pub signature : mapping tools (get_field m "signature") ≡ ok siginfo
    pub valid :
        verify_sig tools (manifest_digest tools (without "signature" m)) siginfo pubkey ≡ ok true
    pub files : List Value
    pub listing :
        listed tools (if has_field m "files" then get_field m "files" else list nil) ≡ ok files
    pub checked : check_files tools a files ≡ ok accepted

  pub check_manifest-inv :
      (a : Archive) (m : Fields) (pubkey : Bytes)
      → check_manifest tools a m pubkey ≡ ok accepted
      → IsAccepted a m pubkey
  unfolding check_manifest
  check_manifest-inv a m pubkey h =
      let (siginfo, signature, h1) = >>=-inv (mapping tools (get_field m "signature")) _ h in
      let (valid, sig, h2) =
        >>=-inv (verify_sig tools (manifest_digest tools (without "signature" m)) siginfo pubkey) _
          h1 in
      let (is_valid, h3) = if-accepted valid _ signature_invalid (λ q. cc) h2 in
      let (files, listing, checked) =
        >>=-inv (listed tools (if has_field m "files" then get_field m "files" else list nil)) _
          h3 in
      record {
        siginfo = siginfo;
        signature = signature;
        valid = sig ∙ ap ok is_valid;
        files = files;
        listing = listing;
        checked = checked;
      }

  pub check_manifest_of :
      (a : Archive) (m : Fields) (pubkey : Bytes)
      → IsAccepted a m pubkey
      → check_manifest tools a m pubkey ≡ ok accepted
  unfolding check_manifest
  check_manifest_of a m pubkey h = rw (h.signature, h.valid, h.listing) h.checked

  pub verify_bundle-inv :
      (bundle pubkey : Bytes) (a : Archive) (text : String) (m : Fields)
      → tools.unpack bundle ≡ some a
      → a.manifest ≡ some text
      → tools.loads text ≡ some (obj m)
      → verify_bundle tools bundle pubkey ≡ check_manifest tools a m pubkey
  unfolding verify_bundle check_archive check_loaded
  verify_bundle-inv bundle pubkey a text m u t l =
      ap (λ o. of_option o >>= λ a. check_archive tools a a.manifest pubkey) u
      ∙ (ap (λ o. check_archive tools a o pubkey) t ∙ ap (λ o. check_loaded tools a o pubkey) l)

file_entries-In :
    (tools : Tools) (d : Dir) (f : String × Bytes)
    → In f d
    → In (file_entry tools f) (values (file_entries tools d))
unfolding file_entries
file_entries-In tools [] f m = elim m [ ]
file_entries-In tools (g ∷ d) f (here e) = here (ap (file_entry tools) e)
file_entries-In tools (g ∷ d) f (there m) = there (file_entries-In tools d f m)

pub read_entry-file :
    (tools : Tools) (f : String × Bytes)
    → read_entry tools (file_entry tools f) ≡ ok (f.0, str (sha256_file tools f.1))
unfolding read_entry file_entry has_field get_field
read_entry-file tools f = refl

manifest_files :
    (tools : Tools) (config_dir : String) (d : Dir) (m : Fields)
    → without "signature" m ≡ manifest_for tools config_dir d
    → (has_field m "files" ≡ true) × (get_field m "files" ≡ list (file_entries tools d))
unfolding manifest_for has_field get_field
manifest_files tools config_dir d m e =
    let (g, h) = get_field-without "signature" "files" m refl in
    (sym h ∙ ap (λ fs. has_field fs "files") e, sym g ∙ ap (λ fs. get_field fs "files") e)

module _ (tools : Tools) where
  -- If `verify_bundle` accepts a bundle whose manifest, without its signature, is that of a
  -- directory, then every file of the directory is in the bundle with its content, unless what the
  -- bundle has under its path is another content with the same SHA-256.
  pub verify_bundle-HasFiles :
      (bundle pubkey : Bytes) (a : Archive) (text : String) (m : Fields) (config_dir : String)
      (d : Dir) (path : String) (content : Bytes)
      → tools.unpack bundle ≡ some a
      → a.manifest ≡ some text
      → tools.loads text ≡ some (obj m)
      → without "signature" m ≡ manifest_for tools config_dir d
      → verify_bundle tools bundle pubkey ≡ ok accepted
      → In (path, content) d
      → ((found : Bytes)
          → look tools a path ≡ file found
          → sha256_file tools found ≡ sha256_file tools content
          → found ≡ content)
      → look tools a path ≡ file content
  unfolding listed same_value
  verify_bundle-HasFiles bundle pubkey a text m config_dir d path content u t l e h member
        no_collision =
      let acc =
        check_manifest-inv tools a m pubkey
          (sym (verify_bundle-inv tools bundle pubkey a text m u t l) ∙ h) in
      let (has, is) = manifest_files tools config_dir d m e in
      let read : ok acc.files ≡ ok (values (file_entries tools d)) =
        sym acc.listing ∙ (rw (has, is) refl) in
      let files : acc.files ≡ values (file_entries tools d) = cc read in
      let matches =
        check_files-inv tools a acc.files (file_entry tools (path, content))
          (path, str (sha256_file tools content)) acc.checked
          (rw files (file_entries-In tools d (path, content) member))
          (read_entry-file tools (path, content)) in
      let same =
        eq_of_beq (sha256_file tools matches.content) (sha256_file tools content) matches.hashed in
      matches.found ∙ ap file (no_collision matches.content matches.found same)
