-- ===== src/Bundle/Export.antt =====
-- A bundle that is exported is accepted.
use airgap_videowall.Bundle.Integrity.{
  read_entry-file, verify_bundle-inv, IsAccepted, check_manifest_of,
}
use airgap_videowall.Bundle.Verify.{
  check_files, check_manifest, without, look, check_found, mapping, listed, accepted, verify_bundle,
  found_of,
}
use airgap_videowall.Bundle.Accepts.{>>=-inv}
use airgap_videowall.Bundle.Commands.{cmd_export, signed_manifest, append_field}
use airgap_videowall.Values.Equality.{same_value}
use airgap_videowall.Values.{Fields, field, has_field, get_field, str, end, obj, values}
use airgap_videowall.Prelude.{
  String, ◌≡◌, refl, ◌∙◌, inl, inr, none, some, [], ◌∷◌, if◌then◌else◌, Bool-cases, ◌==◌, In, here,
  there, string_eq, subst, Option, arith, eq_iff, true, sym, beq_self, false, eq_of_beq, ap,
}
use airgap_videowall.Prelude.Dict.{get}
use airgap_videowall.Bundle.Archive.{
  Bytes, Dir, insert_file, collect_files, path_before, Tools, sign_digest, verify_sig, of_option,
  ok, check_alg, from_hex, Archive, manifest_for, ◌>>=◌, file_entries, manifest_digest, sha256_file,
  Result, file,
}

-- A directory has one file of a path.
abbrev pub IsDir : Dir → Type 0
IsDir [] = Unit
IsDir ((path, content) ∷ d) = (get d path ≡ none) × IsDir d

get-insert_file :
    (f : String × Bytes) (d : Dir) (k : String)
    → get d f.0 ≡ none
    → get (insert_file f d) k ≡ (if f.0 == k then some f.1 else get d k)
unfolding insert_file get
get-insert_file f [] k h = refl
get-insert_file f ((p, c) ∷ d) k h = elim (Bool-cases (path_before f.0 p)) [
  | inl e ↦ rw e refl
  | inr e ↦ rw e (ground (arith, eq_iff p k, eq_iff f.0 k, eq_iff p f.0, get-insert_file f d k))
]

get-collect_files : (d : Dir) (k : String) → IsDir d → get (collect_files d) k ≡ get d k
unfolding collect_files get
get-collect_files [] k h = refl
get-collect_files ((p, c) ∷ d) k (h, hs) =
    get-insert_file (p, c) (collect_files d) k (get-collect_files d p hs ∙ h)
    ∙ rw (get-collect_files d k hs) refl

past :
    (f g x : String × Bytes) (d : Dir)
    → In g (x ∷ insert_file f d)
    → (In g (insert_file f d) → In g (f ∷ d))
    → In g (f ∷ x ∷ d)
past f g x d (here e) ih = there (here e)
past f g x d (there m) ih = elim (ih m) [ here e ↦ here e | there n ↦ there (there n) ]

insert_file-In : (f g : String × Bytes) (d : Dir) → In g (insert_file f d) → In g (f ∷ d)
unfolding insert_file
insert_file-In f g [] m = m
insert_file-In f g (x ∷ d) m = elim (Bool-cases (path_before f.0 x.0)) [
  | inl e ↦ rw e at m
  | inr e ↦ past f g x d (rw e at m) (insert_file-In f g d)
]

pub collect_files-In : (g : String × Bytes) (d : Dir) → In g (collect_files d) → In g d
unfolding collect_files
collect_files-In g [] m = m
collect_files-In g (f ∷ d) m = elim (insert_file-In f g (collect_files d) m) [
  | here e ↦ here e
  | there n ↦ there (collect_files-In g d n)
]

In-insert_file : (f g : String × Bytes) (d : Dir) → In g (f ∷ d) → In g (insert_file f d)
unfolding insert_file
In-insert_file f g [] m = m
In-insert_file f g (x ∷ d) m = elim (Bool-cases (path_before f.0 x.0)) [
  | inl e ↦ rw e m
  | inr e ↦ rw e (elim m [
    | here q ↦ there (In-insert_file f g d (here q))
    | there (here q) ↦ here q
    | there (there n) ↦ there (In-insert_file f g d (there n))
  ])
]

pub In-collect_files : (g : String × Bytes) (d : Dir) → In g d → In g (collect_files d)
unfolding collect_files
In-collect_files g [] m = m
In-collect_files g (f ∷ d) (here e) = In-insert_file f g (collect_files d) (here e)
In-collect_files g (f ∷ d) (there m) =
    In-insert_file f g (collect_files d) (there (In-collect_files g d m))

get-In : (d : Dir) (g : String × Bytes) → IsDir d → In g d → get d g.0 ≡ some g.1
unfolding get
get-In [] g h m = elim m [ ]
get-In ((p, c) ∷ d) g (h, hs) (here e) =
    subst (λ (x : String × Bytes). get ((p, c) ∷ d) x.0 ≡ some x.1) (sym e) (rw (beq_self p) refl)
get-In ((p, c) ∷ d) g (h, hs) (there m) = elim (Bool-cases (p == g.0)) [
  | inl e ↦ let same = eq_of_beq p g.0 e in absurd (cc (get-In d g hs m, h, same))
  | inr e ↦ rw e (get-In d g hs m)
]

-- The keys fit together, and hexadecimal digits read back.
pub record Fits (tools : Tools) (privkey pubkey : Bytes) (digest : Bytes) : Type 0 where
  pub hexes : (b : Bytes) → tools.fromhex (tools.hex b) ≡ some b
  pub signed :
      (sig : Bytes)
      → tools.nacl_sign privkey digest ≡ some sig
      → tools.nacl_verify pubkey digest sig ≡ some true
  pub shared : tools.have_pynacl ≡ false → pubkey ≡ privkey

pub of_option-inv : {A : Type 0} (o : Option A) {a : A} → of_option o ≡ ok a → o ≡ some a
of_option-inv none h = absurd (cc)
of_option-inv (some a) h = cc

module _ (tools : Tools) (privkey pubkey digest : Bytes)
    (fits : Fits tools privkey pubkey digest) where
  sig_info : String → Bytes → Fields
  sig_info alg sig = field "alg" (str alg) (field "sig" (str (tools.hex sig)) end)

  verify_sig-read :
      (alg : String) (sig : Bytes)
      → verify_sig tools digest (sig_info alg sig) pubkey
        ≡ check_alg tools digest (str alg) sig pubkey
  unfolding verify_sig sig_info has_field get_field from_hex
  verify_sig-read alg sig = rw (fits.hexes sig) refl

  verify_sig-sign_digest :
      (siginfo : Fields)
      → sign_digest tools digest privkey ≡ ok siginfo
      → verify_sig tools digest siginfo pubkey ≡ ok true
  unfolding sign_digest check_alg same_value sig_info
  verify_sig-sign_digest siginfo h = elim (Bool-cases tools.have_pynacl) [
    | inl e ↦
        let h' : (of_option (tools.nacl_sign privkey digest) >>= λ sig. ok (sig_info "ed25519" sig))
            ≡ ok siginfo =
          rw e at h in
        let (sig, made, is) =
          >>=-inv (of_option (tools.nacl_sign privkey digest)) (λ sig. ok (sig_info "ed25519" sig))
            h' in
        let same : sig_info "ed25519" sig ≡ siginfo = cc is in
        let valid = fits.signed sig (of_option-inv (tools.nacl_sign privkey digest) made) in
        let checked : check_alg tools digest (str "ed25519") sig pubkey ≡ ok true =
          rw (e, valid) refl in
        subst (λ fs. verify_sig tools digest fs pubkey ≡ ok true) same
          (verify_sig-read "ed25519" sig ∙ checked)
    | inr e ↦
        let sig = tools.hmac privkey digest in
        let h' : ok (sig_info "hmac-sha256-DEV" sig) ≡ ok siginfo = rw e at h in
        let same : sig_info "hmac-sha256-DEV" sig ≡ siginfo = cc h' in
        let checked : check_alg tools digest (str "hmac-sha256-DEV") sig pubkey ≡ ok true =
          rw (fits.shared e, beq_self sig) refl in
        subst (λ fs. verify_sig tools digest fs pubkey ≡ ok true) same
          (verify_sig-read "hmac-sha256-DEV" sig ∙ checked)
  ]

module _ (tools : Tools) (a : Archive) where
  look-get : (rel : String) (c : Bytes) → get a.config rel ≡ some c → look tools a rel ≡ file c
  unfolding look
  look-get rel c e = ap (λ o. found_of o (tools.names a rel)) e

  check_files-entries :
      (d : Dir)
      → ((g : String × Bytes) → In g d → get a.config g.0 ≡ some g.1)
      → check_files tools a (values (file_entries tools d)) ≡ ok accepted
  unfolding check_files file_entries check_found same_value
  check_files-entries [] h = refl
  check_files-entries (g ∷ d) h =
      let rest = check_files-entries d (λ x m. h x (there m)) in
      rw
        (
          read_entry-file tools g,
          look-get g.0 g.1 (h g (here refl)),
          beq_self (sha256_file tools g.1),
        )
        rest

module _ (tools : Tools) (config_dir : String) (d : Dir) (privkey pubkey : Bytes) where
  abbrev manifest : Fields
  manifest = manifest_for tools config_dir (collect_files d)

  abbrev exported : Fields → Archive
  exported siginfo = record {
    manifest = some (tools.dumps (obj (append_field manifest "signature" (obj siginfo))));
    config = collect_files d;
  }

  -- A directory that is exported with a key is accepted by `verify_bundle` with the key that belongs
  -- to it, if the archive unpacks to what was packed, the manifest's text reads back, hexadecimal
  -- digits read back, and the key verifies what its partner signed.
  pub verify_bundle-cmd_export :
      (siginfo : Fields) (bundle : Bytes)
      → IsDir d
      → Fits tools privkey pubkey (manifest_digest tools manifest)
      → sign_digest tools (manifest_digest tools manifest) privkey ≡ ok siginfo
      → tools.loads (tools.dumps (obj (append_field manifest "signature" (obj siginfo))))
        ≡ some (obj (append_field manifest "signature" (obj siginfo)))
      → tools.pack (exported siginfo) ≡ some bundle
      → tools.unpack bundle ≡ some (exported siginfo)
      → (cmd_export tools config_dir d privkey ≡ ok bundle)
        × (verify_bundle tools bundle pubkey ≡ ok accepted)
  unfolding cmd_export signed_manifest check_manifest append_field manifest_for without mapping
      listed has_field get_field
  verify_bundle-cmd_export siginfo bundle is_dir fits signed back packed unpacked =
      let files = collect_files d in
      let there_is : (g : String × Bytes) → In g files → get files g.0 ≡ some g.1 =
        λ g m. get-collect_files d g.0 is_dir ∙ get-In d g is_dir (collect_files-In g d m) in
      let full = append_field manifest "signature" (obj siginfo) in
      let written =
        ap (λ (r : Result Fields). (r >>= λ si. ok (exported si)) >>= λ a. of_option (tools.pack a))
          signed
        ∙ ap of_option packed in
      let checked : IsAccepted tools (exported siginfo) full pubkey = record {
        siginfo = siginfo;
        signature = refl;
        valid =
            verify_sig-sign_digest tools privkey pubkey (manifest_digest tools manifest) fits
              siginfo signed;
        files = values (file_entries tools files);
        listing = refl;
        checked = check_files-entries tools (exported siginfo) files there_is;
      } in
      (
        written,
        verify_bundle-inv tools bundle pubkey (exported siginfo) _ full unpacked refl back
            ∙ check_manifest_of tools (exported siginfo) full pubkey checked,
      )
