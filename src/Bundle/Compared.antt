-- ===== src/Bundle/Compared.antt =====
-- When `diff` reports nothing.
use airgap_videowall.Reconcile.Sorting.{In-sorted_set}
use airgap_videowall.Bundle.Export.{of_option-inv, In-collect_files, collect_files-In}
use airgap_videowall.Prelude.{
  String, ◌≡◌, refl, sym, ap, ◌∙◌, subst, ◌↔◌, ◌⊎◌, inl, inr, true, false, Option, none, some, List,
  [], ◌∷◌, ◌++◌, arith, if◌then◌else◌, Bool-cases, ◌==◌, string_eq, beq_self, eq_of_beq, In, here,
  there, append-eq-nil, In-append_left, In-append_right,
}
use airgap_videowall.Prelude.Dict.{Dict, get, keys}
use airgap_videowall.Values.{Value, null}
use airgap_videowall.Values.Equality.{same_value}
use airgap_videowall.Bundle.Archive.{
  Tools, Bytes, Found, file, ok, of_option, sha256_file, Archive, Dir, missing, collect_files,
  directory,
}
use airgap_videowall.Bundle.Accepts.{>>=-inv}
use airgap_videowall.Bundle.Diff.{
  diff_keys, value_at, is_yaml, flat, diff_yaml, all_keys, exit_of, diff_files, diff_found,
  cmd_diff, or_null, changed_binary, Difference, diff_content,
}

-- The two documents give equal values under every key of the flat maps, where a missing one is null.
abbrev pub SameValues : Dict String Value → Dict String Value → Type 0
SameValues bmap cmap = (k : String) → same_value (value_at bmap k) (value_at cmap k) ≡ true

get-keys : (d : Dict String Value) (k : String) → (get d k ≡ none) ⊎ In k (keys d)
unfolding get
get-keys [] k = inl refl
get-keys ((j, v) ∷ d) k = elim (Bool-cases (j == k)) [
  | inl e ↦ inr (here (sym (eq_of_beq j k e)))
  | inr e ↦ elim (get-keys d k) [ inl n ↦ inl (rw e n) | inr m ↦ inr (there m) ]
]

value_at-none : (d : Dict String Value) (k : String) → get d k ≡ none → value_at d k ≡ null
unfolding value_at
value_at-none d k e = ap or_null e

module _ (rel : String) (bmap cmap : Dict String Value) where
  diff_keys-nil :
      (ks : List String) (k : String)
      → diff_keys rel bmap cmap ks ≡ []
      → In k ks
      → same_value (value_at bmap k) (value_at cmap k) ≡ true
  unfolding diff_keys
  diff_keys-nil [] k h m = absurd (elim m [ ])
  diff_keys-nil (j ∷ ks) k h m =
      elim (Bool-cases (same_value (value_at bmap j) (value_at cmap j))) [
        | inl e ↦ elim m [ here q ↦ rw q e | there n ↦ diff_keys-nil ks k (rw e at h) n ]
        | inr e ↦ absurd (let h' = (rw e at h) in cc h')
      ]

  nil-diff_keys : (ks : List String) → SameValues bmap cmap → diff_keys rel bmap cmap ks ≡ []
  unfolding diff_keys
  nil-diff_keys [] h = refl
  nil-diff_keys (k ∷ ks) h = rw (h k) (nil-diff_keys ks h)

  diff_keys-SameValues : diff_keys rel bmap cmap (all_keys bmap cmap) ≡ [] → SameValues bmap cmap
  unfolding same_value
  diff_keys-SameValues h k =
      let listed = λ (m : In k (keys bmap ++ keys cmap)).
        diff_keys-nil (all_keys bmap cmap) k h (In-sorted_set k (keys bmap ++ keys cmap) m) in
      elim (get-keys bmap k) [
        | inr m ↦ listed (In-append_left k (keys bmap) (keys cmap) m)
        | inl b ↦ elim (get-keys cmap k) [
          | inr m ↦ listed (In-append_right k (keys bmap) (keys cmap) m)
          | inl c ↦ rw (value_at-none bmap k b, value_at-none cmap k c) refl
        ]
      ]

same_hash_of :
    (tools : Tools) (rel : String) (content theirs : Bytes)
    → ok (
        if sha256_file tools content == sha256_file tools theirs
        then []
        else changed_binary rel ∷ [])
      ≡ ok []
    → sha256_file tools content ≡ sha256_file tools theirs
same_hash_of tools rel content theirs h =
    elim (Bool-cases (sha256_file tools content == sha256_file tools theirs)) [
      | inl e ↦ eq_of_beq (sha256_file tools content) (sha256_file tools theirs) e
      | inr e ↦ absurd (let h' = (rw e at h) in cc h')
    ]

module _ (tools : Tools) (safe_load : Bytes → Option Value) (local : String → Found) where
  -- A YAML file of the bundle and the local one, by what the parser gives of them.
  pub record SameYaml (content theirs : Bytes) : Type 0 where
    pub bdoc : Value
    pub cdoc : Value
    pub bundled : safe_load content ≡ some bdoc
    pub present : safe_load theirs ≡ some cdoc
    pub same : SameValues (flat bdoc) (flat cdoc)

  -- A file of the bundle agrees with the local one.
  pub record Agrees (rel : String) (content : Bytes) : Type 0 where
    pub theirs : Bytes
    pub found : local rel ≡ file theirs
    pub yaml : is_yaml rel ≡ true → SameYaml content theirs
    pub binary : is_yaml rel ≡ false → sha256_file tools content ≡ sha256_file tools theirs

  diff_yaml-nil :
      (rel : String) (content theirs : Bytes)
      → diff_yaml tools safe_load local rel content theirs ≡ ok []
      → SameYaml content theirs
  unfolding diff_yaml
  diff_yaml-nil rel content theirs h =
      let (b, bq, h1) = >>=-inv (of_option (safe_load content)) _ h in
      let (c, cq, h2) = >>=-inv (of_option (safe_load theirs)) _ h1 in
      record {
        bdoc = b;
        cdoc = c;
        bundled = of_option-inv (safe_load content) bq;
        present = of_option-inv (safe_load theirs) cq;
        same = diff_keys-SameValues rel (flat b) (flat c) (cc h2);
      }

  diff_yaml_of :
      (rel : String) (content theirs : Bytes)
      → SameYaml content theirs
      → diff_yaml tools safe_load local rel content theirs ≡ ok []
  unfolding diff_yaml
  diff_yaml_of rel content theirs y =
      rw (y.bundled, y.present)
        (ap ok (
          nil-diff_keys rel (flat y.bdoc) (flat y.cdoc) (all_keys (flat y.bdoc) (flat y.cdoc))
            y.same))

  diff_found-nil :
      (f : Found) (rel : String) (content : Bytes)
      → local rel ≡ f
      → diff_found tools safe_load local rel content f ≡ ok []
      → Agrees rel content
  unfolding diff_found diff_content
  diff_found-nil missing rel content e h = absurd (cc h)
  diff_found-nil directory rel content e h = absurd (cc h)
  diff_found-nil (file theirs) rel content e h = record {
    theirs = theirs;
    found = e;
    yaml = λ y. diff_yaml-nil rel content theirs (rw y at h);
    binary = λ n. same_hash_of tools rel content theirs (rw n at h);
  }

  diff_found_of :
      (rel : String) (content : Bytes)
      → Agrees rel content
      → diff_found tools safe_load local rel content (local rel) ≡ ok []
  unfolding diff_found diff_content
  diff_found_of rel content a = rw a.found (elim (Bool-cases (is_yaml rel)) [
    | inl y ↦ rw y (diff_yaml_of rel content a.theirs (a.yaml y))
    | inr n ↦ rw (n, a.binary n, beq_self (sha256_file tools a.theirs)) refl
  ])

  diff_files-nil :
      (d : Dir) (g : String × Bytes)
      → diff_files tools safe_load local d ≡ ok []
      → In g d
      → Agrees g.0 g.1
  unfolding diff_files
  diff_files-nil [] g h m = absurd (elim m [ ])
  diff_files-nil ((rel, content) ∷ d) g h m =
      let (first, q, h1) = >>=-inv (diff_found tools safe_load local rel content (local rel)) _ h in
      let (rest, r, h2) = >>=-inv (diff_files tools safe_load local d) _ h1 in
      let (none_first, none_rest) = append-eq-nil first rest (cc h2) in
      elim m [
        | here e ↦
            subst (λ (x : String × Bytes). Agrees x.0 x.1) (sym e)
              (diff_found-nil (local rel) rel content refl (q ∙ ap ok none_first))
        | there n ↦ diff_files-nil d g (r ∙ ap ok none_rest) n
      ]

  diff_files_of :
      (d : Dir)
      → ((g : String × Bytes) → In g d → Agrees g.0 g.1)
      → diff_files tools safe_load local d ≡ ok []
  unfolding diff_files
  diff_files_of [] h = refl
  diff_files_of ((rel, content) ∷ d) h =
      rw
        (
          diff_found_of rel content (h (rel, content) (here refl)),
          diff_files_of d (λ g m. h g (there m)),
        )
        refl

  exit_of-zero : (ds : List Difference) → ok (exit_of tools safe_load local ds) ≡ ok 0 → ds ≡ []
  unfolding exit_of
  exit_of-zero [] h = refl
  exit_of-zero (d ∷ ds) h = absurd (ground (arith, h))

  -- `diff` exits with 0 exactly if every file of the bundle has a local one that agrees with it: with
  -- the same SHA-256, or, for a YAML file, with equal values under every key of the flat maps, where
  -- a missing key counts as null. What is there only locally does not count.
  pub cmd_diff-zero_iff :
      (bundle : Bytes) (a : Archive)
      → tools.unpack bundle ≡ some a
      → (cmd_diff tools safe_load local bundle ≡ ok 0)
        ↔ ((g : String × Bytes) → In g a.config → Agrees g.0 g.1)
  unfolding cmd_diff
  cmd_diff-zero_iff bundle a u = (
    λ h g m.
        let (ds, q, e) =
          >>=-inv (diff_files tools safe_load local (collect_files a.config)) _ (rw u at h) in
        diff_files-nil (collect_files a.config) g (q ∙ ap ok (exit_of-zero ds e))
          (In-collect_files g a.config m),
    λ h.
        rw (u, diff_files_of (collect_files a.config) (λ g m. h g (collect_files-In g a.config m)))
          refl,
  )
