-- ===== src/Bundle/Accepts.antt =====
-- What the check of a bundle says of its files.
use airgap_videowall.Prelude.{
  String, ◌≡◌, refl, sym, ap, ◌∙◌, subst, Bool, true, false, List, [], ◌∷◌, if◌then◌else◌, In, here,
  there,
}
use airgap_videowall.Values.{Value, str}
use airgap_videowall.Values.Equality.{same_value}
use airgap_videowall.Bundle.Archive.{
  Tools, Archive, Bytes, Found, missing, file, directory, Result, ok, raised, ◌>>=◌, sha256_file,
}
use airgap_videowall.Bundle.Verify.{
  Verdict, accepted, check_found, look, read_entry, check_files, hash_mismatch,
}

-- Of two commands in sequence that end without an exception, both do.
pub >>=-inv :
    {S T : Type 0} (first : Result S) (then_do : S → Result T) {end_value : T}
    → (first >>= then_do) ≡ ok end_value
    → (mid : S) × (first ≡ ok mid) × (then_do mid ≡ ok end_value)
>>=-inv raised then_do h = absurd (cc)
>>=-inv (ok mid) then_do h = (mid, refl, h)

pub if-accepted :
    (b : Bool) (r : Result Verdict) (v : Verdict)
    → ¬ (v ≡ accepted)
    → (if b then r else ok v) ≡ ok accepted
    → (b ≡ true) × (r ≡ ok accepted)
if-accepted true r v d h = (refl, h)
if-accepted false r v d h = absurd (d (cc h))

module _ (tools : Tools) (a : Archive) where
  -- An entry of the manifest whose file is there with the hash of the entry.
  pub record Matches (rel : String) (expected : Value) : Type 0 where
    pub content : Bytes
    pub found : look tools a rel ≡ file content
    pub hashed : same_value (str (sha256_file tools content)) expected ≡ true

  check_found-inv :
      (f : Found) (rel : String) (expected : Value) (rest : Result Verdict)
      → look tools a rel ≡ f
      → check_found tools f rel expected rest ≡ ok accepted
      → Matches rel expected × (rest ≡ ok accepted)
  unfolding check_found
  check_found-inv missing rel expected rest e h = absurd (cc)
  check_found-inv directory rel expected rest e h = absurd (cc)
  check_found-inv (file content) rel expected rest e h =
      let (same, rest_is) =
        if-accepted (same_value (str (sha256_file tools content)) expected) rest (hash_mismatch rel)
          (λ q. cc) h in
      (record { content = content; found = e; hashed = same }, rest_is)

  -- Every entry was read and matches.
  pub AllMatch : List Value → Type 0
  AllMatch fs =
      (f : Value) (e : String × Value) → In f fs → read_entry tools f ≡ ok e → Matches e.0 e.1

  pub check_files-inv :
      (fs : List Value) (f : Value) (e : String × Value)
      → check_files tools a fs ≡ ok accepted
      → In f fs
      → read_entry tools f ≡ ok e
      → Matches e.0 e.1
  unfolding check_files
  check_files-inv [] f e h m r = absurd (elim m [ ])
  check_files-inv (g ∷ gs) f e h m r =
      let (e', r', h') =
        >>=-inv (read_entry tools g)
          (λ e. check_found tools (look tools a e.0) e.0 e.1 (check_files tools a gs)) h in
      let (matches, rest) =
        check_found-inv (look tools a e'.0) e'.0 e'.1 (check_files tools a gs) refl h' in
      elim m [
        | here q ↦
            let same : ok e' ≡ ok e = sym r' ∙ (sym (ap (read_entry tools) q) ∙ r) in
            subst (λ (x : String × Value). Matches x.0 x.1) (cc same) matches
        | there n ↦ check_files-inv gs f e rest n r
      ]
