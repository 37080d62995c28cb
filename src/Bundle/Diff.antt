-- ===== src/Bundle/Diff.antt =====
-- tools/bundlectl/bundlectl.py: `yaml_as_flat_map` and `cmd_diff`. The YAML parser is a parameter, and
-- so is what a path names in the local directory.
use Prim.Native.Char.{code}
use Prim.Native.String.{◌++◌ as append}
use airgap_videowall.Prelude.{
  ℕ, ◌+◌, String, ◌≡◌, refl, Bool, true, ◌||◌, Option, none, some, List, [], ◌∷◌, ◌++◌,
  if◌then◌else◌, ◌==◌, nat_eq, string_eq,
}
use airgap_videowall.Prelude.Dict.{Dict, get, put, keys}
use airgap_videowall.Prelude.Text.{lower, decimal}
use airgap_videowall.Values.{Value, Items, Fields, null, list, obj, nil, cons, end, field, truthy}
use airgap_videowall.Values.Equality.{same_value}
use airgap_videowall.Reconcile.Sorting.{sorted_set}
use airgap_videowall.Bundle.Archive.{
  Tools, Bytes, Dir, Found, missing, file, directory, Result, ok, raised, ◌>>=◌, of_option,
  collect_files, sha256_file,
}

-- out.update(d)
unfoldable pub update : Dict String Value → Dict String Value → Dict String Value
update out [] = out
update out ((k, v) ∷ d) = update (put out k v) d

-- prefix[:-1]
unfoldable pub drop_last : String → String
drop_last String.[] = String.[]
drop_last (String.◌∷◌ c String.[]) = String.[]
drop_last (String.◌∷◌ c (String.◌∷◌ d s)) = String.◌∷◌ c (drop_last (String.◌∷◌ d s))

-- `yaml_as_flat_map`
unfoldable mutual
  unfolding update drop_last decimal

  pub yaml_as_flat_map : Value → String → Dict String Value
  yaml_as_flat_map (obj fs) prefix = flat_fields fs prefix []
  yaml_as_flat_map (list vs) prefix = flat_items vs 0 prefix []
  yaml_as_flat_map v prefix = (drop_last prefix, v) ∷ []

  pub flat_fields : Fields → String → Dict String Value → Dict String Value
  flat_fields end prefix out = out
  flat_fields (field k v fs) prefix out =
      flat_fields fs prefix (update out (yaml_as_flat_map v (append prefix (append k "."))))

  pub flat_items : Items → ℕ → String → Dict String Value → Dict String Value
  flat_items nil i prefix out = out
  flat_items (cons v vs) i prefix out =
      flat_items vs (i + 1) prefix
        (update out (yaml_as_flat_map v (append prefix (append (decimal i) "."))))

-- the last component of a path
unfoldable pub name_of : String → String → String
name_of seen String.[] = seen
name_of seen (String.◌∷◌ c s) = name_of (if code c == b'/' then s else seen) s

-- from the last dot on
unfoldable pub last_dot : String → String
last_dot String.[] = ""
last_dot (String.◌∷◌ c s) =
    let rest = last_dot s in
    elim rest [
      | String.[] ↦ (if code c == b'.' then String.◌∷◌ c s else "")
      | String.◌∷◌ d t ↦ String.◌∷◌ d t
    ]

unfoldable pub suffix_of_name : String → String
unfolding last_dot
suffix_of_name String.[] = ""
suffix_of_name (String.◌∷◌ c s) = if last_dot s == "." then "" else last_dot s

-- `bf.suffix.lower() in (".yaml", ".yml")`
unfoldable pub is_yaml : String → Bool
unfolding name_of suffix_of_name lower
is_yaml path =
    let suffix = lower (suffix_of_name (name_of path path)) in suffix == ".yaml" || suffix == ".yml"

pub data Difference : Type 0 where
  missing_local : String → Difference
  changed : String → String → Value → Value → Difference
  changed_binary : String → Difference

unfoldable pub or_null : Option Value → Value
or_null none = null
or_null (some v) = v

-- d.get(k)
unfoldable pub value_at : Dict String Value → String → Value
unfolding or_null
value_at d k = or_null (get d k)

-- the loop over the keys
unfoldable pub diff_keys :
    String → Dict String Value → Dict String Value → List String → List Difference
unfolding value_at same_value
diff_keys rel bmap cmap [] = []
diff_keys rel bmap cmap (k ∷ ks) =
    let rest = diff_keys rel bmap cmap ks in
    if same_value (value_at bmap k) (value_at cmap k)
    then rest
    else changed rel k (value_at cmap k) (value_at bmap k) ∷ rest

abbrev pub all_keys : Dict String Value → Dict String Value → List String
all_keys bmap cmap = sorted_set (keys bmap ++ keys cmap)

-- `yaml.safe_load(…) or {}`
abbrev pub or_empty : Value → Value
or_empty v = if truthy v then v else obj end

abbrev pub flat : Value → Dict String Value
flat v = yaml_as_flat_map (or_empty v) ""

module _ (tools : Tools) (safe_load : Bytes → Option Value) (local : String → Found) where
  unfoldable pub diff_yaml : String → Bytes → Bytes → Result (List Difference)
  unfolding yaml_as_flat_map diff_keys sorted_set
  diff_yaml rel content theirs = do
    bdoc ← of_option (safe_load content)
    cdoc ← of_option (safe_load theirs)
    ok (diff_keys rel (flat bdoc) (flat cdoc) (all_keys (flat bdoc) (flat cdoc)))

  unfoldable pub diff_content : String → Bytes → Bytes → Result (List Difference)
  unfolding is_yaml diff_yaml sha256_file
  diff_content rel content theirs =
      if is_yaml rel
      then diff_yaml rel content theirs
      else ok (
          if sha256_file tools content == sha256_file tools theirs
          then []
          else changed_binary rel ∷ [])

  unfoldable pub diff_found : String → Bytes → Found → Result (List Difference)
  unfolding diff_content
  diff_found rel content missing = ok (missing_local rel ∷ [])
  diff_found rel content directory = raised
  diff_found rel content (file theirs) = diff_content rel content theirs

  -- the loop over the bundle's files
  unfoldable pub diff_files : Dir → Result (List Difference)
  unfolding diff_found
  diff_files [] = ok []
  diff_files ((rel, content) ∷ d) = do
    found ← diff_found rel content (local rel)
    rest ← diff_files d
    ok (found ++ rest)

  unfoldable pub exit_of : List Difference → ℕ
  exit_of [] = 0
  exit_of (d ∷ ds) = 2

  -- `cmd_diff`
  unfoldable pub cmd_diff : Bytes → Result ℕ
  unfolding diff_files exit_of collect_files
  cmd_diff bundle = do
    a ← of_option (tools.unpack bundle)
    diffs ← diff_files (collect_files a.config)
    ok (exit_of diffs)

flat_map_runs :
    yaml_as_flat_map
      (obj (
        field "a"
          (list (cons null (cons (obj end) nil)))
          (field "b" (obj (field "c" null end)) end)))
      ""
    ≡ ("a.0", null) ∷ ("b.c", null) ∷ []
unfolding yaml_as_flat_map put get
flat_map_runs = refl

suffix_runs : is_yaml "walls/main.YML" ≡ true
unfolding is_yaml
suffix_runs = refl
