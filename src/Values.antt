-- ===== src/Values.antt =====
-- The values that Python code meets when it reads JSON or YAML without a schema, and the built-in
-- operations on them: truth value, `.get`, `str` and `int`.
mod Numbers
pub mod Equality
pub mod Division
unfoldable pub use Numbers.*
use Prim.Native.String
use airgap_videowall.Prelude.{
  ◌*◌, String, Bool, true, false, not, Option, none, some, List, [], ◌∷◌, if◌then◌else◌, ◌==◌,
  string_eq,
}

-- `other` is any scalar beside those above it (a float, a date, …), by what `str`, `bool` and
-- `int` give of it. The keys of a mapping are texts, as in JSON.
mutual
  pub data Value : Type 0 where
    null : Value
    bool : Bool → Value
    num : ℤ → Value
    str : String → Value
    list : Items → Value
    obj : Fields → Value
    other : String → Bool → Option ℤ → Value

  pub data Items : Type 0 where
    nil : Items
    cons : Value → Items → Items

  pub data Fields : Type 0 where
    end : Fields
    field : String → Value → Fields → Fields

-- bool(v)
unfoldable pub truthy : Value → Bool
truthy null = false
truthy (bool b) = b
truthy (num n) = not (n == pos 0)
truthy (str s) = not (s == "")
truthy (list nil) = false
truthy (list (cons _ _)) = true
truthy (obj end) = false
truthy (obj (field _ _ _)) = true
truthy (other _ b _) = b

-- `a or b`
abbrev pub or_else : Value → Value → Value
or_else a b = if truthy a then a else b

-- d.get(k) of a mapping: `null` if the key is missing
unfoldable pub get_field : Fields → String → Value
get_field end k = null
get_field (field j v fs) k = if j == k then v else get_field fs k

-- k in d
unfoldable pub has_field : Fields → String → Bool
has_field end k = false
has_field (field j v fs) k = if j == k then true else has_field fs k

abbrev pub values : Items → List Value
values nil = []
values (cons v vs) = v ∷ values vs

-- int(v): `none` where Python raises
unfoldable pub int_of : Value → Option ℤ
int_of (bool true) = some (pos 1)
int_of (bool false) = some (pos 0)
int_of (num n) = some n
int_of (str s) = int_of_text s
int_of (other _ _ n) = n
int_of _ = none

-- str(v). The text of a list or a mapping is `repr`'s, which is a parameter.
unfoldable pub str_of : (Value → String) → Value → String
str_of repr null = "None"
str_of repr (bool true) = "True"
str_of repr (bool false) = "False"
str_of repr (num n) = text_of_int n
str_of repr (str s) = s
str_of repr (other s _ _) = s
str_of repr (list vs) = repr (list vs)
str_of repr (obj fs) = repr (obj fs)
