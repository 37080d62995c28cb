-- ===== src/Agents/Wallctl/State.antt =====
-- agents/wallctl/vw_wallctl.py: the state of `WallCtl` with its two files, and the exceptions that
-- end the agent. A write of a file succeeds.
use airgap_videowall.Prelude.{ℕ, String, ◌≡◌, refl, Option, none, some, List}
use airgap_videowall.Prelude.Dict.{Dict}
use airgap_videowall.Values.{Value}

-- A tile player: the arguments behind the interpreter's name.
pub record Player : Type 0 where
  pub pid : ℕ
  pub argv : List String

pub record Wall : Type 0 where
  pub tile_procs : Dict String Player
  pub token_cache : Value
  pub current_layout : Value
  -- the files, by their text
  pub token_file : Option String
  pub layout_file : Option String
  -- the tiles for which the slate was asked, and the requests that were sent
  pub slates : List String
  pub requests : ℕ

-- A step ends with the state, and a result or, as `none`, an exception that ends the agent.
abbrev pub M : Type 0 → Type 0
M A = Wall → Wall × Option A

abbrev pub return : {A : Type 0} → A → M A
return a s = (s, some a)

abbrev pub raise : {A : Type 0} → M A
raise s = (s, none)

abbrev pub continue : {A B : Type 0} → Wall × Option A → (A → M B) → Wall × Option B
continue (s, none) f = (s, none)
continue (s, some a) f = f a s

infixl 5 ◌>>=◌ ◌>>◌
abbrev pub ◌>>=◌ : {A B : Type 0} → M A → (A → M B) → M B
◌>>=◌ m f s = continue (m s) f

abbrev pub ◌>>◌ : {B : Type 0} → M (Unit {0}) → M B → M B
m >> k = m >>= λ _. k

abbrev pub lift : {A : Type 0} → Option A → M A
lift o s = (s, o)

-- What a completed sequence of steps has done.
pub continue-inv :
    {A B : Type 0} (r : Wall × Option A) (f : A → M B) {b : B}
    → (continue r f).1 ≡ some b
    → (a : A) × (r.1 ≡ some a) × (continue r f ≡ f a r.0)
continue-inv (s, none) f h = absurd (cc)
continue-inv (s, some a) f h = (a, refl, refl)
