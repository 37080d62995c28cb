-- ===== src/Audit/Query.antt =====
-- services/audit/app/main.py: `query` and `export_log`. Reading a time stamp from text and the
-- JSON text of a list of rows are parameters; `none` stands for a time stamp that does not parse.
use mathlib.Core.Option
use airgap_videowall.Prelude.{
  ℕ, ◌≤◌, String, ◌≡◌, Bool, true, ◌&&◌, Option, none, some, List, reverse, leb, if◌then◌else◌,
  ◌==◌, length, take, keep, string_eq, eq_of_beq, In, ◌↔◌, eq_iff, leb→le, ap, arith, refl,
  take_of_length-le, In-keep_iff,
}
use airgap_videowall.Audit.Chain.{Row, Store, of_chain}

-- A parameter that is missing or empty asks for nothing.
unfoldable pub wanted : Option String → Option String
wanted none = none
wanted (some s) = if s == "" then none else some s

-- `action=$n` and `actor=$n`
unfoldable pub equals : Option String → String → Bool
equals none x = true
equals (some s) x = x == s

-- The bound of a time stamp parameter; outer `none` where the text does not parse.
unfoldable pub bound : (String → Option ℕ) → Option String → Option (Option ℕ)
bound parse none = some none
bound parse (some s) = Option.map some (parse s)

unfoldable pub at_least : Option ℕ → ℕ → Bool
at_least none t = true
at_least (some b) t = leb b t

unfoldable pub at_most : Option ℕ → ℕ → Bool
at_most none t = true
at_most (some b) t = leb t b

abbrev pub selects : String → Option String → Option String → Option ℕ → Option ℕ → Row → Bool
selects chain action actor since until r =
    of_chain chain r
    && (equals action r.action
        && (equals actor r.actor && (at_least since r.ts && at_most until r.ts)))

infixl 5 ◌>>=◌
abbrev ◌>>=◌ : {A B : Type 0} → Option A → (A → Option B) → Option B
none >>= f = none
some a >>= f = f a

module _ (parse : String → Option ℕ) (chain : String) where
  unfoldable pub query :
      Option String → Option String → Option String → Option String → ℕ → Store → Option (List Row)
  query action actor since until limit s = do
    from ← bound parse (wanted since)
    to ← bound parse (wanted until)
    some (take limit (keep (selects chain (wanted action) (wanted actor) from to) s.rows))

  pub record Export : Type 0 where
    pub count : ℕ
    pub entries : List Row
    pub digest : String

  -- the oldest rows first; the signature is the digest of the JSON text of the entries
  unfoldable pub export_log :
      (List Row → String) → Option String → Option String → ℕ → Store → Option Export
  export_log digest since until limit s = do
    from ← bound parse (wanted since)
    to ← bound parse (wanted until)
    let entries = take limit (keep (selects chain none none from to) (reverse s.rows))
    some (record { count = length entries; entries = entries; digest = digest entries })

  -- What the caller asked of a row.
  pub record Asked (action actor : Option String) (since until : Option ℕ) (r : Row) : Type 0 where
    pub in_chain : r.chain_id ≡ chain
    pub of_action : (a : String) → action ≡ some a → r.action ≡ a
    pub of_actor : (a : String) → actor ≡ some a → r.actor ≡ a
    pub not_before : (t : ℕ) → since ≡ some t → t ≤ r.ts
    pub not_after : (t : ℕ) → until ≡ some t → r.ts ≤ t

  leb_iff : (a b : ℕ) → (leb a b ≡ true) ↔ (a ≤ b)
  leb_iff a b = (leb→le a b, λ h. ground arith)

  equals_iff :
      (o : Option String) (x : String) → (equals o x ≡ true) ↔ ((a : String) → o ≡ some a → x ≡ a)
  unfolding equals
  equals_iff none x = (λ h a e. absurd (cc), λ h. refl)
  equals_iff (some s) x = (λ h a e. cc (eq_of_beq x s h), λ h. (eq_iff x s).1 (h s refl))

  at_least_iff : (o : Option ℕ) (t : ℕ) → (at_least o t ≡ true) ↔ ((b : ℕ) → o ≡ some b → b ≤ t)
  unfolding at_least
  at_least_iff none t = (λ h a e. absurd (cc), λ h. refl)
  at_least_iff (some b) t = (λ h a e. ground arith, λ h. (leb_iff b t).1 (h b refl))

  at_most_iff : (o : Option ℕ) (t : ℕ) → (at_most o t ≡ true) ↔ ((b : ℕ) → o ≡ some b → t ≤ b)
  unfolding at_most
  at_most_iff none t = (λ h a e. absurd (cc), λ h. refl)
  at_most_iff (some b) t = (λ h a e. ground arith, λ h. (leb_iff t b).1 (h b refl))

  module _ (action actor : Option String) (since until : Option ℕ) (r : Row) where
    selects→Asked :
        selects chain action actor since until r ≡ true → Asked action actor since until r
    selects→Asked h = record {
      in_chain = eq_of_beq r.chain_id chain (ground arith);
      of_action = (equals_iff action r.action).0 (ground arith);
      of_actor = (equals_iff actor r.actor).0 (ground arith);
      not_before = (at_least_iff since r.ts).0 (ground arith);
      not_after = (at_most_iff until r.ts).0 (ground arith);
    }

    Asked→selects :
        Asked action actor since until r → selects chain action actor since until r ≡ true
    Asked→selects a =
        let chain_ok : of_chain chain r ≡ true = (eq_iff r.chain_id chain).1 a.in_chain in
        rw (chain_ok, (equals_iff action r.action).1 a.of_action)
          (rw ((equals_iff actor r.actor).1 a.of_actor) (
            rw ((at_least_iff since r.ts).1 a.not_before) ((at_most_iff until r.ts).1 a.not_after)))

  -- When the time stamps parse and the limit is not exceeded, `query` returns exactly the rows that were asked for: those of
  -- the chain with the action and the actor, if these are given, within the bounds in time.
  pub query-Asked :
      (action actor since until : Option String) (from to : Option ℕ) (limit : ℕ) (s : Store)
      → bound parse (wanted since) ≡ some from
      → bound parse (wanted until) ≡ some to
      → length (keep (selects chain (wanted action) (wanted actor) from to) s.rows) ≤ limit
      → (rs : List Row) × (query action actor since until limit s ≡ some rs)
        × ((r : Row) → In r rs ↔ (In r s.rows × Asked (wanted action) (wanted actor) from to r))
  unfolding query
  query-Asked action actor since until from to limit s f t fits =
      let p = selects chain (wanted action) (wanted actor) from to in
      (
        keep p s.rows,
        rw (f, t) (ap some (take_of_length-le limit (keep p s.rows) fits)),
        λ r. (
          λ m.
              let (n, h) = (In-keep_iff p r s.rows).0 m in
              (n, selects→Asked (wanted action) (wanted actor) from to r h),
          λ (n, a).
              (In-keep_iff p r s.rows).1
                (n, Asked→selects (wanted action) (wanted actor) from to r a),
        ),
      )
