-- ===== src/Reconcile/Loop.antt =====
-- services/mgmt-api/app/reconcile.py: `reconcile_loop`, one round at a time. Its state is the
-- database and the hash that it saw last.
use airgap_videowall.Prelude.{
  ℕ, String, ◌≡◌, refl, Bool, false, Option, none, some, List, if◌then◌else◌, ◌==◌, beq_self,
  string_eq,
}
use airgap_videowall.Mgmt.Data.{Db, Env, Wall, Source}
use airgap_videowall.Reconcile.Rows.{Select}
use airgap_videowall.Reconcile.Mapping.{ConfigWall, ConfigSource}
use airgap_videowall.Reconcile.Upsert.{reconcile_once}

-- `current_hash == last_hash`
unfoldable pub same_hash : Option String → String → Bool
same_hash none h = false
same_hash (some last) h = last == h

module _ (env : Env) (select_wall : Select Wall) (select_source : Select Source)
    (walls : Option (List (ℕ × ConfigWall))) (sources : Option (List (ℕ × ConfigSource))) where
  -- the round before the loop: a hash that is missing or empty is kept, but nothing is reconciled
  unfoldable pub first_round : Option String → Db → Db × Option String
  first_round none db = (db, none)
  first_round (some h) db =
      if h == ""
      then (db, some h)
      else ((reconcile_once env select_wall select_source walls sources db).0, some h)

  -- a round of the loop
  unfoldable pub round : Option String → Db × Option String → Db × Option String
  unfolding same_hash
  round none s = s
  round (some h) (db, last) =
      if same_hash last h
      then (db, last)
      else ((reconcile_once env select_wall select_source walls sources db).0, some h)

-- If the walls cannot be fetched when a new hash is seen, the round changes nothing but takes the
-- hash as done: the rounds that see the same hash do nothing, whatever can be fetched by then.
pub round-failed :
    (env : Env) (select_wall : Select Wall) (select_source : Select Source)
    (sources sources' : Option (List (ℕ × ConfigSource))) (walls' : Option (List (ℕ × ConfigWall)))
    (h : String) (db : Db) (last : Option String)
    → same_hash last h ≡ false
    → let s = round env select_wall select_source none sources (some h) (db, last) in
      (s ≡ (db, some h)) × (round env select_wall select_source walls' sources' (some h) s ≡ s)
unfolding round reconcile_once same_hash
round-failed env select_wall select_source sources sources' walls' h db last new =
    rw (new, beq_self h) (refl, refl)
