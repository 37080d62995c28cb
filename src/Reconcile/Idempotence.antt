-- ===== src/Reconcile/Idempotence.antt =====
-- A pass that follows a pass over the same configuration changes nothing.
use airgap_videowall.Reconcile.Passes.{entries_of, pass, pass_settles}
use airgap_videowall.Reconcile.Settling.{Apart}
use airgap_videowall.Prelude.{ℕ, ◌≡◌, refl, ap, ◌∙◌, some, List, [], ◌∷◌, In, here, there}
use airgap_videowall.Mgmt.Data.{Wall, Source, Db, Env}
use airgap_videowall.Reconcile.Rows.{
  Change, created, updated, unchanged, change, Settled, IsIssued, written, next_id, change-Settled,
  Managed, Select, Selects, Alone,
}
use airgap_videowall.Reconcile.Mapping.{ConfigWall, ConfigSource, managed_walls, managed_sources}
use airgap_videowall.Reconcile.Upsert.{
  Stats, apply_wall, apply_source, reconcile_walls, reconcile_sources, reconcile_once, no_stats,
}

pair : {A B : Type 0} {a a' : A} {b b' : B} → a ≡ a' → b ≡ b' → ◌≡◌ {A = A × B} (a, b) (a', b')
pair p q = cc

module _ (env : Env) where
  apply_wall-tables :
      (now : ℕ) (cw : ConfigWall) (c : Change Wall) (s : Db × Stats)
      → let after = (apply_wall env now cw c s).0 in
        (after.walls ≡ written managed_walls c s.0.walls)
        × (after.next_wall ≡ next_id managed_walls c s.0.next_wall)
        × (after.sources ≡ s.0.sources)
        × (after.next_source ≡ s.0.next_source)
  unfolding apply_wall written next_id
  apply_wall-tables now cw (created w) s = (refl, refl, refl, refl)
  apply_wall-tables now cw (updated w old) s = (refl, refl, refl, refl)
  apply_wall-tables now cw unchanged s = (refl, refl, refl, refl)

  apply_source-tables :
      (now : ℕ) (cs : ConfigSource) (c : Change Source) (s : Db × Stats)
      → let after = (apply_source env now cs c s).0 in
        (after.sources ≡ written managed_sources c s.0.sources)
        × (after.next_source ≡ next_id managed_sources c s.0.next_source)
        × (after.walls ≡ s.0.walls)
        × (after.next_wall ≡ s.0.next_wall)
  unfolding apply_source written next_id
  apply_source-tables now cs (created r) s = (refl, refl, refl, refl)
  apply_source-tables now cs (updated r old) s = (refl, refl, refl, refl)
  apply_source-tables now cs unchanged s = (refl, refl, refl, refl)

  reconcile_walls-pass :
      (select : Select Wall) (entries : List (ℕ × ConfigWall)) (s : Db × Stats)
      → let after = (reconcile_walls env select entries s).0 in
        (after.walls ≡ (pass managed_walls select entries s.0.next_wall s.0.walls).1)
        × (after.sources ≡ s.0.sources)
        × (after.next_source ≡ s.0.next_source)
  unfolding reconcile_walls pass
  reconcile_walls-pass select [] s = (refl, refl, refl)
  reconcile_walls-pass select ((now, cw) ∷ entries) s =
      let c = change managed_walls select now s.0.next_wall cw s.0.walls in
      let (walls, ids, sources, next) = apply_wall-tables now cw c s in
      let (p, q, r) = reconcile_walls-pass select entries (apply_wall env now cw c s) in
      (
        p ∙ ap (λ t. (pass managed_walls select entries t.0 t.1).1) (pair ids walls),
        q ∙ sources,
        r ∙ next,
      )

  reconcile_sources-pass :
      (select : Select Source) (entries : List (ℕ × ConfigSource)) (s : Db × Stats)
      → let after = (reconcile_sources env select entries s).0 in
        (after.sources ≡ (pass managed_sources select entries s.0.next_source s.0.sources).1)
        × (after.walls ≡ s.0.walls)
  unfolding reconcile_sources pass
  reconcile_sources-pass select [] s = (refl, refl)
  reconcile_sources-pass select ((now, cs) ∷ entries) s =
      let c = change managed_sources select now s.0.next_source cs s.0.sources in
      let (sources, ids, walls, next) = apply_source-tables now cs c s in
      let (p, q) = reconcile_sources-pass select entries (apply_source env now cs c s) in
      (p ∙ ap (λ t. (pass managed_sources select entries t.0 t.1).1) (pair ids sources), q ∙ walls)

  -- Nothing is done for entries that are settled.
  reconcile_walls-Settled :
      (select : Select Wall) (entries : List (ℕ × ConfigWall)) (s : Db × Stats)
      → Selects select
      → ((cw : ConfigWall) → In cw (entries_of entries) → Settled managed_walls cw s.0.walls)
      → reconcile_walls env select entries s ≡ s
  unfolding reconcile_walls apply_wall
  reconcile_walls-Settled select [] s law h = refl
  reconcile_walls-Settled select ((now, cw) ∷ entries) s law h =
      rw (change-Settled managed_walls select now s.0.next_wall cw s.0.walls law (h cw (here refl)))
        (reconcile_walls-Settled select entries s law (λ x m. h x (there m)))

  reconcile_sources-Settled :
      (select : Select Source) (entries : List (ℕ × ConfigSource)) (s : Db × Stats)
      → Selects select
      → ((cs : ConfigSource) → In cs (entries_of entries) → Settled managed_sources cs s.0.sources)
      → reconcile_sources env select entries s ≡ s
  unfolding reconcile_sources apply_source
  reconcile_sources-Settled select [] s law h = refl
  reconcile_sources-Settled select ((now, cs) ∷ entries) s law h =
      rw
        (change-Settled managed_sources select now s.0.next_source cs s.0.sources law
          (h cs (here refl)))
        (reconcile_sources-Settled select entries s law (λ x m. h x (there m)))

-- No entry carries the marker tag of another.
abbrev pub AllApart : {Row Item : Type 0} → Managed Row Item → List (ℕ × Item) → Type 0
AllApart {Row} {Item} k entries =
    (i j : Item) → In i (entries_of entries) → In j (entries_of entries) → Apart k i j

-- The entries are among those, at whatever instants.
abbrev pub Among : {Item : Type 0} → List (ℕ × Item) → List (ℕ × Item) → Type 0
Among {Item} later entries = (i : Item) → In i (entries_of later) → In i (entries_of entries)

-- Rows of which no two carry the marker of an entry.
abbrev pub AllAlone : {Row Item : Type 0} → Managed Row Item → List (ℕ × Item) → List Row → Type 0
AllAlone {Row} {Item} k entries rows = (i : Item) → In i (entries_of entries) → Alone k i rows

module _ (env : Env) (select_wall : Select Wall) (select_source : Select Source) where
  -- If the ids of the rows come from the sequences, no two rows carry the marker of an entry and no
  -- entry carries the marker tag of another, a pass over entries that an earlier pass has written
  -- creates and updates nothing and logs nothing, whichever of the rows that fit the database gives.
  pub reconcile_once-idempotent :
      (walls walls' : List (ℕ × ConfigWall)) (sources sources' : List (ℕ × ConfigSource)) (db : Db)
      → Selects select_wall
      → Selects select_source
      → IsIssued managed_walls db.next_wall db.walls
      → IsIssued managed_sources db.next_source db.sources
      → AllAlone managed_walls walls db.walls
      → AllAlone managed_sources sources db.sources
      → AllApart managed_walls walls
      → AllApart managed_sources sources
      → Among walls' walls
      → Among sources' sources
      → let after =
          (reconcile_once env select_wall select_source (some walls) (some sources) db).0 in
        reconcile_once env select_wall select_source (some walls') (some sources') after
        ≡ (after, some (no_stats, no_stats))
  unfolding reconcile_once
  reconcile_once-idempotent walls walls' sources sources' db fw fs iw is ow os aw as_ lw ls =
      let first = reconcile_walls env select_wall walls (db, no_stats) in
      let second = reconcile_sources env select_source sources (first.0, no_stats) in
      let (pw, qs, qn) = reconcile_walls-pass env select_wall walls (db, no_stats) in
      let (ps, qw) = reconcile_sources-pass env select_source sources (first.0, no_stats) in
      let settled_walls : (cw : ConfigWall)
          → In cw (entries_of walls')
          → Settled managed_walls cw second.0.walls =
        λ cw m.
          rw (qw, pw)
            (pass_settles managed_walls select_wall fw walls db.next_wall db.walls iw ow aw cw
              (lw cw m)) in
      let settled_sources : (cs : ConfigSource)
          → In cs (entries_of sources')
          → Settled managed_sources cs second.0.sources =
        λ cs m.
          rw (ps, qs, qn)
            (pass_settles managed_sources select_source fs sources db.next_source db.sources is os
              as_ cs (ls cs m)) in
      rw
        (
          reconcile_walls-Settled env select_wall walls' (second.0, no_stats) fw settled_walls,
          reconcile_sources-Settled env select_source sources' (second.0, no_stats) fs
              settled_sources,
        )
        refl
