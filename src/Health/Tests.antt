-- ===== src/Health/Tests.antt =====
-- Two heartbeats of one wall and three of a source with the same number, the last of which is refused.
use airgap_videowall.Prelude.{
  String, ◌≡◌, refl, true, not, none, some, List, [], ◌∷◌, ◌++◌, ◌==◌, here, there, string_eq,
}
use airgap_videowall.Prelude.Dict.{get}
use airgap_videowall.Values.{int_eq, pos, end, field}
use airgap_videowall.Health.Latest.{IsLast, beats-last, status_of}
use airgap_videowall.Health.Heartbeats.{
  Columns, Heartbeat, Tables, Beat, wall_beat, source_beat, beats, heartbeat_source, has_source,
  source_row, server_error,
}

-- columns that take no details but the empty ones, and every text but "NUL"
abbrev columns : Columns
columns = record {
  to_jsonb = λ fs. elim fs [ end ↦ some end | field _ _ _ ↦ none ];
  is_text = λ s. not (s == "NUL");
}

abbrev beat : String → Heartbeat
beat status = record { id = pos 1; status = status; details = end }

abbrev too_large : Heartbeat
too_large = record { id = pos 2147483648; status = "ok"; details = end }

-- The management API has created the tables.
abbrev tables : Tables
tables = record {
  wall_health = [];
  source_health = [];
  walls = pos 1 ∷ [];
  health_status = some ((pos 1, "unknown") ∷ []);
  has_references = true;
}

abbrev earlier : List Beat
earlier = wall_beat 10 (beat "ok") ∷ source_beat 11 (beat "ok") ∷ []

abbrev later : List Beat
later = wall_beat 13 (beat "degraded") ∷ source_beat 14 (beat "NUL") ∷ []

refuses_too_large : (heartbeat_source columns 9 too_large tables).1 ≡ server_error
unfolding heartbeat_source source_row has_source
refuses_too_large = refl

later-IsLast : IsLast columns tables (pos 1) later
unfolding source_row has_source
later-IsLast now hb (here e) same = absurd (cc e)
later-IsLast now hb (there (here e)) same = let refused : hb ≡ beat "NUL" = cc e in rw refused refl
later-IsLast now hb (there (there m)) same = elim m [ ]

beats-last_example :
    let s = beats columns (earlier ++ source_beat 12 (beat "slow") ∷ later) tables in
    (get s.source_health (pos 1) ≡ some (record { last_seen = 12; status = "slow"; details = end }))
    × (has_source (pos 1) tables.health_status ≡ true
        → status_of (pos 1) s.health_status ≡ some "slow")
unfolding source_row has_source
beats-last_example =
    beats-last columns earlier later 12 (beat "slow")
      (record { last_seen = 12; status = "slow"; details = end }) tables refl later-IsLast
