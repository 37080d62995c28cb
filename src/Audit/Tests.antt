-- ===== src/Audit/Tests.antt =====
-- The audit chain at concrete events, with a transparent digest in place of SHA-256.
use airgap_videowall.Audit.Query.{
  bound, wanted, query, Asked, query-Asked, equals, at_least, at_most,
}
use Prim.Native.String.{◌++◌ as append}
use airgap_videowall.Prelude.{
  String, ◌≡◌, refl, ◌≢◌, List, [], ◌∷◌, arith, here, there, ap, ◌∙◌, sym, some, none, In, ◌↔◌,
}
use airgap_videowall.Values.{end}
use airgap_videowall.Audit.Chain.{
  IngestIn, Store, Codec, empty, genesis, seal, event_core, insert, check_row, check_rows, verify,
  row_of, Row, ingest,
}
use airgap_videowall.Audit.Ingest.{Event, ingest_all, rows_of, verify-ingest_all}
use airgap_videowall.Audit.Tamper.{NoCollision, NoGenesis, cores, verify-unforgeable}

abbrev codec : Codec
codec = record {
  sha256_hex = λ t. String.◌∷◌ "#" t;
  canon_event = λ core. core.action;
  jsonb = λ fs. fs;
}

abbrev login : IngestIn
login = record {
  action = "login";
  actor = "eve";
  object_type = "user";
  object_id = "7";
  details = end;
}

abbrev logout : IngestIn
logout = record {
  action = "logout";
  actor = "eve";
  object_type = "user";
  object_id = "7";
  details = end;
}

abbrev events : List Event
events = (10, login) ∷ (20, logout) ∷ []

verify-ingest_all_example :
    verify codec "vw-audit" 1000 (ingest_all codec "vw-audit" events empty)
    ≡ record { checked = 2; verified = 2; broken = [] }
verify-ingest_all_example =
    verify-ingest_all codec "vw-audit" events 1000 (refl, (refl, tt)) (omega arith)

sha-ne-genesis : (x : String) → codec.sha256_hex x ≢ genesis
sha-ne-genesis x e = cc e

abbrev one_event : Store
one_event = record {
  next_id = 2;
  rows = row_of codec 1 (event_core "vw-audit" 10 login) genesis ∷ [];
}

one-NoCollision : NoCollision codec (rows_of "vw-audit" one_event) (rows_of "vw-audit" one_event)
one-NoCollision x y (here e) (here f) h =
    (ap (λ (r : Row). r.prev_hash) (e ∙ sym f), ap (λ (r : Row). r.core) (e ∙ sym f))
one-NoCollision x y (there m) n h = elim m [ ]
one-NoCollision x y (here e) (there n) h = elim n [ ]

one-NoGenesis : NoGenesis codec (rows_of "vw-audit" one_event)
unfolding seal
one-NoGenesis = (sha-ne-genesis (append (append genesis "|") "login"), tt)

verify-unforgeable_example :
    cores (rows_of "vw-audit" one_event) ≡ cores (rows_of "vw-audit" one_event)
unfolding verify check_rows check_row seal
verify-unforgeable_example =
    verify-unforgeable codec "vw-audit" 1000 one_event one_event one-NoCollision one-NoGenesis
      one-NoGenesis (omega arith) (omega arith) refl refl refl

abbrev two_events : Store
two_events = ingest_all codec "vw-audit" events empty

query-Asked_example :
    (rs : List Row) × (query
        (λ t. some 15)
        "vw-audit"
        (some "logout")
        none
        (some "2024-01-01")
        none
        200
        two_events
      ≡ some rs)
    × ((r : Row)
        → In r rs ↔ (
            In r two_events.rows
            × Asked (λ t. some 15) "vw-audit" (some "logout") none (some 15) none r))
unfolding bound wanted ingest_all ingest insert equals at_least at_most
query-Asked_example =
    query-Asked (λ t. some 15) "vw-audit" (some "logout") none (some "2024-01-01") none (some 15)
      none 200 two_events refl refl (omega arith)
