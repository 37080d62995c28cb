-- ===== src/Mgmt/Ingested.antt =====
-- What the answers of the management API stand for in its log, and a log that has grown.

use airgap_videowall.Prelude.{
  ℕ, ◌+◌, String, ◌≡◌, refl, sym, ap, ◌∙◌, inl, inr, Bool, true, false, Option, none, some, List,
  [], ◌∷◌, ◌++◌, arith, if◌then◌else◌, length, length-append, string_eq,
}
use airgap_videowall.Audit.Chain.{IngestIn, ingest, Store, Codec}
use airgap_videowall.Audit.Ingest.{Event, ingest_all}
use airgap_videowall.Mgmt.Data.{Env, User, Db, append_event, Response}
use airgap_videowall.Mgmt.Events.{handle_events, is_failure, not-failed}
use airgap_videowall.Mgmt.Requests.{Request, handle}
use airgap_videowall.Mgmt.Tokens.{TokenAnswer, token_granted, token_denied}
use airgap_videowall.Mgmt.Proxies.{ImportAnswer, PolicyAnswer, evaluated, staged}
use airgap_videowall.Reconcile.Upsert.{Stats}

-- The events that an answer stands for: none for one that failed.
abbrev pub of_response : Response → ℕ
of_response r = if is_failure r then 0 else 1

-- A verdict is logged, whether the token is granted or denied.
abbrev pub of_token : TokenAnswer → ℕ
of_token (token_granted _) = 1
of_token (token_denied _) = 1
of_token _ = 0

abbrev pub of_verdict : PolicyAnswer → ℕ
of_verdict (evaluated _) = 1
of_verdict _ = 0

abbrev pub of_import : ImportAnswer → ℕ
of_import (staged _) = 1
of_import _ = 0

abbrev pub total : Stats → ℕ
total st = st.created + st.updated

-- The rows that a pass has created or updated.
abbrev pub of_pass : Option (Stats × Stats) → ℕ
of_pass none = 0
of_pass (some (walls, sources)) = total walls + total sources

ingest_all-append :
    (c : Codec) (chain : String) (xs ys : List Event) (s : Store)
    → ingest_all c chain (xs ++ ys) s ≡ ingest_all c chain ys (ingest_all c chain xs s)
unfolding ingest_all
ingest_all-append c chain [] ys s = refl
ingest_all-append c chain ((ts, ev) ∷ xs) ys s =
    ingest_all-append c chain xs ys (ingest c chain ts ev s)

module _ (env : Env) where
  -- The log is the one before with `n` events ingested.
  pub record Ingests (n : ℕ) (s s' : Store) : Type 0 where
    pub events : List Event
    pub count : length events ≡ n
    pub log : s' ≡ ingest_all env.codec env.audit_chain_id events s

  pub same : (s : Store) → Ingests 0 s s
  unfolding ingest_all
  same s = record { events = []; count = refl; log = refl }

  pub one :
      (now : ℕ) (ev : IngestIn) (db : Db) → Ingests 1 db.events (append_event env now ev db).events
  unfolding ingest_all ingest
  one now ev db = record { events = (now, ev) ∷ []; count = refl; log = refl }

  pub then_ : (n m : ℕ) (a b c : Store) → Ingests n a b → Ingests m b c → Ingests (n + m) a c
  then_ n m a b c p q = record {
    events = p.events ++ q.events;
    count = omega (arith, length-append p.events q.events, p.count, q.count);
    log =
        q.log
        ∙ ap (ingest_all env.codec env.audit_chain_id q.events) p.log
        ∙ sym (ingest_all-append env.codec env.audit_chain_id p.events q.events a);
  }

  pub either :
      {A : Type 0} (count : A → ℕ) (b : Bool) (p q : Db × A) (s : Store)
      → Ingests (count p.1) s p.0.events
      → Ingests (count q.1) s q.0.events
      → let r : Db × A = if b then p else q in Ingests (count r.1) s r.0.events
  either count true p q s h k = h
  either count false p q s h k = k

  pub handle-Ingests :
      (user : User) (now : ℕ) (req : Request) (db : Db)
      → let (after, r) = handle env user now req db in
        Ingests (of_response r) db.events after.events
  unfolding ingest_all
  handle-Ingests user now req db = elim (handle_events env user now req db) [
    | inl (e, f, h) ↦ rw f (record { events = []; count = refl; log = h })
    | inr (ev, n, h) ↦
        rw (not-failed _ n) (record { events = (now, ev) ∷ []; count = refl; log = h })
  ]
