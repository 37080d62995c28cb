-- ===== src/Processes/Retained.antt =====
-- No live process is lost from the table.
use airgap_videowall.Prelude.{
  ℕ, String, ◌≡◌, refl, ◌∙◌, ◌≢◌, inl, inr, Bool, true, false, Option, none, some, arith,
  Bool-cases, ◌==◌, eq_of_beq, eq_iff, string_eq,
}
use airgap_videowall.Prelude.Dict.{get, get-put, get-pop}
use airgap_videowall.Processes.Table.{
  State, Handle, Spec, Request, step, create_request, delete_request, start_request, stop_request,
  create_or_update, delete, start, stop, live, is_live, start_found, build_and_launch, launch,
  stop_found, Definition,
}

-- The request stops the process of the id, and the signals end it.
abbrev pub Stops : {Body : Type 0} → Request Body → String → Type 0
Stops (stop_request i ends) id = (i ≡ id) × (ends ≡ true)
Stops _ id = ⊥

module _ {Body : Type 0} (build : Body → Option Spec) (alive : ℕ → Bool) where
  launch-retains :
      (i : String) (d : Definition Body) (spec : Option Spec) (spawned : Option ℕ) (s : State Body)
      (id : String)
      → i ≢ id
      → get (build_and_launch alive i d spec spawned s).0.processes id ≡ get s.processes id
  unfolding build_and_launch launch
  launch-retains i d none spawned s id ne = refl
  launch-retains i d (some spec) none s id ne = refl
  launch-retains i d (some spec) (some pid) s id ne =
      ground (arith, get-put s.processes i id (record { pid = pid; spec = spec }), eq_iff i id)

  start_found-retains :
      (i : String) (found : Option (Definition Body)) (spawned : Option ℕ) (s : State Body)
      (id : String) (h : Handle)
      → get s.processes id ≡ some h
      → alive h.pid ≡ true
      → get (start_found alive build i found spawned s).0.processes id ≡ some h
  unfolding start_found live is_live
  start_found-retains i none spawned s id h e a = e
  start_found-retains i (some d) spawned s id h e a = elim (Bool-cases (i == id)) [
    | inl k ↦ let same : i ≡ id = eq_of_beq i id k in rw (same, e, a) e
    | inr k ↦
        let ne : i ≢ id = ground (arith, eq_iff i id) in
        elim (Bool-cases (is_live alive (get s.processes i))) [
          | inl l ↦ rw l e
          | inr l ↦ rw l (launch-retains i d (build d.body) spawned s id ne ∙ e)
        ]
  ]

  stop_found-retains :
      (i : String) (found : Option Handle) (ends : Bool) (s : State Body) (id : String) (h : Handle)
      → found ≡ get s.processes i
      → get s.processes id ≡ some h
      → alive h.pid ≡ true
      → ¬ ((i ≡ id) × (ends ≡ true))
      → get (stop_found alive i found ends s).0.processes id ≡ some h
  unfolding stop_found
  stop_found-retains i none ends s id h f e a n = e
  stop_found-retains i (some g) true s id h f e a n =
      let ne : i ≢ id = λ k. n (k, refl) in ground (arith, get-pop s.processes i id, eq_iff i id)
  stop_found-retains i (some g) false s id h f e a n = elim (Bool-cases (i == id)) [
    | inl k ↦
        let same : i ≡ id = eq_of_beq i id k in
        let live_one : alive g.pid ≡ true = cc (same, f, e, a) in rw live_one e
    | inr k ↦ ground (arith, get-pop s.processes i id, eq_iff i id)
  ]

  -- A process that is alive stays in the table under its id, whatever is created, deleted, started
  -- or stopped, until it is itself stopped.
  pub step-retains :
      (req : Request Body) (s : State Body) (id : String) (h : Handle)
      → get s.processes id ≡ some h
      → alive h.pid ≡ true
      → ¬ Stops req id
      → get (step build alive req s).0.processes id ≡ some h
  unfolding step create_or_update delete start stop live is_live
  step-retains (create_request d) s id h e a n = ground arith
  step-retains (delete_request i) s id h e a n =
      ground (arith, get-pop s.processes i id, eq_iff i id)
  step-retains (start_request i spawned) s id h e a n =
      start_found-retains i (get s.definitions i) spawned s id h e a
  step-retains (stop_request i ends) s id h e a n =
      stop_found-retains i (get s.processes i) ends s id h refl e a n
