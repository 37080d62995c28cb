-- ===== src/Processes/Running.antt =====
-- A definition that is shown as running has its process in the table.
use airgap_videowall.Prelude.{
  ℕ, String, ◌≡◌, refl, sym, ◌∙◌, inl, inr, Bool, true, false, not, ◌&&◌, Option, none, some,
  Bool-cases, ◌==◌, eq_of_beq, string_eq,
}
use airgap_videowall.Prelude.Dict.{get, put, pop, get-put, get-pop}
use airgap_videowall.Processes.Table.{
  State, Handle, Spec, Request, Definition, step, create_request, delete_request, start_request,
  stop_request, mark_stopped, create_or_update, start_found, build_and_launch, stop_found, launch,
  live, delete, start, stop,
}

-- The request does not itself claim that what it describes is running.
abbrev pub IsModest : {Body : Type 0} → Request Body → Type 0
IsModest (create_request d) = d.running ≡ false
IsModest _ = Unit

-- What is shown as running has a handle, with the process id that is shown.
abbrev pub IsShown : {Body : Type 0} → State Body → Type 0
IsShown {Body} s =
    (id : String) (d : Definition Body)
    → get s.definitions id ≡ some d
    → d.running ≡ true
    → (h : Handle) × (get s.processes id ≡ some h) × (d.pid ≡ some h.pid)

module _ {Body : Type 0} (build : Body → Option Spec) (alive : ℕ → Bool) where
  create-IsShown :
      (d : Definition Body) (s : State Body)
      → d.running ≡ false
      → IsShown s
      → IsShown (record s { definitions = put s.definitions d.id d })
  create-IsShown d s m c id e f r = elim (Bool-cases (d.id == id)) [
    | inl k ↦
        let new : some d ≡ some e = sym (get-put s.definitions d.id id d ∙ rw k refl) ∙ f in
        absurd (cc (new, m, r))
    | inr k ↦ c id e (sym (get-put s.definitions d.id id d ∙ rw k refl) ∙ f) r
  ]

  delete-IsShown :
      (i : String) (s : State Body)
      → IsShown s
      → IsShown (record { definitions = pop s.definitions i; processes = pop s.processes i })
  delete-IsShown i s c id e f r = elim (Bool-cases (i == id)) [
    | inl k ↦ absurd (cc (get-pop s.definitions i id, k, f))
    | inr k ↦
        let (h, p, q) = c id e (sym (get-pop s.definitions i id ∙ rw k refl) ∙ f) r in
        (h, get-pop s.processes i id ∙ rw k p, q)
  ]

  launch-IsShown :
      (i : String) (d : Definition Body) (spec : Option Spec) (spawned : Option ℕ) (s : State Body)
      → IsShown s
      → IsShown (build_and_launch alive i d spec spawned s).0
  unfolding build_and_launch launch
  launch-IsShown i d none spawned s c id e f r = c id e f r
  launch-IsShown i d (some spec) none s c id e f r = c id e f r
  launch-IsShown i d (some spec) (some pid) s c id e f r =
      let new : Handle = record { pid = pid; spec = spec } in
      let shown : Definition Body = record d { running = true; pid = some pid } in
      elim (Bool-cases (i == id)) [
        | inl k ↦
            let same : some shown ≡ some e =
              sym (get-put s.definitions i id shown ∙ rw k refl) ∙ f in
            (new, get-put s.processes i id new ∙ rw k refl, cc (same))
        | inr k ↦
            let (h, p, q) = c id e (sym (get-put s.definitions i id shown ∙ rw k refl) ∙ f) r in
            (h, get-put s.processes i id new ∙ rw k p, q)
      ]

  stopped-IsShown :
      (i : String) (found : Option (Definition Body)) (s : State Body)
      → found ≡ get s.definitions i
      → IsShown s
      → IsShown (record {
        definitions = mark_stopped alive i found s.definitions;
        processes = pop s.processes i;
      })
  unfolding mark_stopped
  stopped-IsShown i none s g c id e f r = elim (Bool-cases (i == id)) [
    | inl k ↦ absurd (cc (eq_of_beq i id k, g, f))
    | inr k ↦ let (h, p, q) = c id e f r in (h, get-pop s.processes i id ∙ rw k p, q)
  ]
  stopped-IsShown i (some d) s g c id e f r =
      let halted : Definition Body = record d { running = false; pid = none } in
      elim (Bool-cases (i == id)) [
        | inl k ↦
            let same : some halted ≡ some e =
              sym (get-put s.definitions i id halted ∙ rw k refl) ∙ f in
            absurd (cc (same, r))
        | inr k ↦
            let (h, p, q) = c id e (sym (get-put s.definitions i id halted ∙ rw k refl) ∙ f) r in
            (h, get-pop s.processes i id ∙ rw k p, q)
      ]

  start_found-IsShown :
      (i : String) (found : Option (Definition Body)) (spawned : Option ℕ) (s : State Body)
      → IsShown s
      → IsShown (start_found alive build i found spawned s).0
  unfolding start_found
  start_found-IsShown i none spawned s c = c
  start_found-IsShown i (some d) spawned s c = elim (Bool-cases (live alive s i)) [
    | inl k ↦ rw k c
    | inr k ↦ rw k (launch-IsShown i d (build d.body) spawned s c)
  ]

  stop_found-IsShown :
      (i : String) (found : Option Handle) (ends : Bool) (s : State Body)
      → IsShown s
      → IsShown (stop_found alive i found ends s).0
  unfolding stop_found
  stop_found-IsShown i none ends s c = c
  stop_found-IsShown i (some h) ends s c = elim (Bool-cases (alive h.pid && not ends)) [
    | inl k ↦ rw k c
    | inr k ↦ rw k (stopped-IsShown i (get s.definitions i) s refl c)
  ]

  -- If every definition that is shown as running has its process in the table, with the process id
  -- that is shown, then so it is after every request that does not itself claim to be running.
  pub step-IsShown :
      (req : Request Body) (s : State Body)
      → IsModest req
      → IsShown s
      → IsShown (step build alive req s).0
  unfolding step create_or_update delete start stop
  step-IsShown (create_request d) s m c = elim (Bool-cases (live alive s d.id)) [
    | inl k ↦ rw k c
    | inr k ↦ rw k (create-IsShown d s m c)
  ]
  step-IsShown (delete_request i) s m c = elim (Bool-cases (live alive s i)) [
    | inl k ↦ rw k c
    | inr k ↦ rw k (delete-IsShown i s c)
  ]
  step-IsShown (start_request i spawned) s m c =
      start_found-IsShown i (get s.definitions i) spawned s c
  step-IsShown (stop_request i ends) s m c = stop_found-IsShown i (get s.processes i) ends s c
