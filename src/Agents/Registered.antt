-- ===== src/Agents/Registered.antt =====
-- How a source is registered, with the management API's endpoint and over a restart.
use airgap_videowall.Agents.Endpoint.{
  Api, post_source, source_in, authorized, authorized-IsError, attempts-constant, http_status,
}
use airgap_videowall.Prelude.Text.{strip}
use airgap_videowall.Prelude.{
  ℕ, ◌+◌, String, ◌≡◌, refl, sym, ap, ◌∙◌, subst, inl, inr, true, false, Option, none, some, List,
  [], ◌∷◌, arith, leb, Bool-cases, ◌==◌, eq_of_beq, string_eq,
}
use airgap_videowall.Values.{
  Value, Fields, str, get_field, obj, field, end, or_else, str_of, truthy,
}
use airgap_videowall.Mgmt.Users.{
  require_role, get_current_user, parse_bearer, missing_authorization,
}
use airgap_videowall.Agents.Http.{
  Reply, answered, returned, request_json, data_of, Returned, failed, result_of,
}
use airgap_videowall.Agents.Wallctl.Tokens.{Json}
use airgap_videowall.Agents.Sourcereg.{
  State, metadata, beats, heartbeat, take_id, run, register_if_needed, registered, Settings, Step,
  id_text, init, first_id, stored_id, id_of_state,
}

apart : (s s' : State) → s ≡ s' → (s.source_id == "") ≡ true → (s'.source_id == "") ≡ false → ⊥
apart s s' e t f = let same = ap (λ (x : State). x.source_id == "") e in cc (sym t ∙ (same ∙ f))

module _ (json : Json) (cfg : Fields) where
  -- The agent calls the source's name `source_name`.
  metadata-none : source_in (metadata json cfg "") ≡ none
  unfolding source_in metadata
  metadata-none = refl

  heartbeat_unregistered :
      (replies : ℕ → Reply) (s : State)
      → (s.source_id == "") ≡ true
      → heartbeat json replies s ≡ (s, true)
  unfolding heartbeat
  heartbeat_unregistered replies s e = rw (heartbeat, e) refl

  beats_unregistered :
      (rounds : List (ℕ → Reply)) (s : State)
      → (s.source_id == "") ≡ true
      → beats json rounds (s, true) ≡ (s, true)
  unfolding beats
  beats_unregistered [] s e = refl
  beats_unregistered (replies ∷ rest) s e =
      ap (beats json rest) (heartbeat_unregistered replies s e) ∙ beats_unregistered rest s e

  register_refused :
      (api : Api) (header : Option String) (s : State)
      → (s.source_id == "") ≡ true
      → register_if_needed json cfg (λ body n. post_source api header body) s
        ≡ (record s { registrations = s.registrations + 1 }, true)
  unfolding register_if_needed registered post_source request_json result_of
  register_refused api header s e =
      let empty = eq_of_beq s.source_id "" e in
      let sent = metadata json cfg s.source_id in
      let body : source_in sent ≡ none = rw empty metadata-none in
      let (status, content, is, error) = authorized-IsError api sent _ body in
      let answer : (request_json (λ n. post_source api header sent) 2).result
          ≡ returned status (data_of content) =
        attempts-constant (post_source api header sent) 0 0 2 ∙ ap result_of is in
      rw (register_if_needed, e, answer, registered, error) refl

  -- A source without an id, whatever its configuration, is never registered with the management API:
  -- the request, which has no Authorization header, is answered with 401, and would be refused with
  -- any header, since the model `SourceIn` wants a `name`. The agent registers once in vain, and
  -- then stays silent in every round, sending no heartbeat.
  pub run-unregistered :
      (api : Api) (header : Option String) (rounds : List (ℕ → Reply)) (s : State)
      → s.source_id ≡ ""
      → (post_source api none (metadata json cfg s.source_id)
          ≡ answered 401 (api.detail missing_authorization))
        × (run json cfg (λ body n. post_source api header body) rounds s
            ≡ (record s { registrations = s.registrations + 1 }, true))
  unfolding run post_source authorized require_role get_current_user parse_bearer http_status
  run-unregistered api header rounds s e =
      let empty : (s.source_id == "") ≡ true = rw e refl in
      (
        refl,
        ap (beats json rounds) (register_refused api header s empty)
            ∙ beats_unregistered rounds (record s { registrations = s.registrations + 1 }) empty,
      )

  abbrev state_text : String → Value
  state_text id = obj (field "source_id" (str id) end)

  take_id-file :
      (v : Value) (s s' : State)
      → take_id json v s ≡ (s', true)
      → (s.source_id == "") ≡ true
      → (s'.source_id == "") ≡ false
      → s'.state_file ≡ some (json.dumps (state_text s'.source_id))
  unfolding take_id
  take_id-file (obj fs) s s' h e d =
      let new_id = or_else (get_field fs "source_id") (get_field fs "id") in
      let id = str_of json.repr new_id in
      elim (Bool-cases (truthy new_id)) [
        | inl t ↦
            let made = ap (λ (r : Step). r.0) (rw t at h) in
            subst (λ (x : State). x.state_file ≡ some (json.dumps (state_text x.source_id))) made
              refl
        | inr f ↦
            let kept : s ≡ s' = ap (λ (r : Step). r.0) (rw f at h) in absurd (apart s s' kept e d)
      ]
  take_id-file _ s s' h e d = absurd (cc (ap (λ r. r.1) h))

  registered-file :
      (r : Returned) (s s' : State)
      → registered json r s ≡ (s', true)
      → (s.source_id == "") ≡ true
      → (s'.source_id == "") ≡ false
      → s'.state_file ≡ some (json.dumps (state_text s'.source_id))
  unfolding registered
  registered-file failed s s' h e d = absurd (cc (ap (λ (r : Step). r.1) h))
  registered-file (returned status v) s s' h e d = elim (Bool-cases (leb 400 status)) [
    | inl f ↦ absurd (apart s s' (ap (λ (r : Step). r.0) (rw f at h)) e d)
    | inr f ↦ take_id-file v s s' (rw f at h) e d
  ]

  init-first_id :
      (file : Option String) (settings : Settings) (t : State)
      → init json cfg file ≡ some (settings, t)
      → t.source_id ≡ first_id json cfg file
  unfolding init
  init-first_id file settings t h = ground arith

  stored-again :
      (id : String) (file : Option String)
      → file ≡ some (json.dumps (state_text id))
      → (id == "") ≡ false
      → json.loads (json.dumps (state_text id)) ≡ some (state_text id)
      → strip id ≡ id
      → id_text json (get_field cfg "source_id") ≡ ""
      → first_id json cfg file ≡ id
  unfolding first_id stored_id id_of_state id_text get_field truthy str_of
  stored-again id file e d back blank none_given =
      let full : id_text json (str id) ≡ id = rw d blank in rw none_given (rw e (rw back full))

  -- Once a source is registered, the agent has the same id after a restart and asks for no other, if
  -- the configuration names none, the state file reads back and the id has no blanks around it.
  pub register_if_needed-persists :
      (api api' : Fields → ℕ → Reply) (s s' t : State) (settings : Settings)
      → s.source_id ≡ ""
      → register_if_needed json cfg api s ≡ (s', true)
      → (s'.source_id == "") ≡ false
      → json.loads (json.dumps (state_text s'.source_id)) ≡ some (state_text s'.source_id)
      → strip s'.source_id ≡ s'.source_id
      → id_text json (get_field cfg "source_id") ≡ ""
      → init json cfg s'.state_file ≡ some (settings, t)
      → (t.source_id ≡ s'.source_id) × (register_if_needed json cfg api' t ≡ (t, true))
  unfolding register_if_needed
  register_if_needed-persists api api' s s' t settings e h d back blank none_given started =
      let empty : (s.source_id == "") ≡ true = rw e refl in
      let answer = (request_json (api (metadata json cfg s.source_id)) 2).result in
      let sent = record s { registrations = s.registrations + 1 } in
      let file = registered-file answer sent s' (rw empty at h) empty d in
      let id : t.source_id ≡ s'.source_id =
        init-first_id s'.state_file settings t started
        ∙ stored-again s'.source_id s'.state_file file d back blank none_given in
      (id, rw (register_if_needed, id, d) refl)
