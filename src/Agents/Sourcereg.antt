-- ===== src/Agents/Sourcereg.antt =====
-- agents/sourcereg/vw_sourcereg.py, the agent that registers a source and sends its heartbeats. JSON's
-- text is a parameter; `request_json` is that of the agents. A write of the state file succeeds.
use airgap_videowall.Prelude.{
  ℕ, ◌+◌, String, Bool, true, false, Option, none, some, List, [], ◌∷◌, leb, if◌then◌else◌, ◌==◌,
  string_eq,
}
use airgap_videowall.Prelude.Text.{strip}
use airgap_videowall.Values.{
  Value, Fields, null, str, list, obj, nil, end, field, get_field, truthy, str_of, or_else, ℤ, pos,
}
use airgap_videowall.Agents.Http.{Reply, Returned, returned, failed, request_json}
use airgap_videowall.Agents.Wallctl.Settings.{required, rstrip_slash, int_option}
use airgap_videowall.Agents.Wallctl.Tokens.{Json}

-- `self.…`, with the text of the state file and the requests that were sent
pub record State : Type 0 where
  pub source_id : String
  pub state_file : Option String
  pub registrations : ℕ
  pub heartbeats : ℕ

-- What `__init__` reads besides the source's id.
pub record Settings : Type 0 where
  pub mgmt_api_url : String
  pub health_url : String
  pub check_interval : ℤ

infixl 5 ◌>>=◌
abbrev ◌>>=◌ : {A B : Type 0} → Option A → (A → Option B) → Option B
some a >>= f = f a
none >>= f = none

-- A step: the state, and whether it ended without an exception.
abbrev pub Step : Type 0
Step = State × Bool

module _ (json : Json) where
  -- str(v or "").strip()
  unfoldable pub id_text : Value → String
  unfolding strip str_of truthy
  id_text v = strip (str_of json.repr (or_else v (str "")))

  -- `st.get("source_id")` of a state file; every exception is ignored
  unfoldable pub id_of_state : Option Value → String
  unfolding id_text get_field
  id_of_state (some (obj st)) = id_text (get_field st "source_id")
  id_of_state _ = ""

  unfoldable pub stored_id : Option String → String
  unfolding id_of_state
  stored_id none = ""
  stored_id (some text) = id_of_state (json.loads text)

  unfoldable pub first_id : Fields → Option String → String
  unfolding id_text stored_id get_field
  first_id cfg state_file =
      let given = id_text (get_field cfg "source_id") in
      if given == "" then stored_id state_file else given

  -- `SourceReg.__init__`: `none` where it raises
  unfoldable pub init : Fields → Option String → Option (Settings × State)
  unfolding required rstrip_slash int_option first_id str_of
  init cfg state_file = do
    ca_cert ← required cfg "ca_cert"
    client_cert ← required cfg "client_cert"
    client_key ← required cfg "client_key"
    mgmt_api_url ← required cfg "mgmt_api_url"
    health_url ← required cfg "health_url"
    check_interval ← int_option cfg "check_interval" (pos 15)
    some (
      record {
        mgmt_api_url = rstrip_slash (str_of json.repr mgmt_api_url);
        health_url = rstrip_slash (str_of json.repr health_url);
        check_interval = check_interval;
      },
      record {
        source_id = first_id cfg state_file;
        state_file = state_file;
        registrations = 0;
        heartbeats = 0;
      },
    )

  -- `_metadata`
  unfoldable pub metadata : Fields → String → Fields
  unfolding get_field truthy
  metadata cfg source_id = field "source_id" (if source_id == "" then null else str source_id) (
      field "source_name" (get_field cfg "source_name") (
        field "source_type" (get_field cfg "source_type") (
          field "protocol" (get_field cfg "protocol") (
            field "endpoint_url" (get_field cfg "endpoint_url") (
              field "codec" (get_field cfg "codec")
                (field "tags" (or_else (get_field cfg "tags") (list nil)) end))))))

  -- the id of an answer below 400
  unfoldable pub take_id : Value → State → Step
  unfolding truthy str_of get_field
  take_id (obj fs) s =
      let new_id = or_else (get_field fs "source_id") (get_field fs "id") in
      if truthy new_id
      then (
        record s {
          source_id = str_of json.repr new_id;
          state_file =
              some (json.dumps (obj (field "source_id" (str (str_of json.repr new_id)) end)));
        },
        true,
      )
      else (s, true)
  take_id _ s = (s, false)

  unfoldable pub registered : Returned → State → Step
  unfolding take_id
  registered failed s = (s, false)
  registered (returned status v) s = if leb 400 status then (s, true) else take_id v s

  -- `register_if_needed`, against a management API that answers by the body
  unfoldable pub register_if_needed : Fields → (Fields → ℕ → Reply) → State → Step
  unfolding registered
  register_if_needed cfg api s =
      if s.source_id == ""
      then registered (request_json (api (metadata cfg s.source_id)) 2).result
          (record s { registrations = s.registrations + 1 })
      else (s, true)

  unfoldable pub beaten : Returned → State → Step
  beaten failed s = (s, false)
  beaten (returned status v) s = (s, true)

  -- `heartbeat`: an answer of any status is only logged
  unfoldable pub heartbeat : (ℕ → Reply) → State → Step
  unfolding beaten
  heartbeat replies s =
      if s.source_id == ""
      then (s, true)
      else beaten (request_json replies 2).result (record s { heartbeats = s.heartbeats + 1 })

  -- the rounds of `run`: an exception ends them
  unfoldable pub beats : List (ℕ → Reply) → Step → Step
  unfolding heartbeat
  beats [] r = r
  beats (replies ∷ rest) (s, false) = (s, false)
  beats (replies ∷ rest) (s, true) = beats rest (heartbeat replies s)

  -- `run`
  unfoldable pub run : Fields → (Fields → ℕ → Reply) → List (ℕ → Reply) → State → Step
  unfolding register_if_needed beats
  run cfg api rounds s = beats rounds (register_if_needed cfg api s)
