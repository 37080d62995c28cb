-- ===== src/Agents/Tests.antt =====
-- The agents: retries, the encoder's watchdog and a source that is registered.
use airgap_videowall.Agents.Wallctl.Tokens.{Json}
use airgap_videowall.Prelude.Text.{strip}
use airgap_videowall.Agents.Encoder.{main_loop, max_restarts}
use airgap_videowall.Agents.Endpoint.{Api, post_source}
use airgap_videowall.Agents.Registered.{run-unregistered, register_if_needed-persists}
use airgap_videowall.Agents.Watchdog.{EndsAfter, Fails, main_loop-ends}
use airgap_videowall.Agents.Sourcereg.{register_if_needed, run, metadata, id_text, init}
use airgap_videowall.Agents.Encoder
use airgap_videowall.Agents.Sourcereg
use airgap_videowall.Agents.Http
use airgap_videowall.Values.{
  null, Fields, ℤ, get_field, pos, obj, field, num, has_field, str, negsuc, end, truthy, str_of,
  int_of,
}
use airgap_videowall.Agents.Retries.{sum_to, request_json-ends}
use airgap_videowall.Agents.Players.{
  Ends, IsStarted, run_with_watchdog, run_with_watchdog-Ends, build_cmd,
}
use airgap_videowall.Prelude.{
  ℕ, zero, suc, ◌≤◌, ◌<◌, ◌≡◌, refl, inl, inr, true, Option, none, some, [], ◌∷◌, arith,
  if◌then◌else◌, Bool-cases, ◌==◌, nat_eq,
}
use airgap_videowall.Agents.Http.{
  Reply, raised, answered, json, request_json, is_transient, is_retryable, result_of, data_of,
  returned, empty_content,
}

abbrev replies : ℕ → Reply
replies zero = raised
replies (suc zero) = answered 503 empty_content
replies (suc (suc n)) = answered 200 (json null)

early : (m : ℕ) → m < 2 → is_transient (replies m) ≡ true
unfolding is_transient is_retryable
early zero h = refl
early (suc zero) h = refl
early (suc (suc m)) h = absurd (omega arith)

request_json-ends_example :
    request_json replies 3 ≡ record { result = returned 200 null; sent = 3; slept = 3 }
unfolding is_transient is_retryable result_of data_of sum_to
request_json-ends_example = request_json-ends replies 3 2 (omega arith) early (inl refl)

-- The pipeline fails twice.
abbrev exits : ℕ → Option ℤ
exits zero = some (pos 1)
exits (suc zero) = some (negsuc 8)
exits (suc (suc n)) = some (pos 0)

two_fail : (m : ℕ) → m < 2 → Fails (exits m)
two_fail zero h = (pos 1, refl, refl)
two_fail (suc zero) h = (negsuc 8, refl, refl)
two_fail (suc (suc m)) h = absurd (omega arith)

abbrev fresh : Encoder.State
fresh = record { last_exit_code = none; restarts = 0; runs = 0; slept = 0 }

main_loop-ends_example : EndsAfter 11 2 (main_loop exits fresh)
main_loop-ends_example =
    main_loop-ends exits 2 fresh refl refl refl (omega arith) two_fail (inr refl)

abbrev texts : Json
texts = record {
  dumps = λ v. "state";
  loads = λ s. some (obj (field "source_id" (str "7") end));
  repr = λ v. "";
}

abbrev camera : Fields
camera = field "source_name" (str "camera") (
    field "source_type" (str "hdmi") (
      field "protocol" (str "rtsp") (
        field "endpoint_url" (str "rtsp://camera") (
          field "ca_cert" (str "ca") (
            field "client_cert" (str "cert") (
              field "client_key" (str "key") (
                field "mgmt_api_url" (str "https://mgmt/")
                  (field "health_url" (str "https://health") end))))))))

-- The management API with a handler that always creates the source.
abbrev mgmt_api : Api
mgmt_api = record {
  settings = record { public_key_pem = "key"; jwks_path = ""; client_id = "vw" };
  tools = record {
    read_jwks = none;
    unverified_header = λ t. none;
    certificate = λ c. none;
    decode = λ t k. none;
  };
  detail = λ e. empty_content;
  invalid = λ body. empty_content;
  create = λ user payload. answered 201 (Http.json (obj (field "id" (num (pos 7)) end)));
}

abbrev unregistered : Sourcereg.State
unregistered = record { source_id = ""; state_file = none; registrations = 0; heartbeats = 0 }

run-unregistered_example :
    (post_source mgmt_api none (metadata texts camera "") ≡ answered 401 empty_content)
    × (run texts camera
          (λ body n. post_source mgmt_api (some "Bearer t") body)
          (replies ∷ replies ∷ [])
          unregistered
        ≡ (record unregistered { registrations = 1 }, true))
run-unregistered_example =
    run-unregistered texts camera mgmt_api (some "Bearer t") (replies ∷ replies ∷ []) unregistered
      refl

-- a management API that takes every source
abbrev welcoming : Fields → ℕ → Reply
welcoming body n = answered 201 (Http.json (obj (field "source_id" (str "7") end)))

abbrev known : Sourcereg.State
known = record { source_id = "7"; state_file = some "state"; registrations = 1; heartbeats = 0 }

abbrev restarted : Sourcereg.State
restarted = record { source_id = "7"; state_file = some "state"; registrations = 0; heartbeats = 0 }

register_if_needed-persists_example :
    (restarted.source_id ≡ known.source_id)
    × (register_if_needed texts camera welcoming restarted ≡ (restarted, true))
unfolding register_if_needed request_json get_field has_field truthy str_of int_of strip id_text
    init
register_if_needed-persists_example =
    register_if_needed-persists texts camera welcoming welcoming unregistered known restarted
      (record {
        mgmt_api_url = "https://mgmt";
        health_url = "https://health";
        check_interval = pos 15;
      })
      refl refl refl refl refl refl refl

-- A player that fails once and then plays to the end.
abbrev plays : ℕ → Option ℤ
plays n = if n == 0 then some (pos 4) else some (pos 0)

plays-IsStarted : (n : ℕ) → n ≤ max_restarts → IsStarted (plays n)
plays-IsStarted n le = elim (Bool-cases (n == 0)) [
  | inl e ↦ rw e (pos 4, refl)
  | inr e ↦ rw e (pos 0, refl)
]

run_with_watchdog-Ends_example : Ends plays 0 max_restarts (run_with_watchdog plays).1
run_with_watchdog-Ends_example = run_with_watchdog-Ends plays plays-IsStarted

plays_runs : run_with_watchdog plays ≡ (5, some (pos 0))
unfolding run_with_watchdog
plays_runs = refl

big_screen :
    build_cmd (λ name. none) "WEBRTC" "u"
    ≡ "mpv" ∷ "--no-terminal" ∷ "--fullscreen" ∷ "--really-quiet" ∷ "u" ∷ []
unfolding build_cmd
big_screen = refl
