-- ===== src/Agents/Wallctl/Tests.antt =====
-- A wall of one tile, and the theorems of the wall controller at it.
use airgap_videowall.Agents.Wallctl.Caches.{
  Grants, fetch_active_layout-falls_back, request_subscribe_token-reuses,
}
use airgap_videowall.Agents.Wallctl.Dark.{Answers, rounds-IsDark}
use airgap_videowall.Agents.Wallctl.Rounds.{run_rounds-IsShown}
use airgap_videowall.Agents.Wallctl.Running.{IsShown}
use airgap_videowall.Agents.Wallctl.Layout.{run_rounds, Clock, Round, rounds}
use airgap_videowall.Prelude.{
  ℕ, ◌≡◌, refl, true, none, some, [], ◌∷◌, if◌then◌else◌, ◌==◌, nat_eq, string_eq,
}
use airgap_videowall.Prelude.Dict.{pop, get, put}
use airgap_videowall.Values.{
  Value, Fields, obj, field, has_field, pos, get_field, end, str, truthy, int_of, num, str_of, null,
}
use airgap_videowall.Agents.Http.{Reply, answered, empty_content, request_json, returned, raised}
use airgap_videowall.Agents.Http
use airgap_videowall.Agents.Wallctl.Settings.{Config, configure, get_default}
use airgap_videowall.Agents.Wallctl.State.{Wall, Player}
use airgap_videowall.Agents.Wallctl.Tokens.{
  Json, token_key, fetch_active_layout, request_subscribe_token, later, is_fresh,
}

abbrev settings : Fields
settings = field "wall_id" (str "1") (
    field "controller_id" (str "c1") (
      field "mgmt_api_url" (str "https://mgmt/") (
        field "health_url" (str "https://health") (
          field "tile_player_binary" (str "player") (
            field "safe_slate_image" (str "slate.png") (
              field "ca_cert" (str "ca")
                (field "client_cert" (str "cert") (field "client_key" (str "key") end))))))))

abbrev cfg : Config
cfg = record {
  wall_id = "1";
  controller_id = "c1";
  mgmt_api_url = "https://mgmt";
  health_url = "https://health";
  heartbeat_interval = pos 10;
  token_refresh_interval = pos 240;
  layout_poll_interval = pos 30;
  tile_health_interval = pos 5;
  tile_player_binary = "player";
  safe_slate_image = "slate.png";
  max_retries = pos 3;
  fallback_to_slate = true;
}

configure_runs : configure (λ _. "") settings ≡ some cfg
unfolding configure has_field get_field int_of str_of truthy
configure_runs = refl

abbrev stream : Value
stream = obj (field "sfu_url" (str "wss://sfu") (field "room_id" (str "r1") end))

abbrev tiles : Fields
tiles = field "tile-1" (obj (field "source_id" (str "src-1") (field "stream" stream end))) end

abbrev layout : Value
layout = obj (field "tiles" (obj tiles) end)

abbrev json : Json
json = record { dumps = λ _. "layout"; loads = λ _. some layout; repr = λ _. "" }

abbrev boot : Wall
boot = record {
  tile_procs = [];
  token_cache = obj end;
  current_layout = obj end;
  token_file = none;
  layout_file = none;
  slates = [];
  requests = 0;
}

abbrev replies_of : Value → ℕ → Reply
replies_of v n = answered 200 (Http.json v)

abbrev token_fields : Fields
token_fields = field "token" (str "tok") (field "exp" (num (pos 500)) end)

abbrev token_body : Value
token_body = obj token_fields

abbrev first_round : Round
first_round = record {
  now = 100;
  beat_replies = λ n. answered 200 empty_content;
  layout_replies = replies_of layout;
  meets = λ t. record {
    now = 100;
    replies = replies_of token_body;
    spawned = λ n. if n == 0 then none else some 7;
  };
  alive = λ pid. true;
}

abbrev shown : Player
shown = record {
  pid = 7;
  argv =
      "player" ∷ "--tile-id" ∷ "tile-1" ∷ "--token" ∷ "tok" ∷ "--sfu-url" ∷ "wss://sfu"
      ∷ "--room-id" ∷ "r1" ∷ [];
}

abbrev clock : Clock
clock = record { next_hb = pos 110; next_layout = pos 130; next_tilechk = pos 105 }

-- The second try starts the player.
run_rounds_starts :
    get (run_rounds json cfg (replies_of (obj end)) (first_round ∷ []) boot).0.tile_procs "tile-1"
    ≡ some shown
unfolding run_rounds request_json get_field has_field truthy str_of int_of get put pop
run_rounds_starts = refl

run_rounds-IsShown_example :
    IsShown json cfg (run_rounds json cfg (replies_of (obj end)) (first_round ∷ []) boot).0
unfolding run_rounds request_json get_field has_field truthy str_of int_of get put pop
run_rounds-IsShown_example =
    run_rounds-IsShown json cfg (replies_of (obj end)) (first_round ∷ []) boot clock refl refl

layout_answered : (request_json (replies_of layout) 2).result ≡ returned 200 layout
unfolding request_json
layout_answered = refl

layout_full : truthy layout ≡ true
unfolding truthy
layout_full = refl

token_answered : (request_json (replies_of token_body) 2).result ≡ returned 200 token_body
unfolding request_json
token_answered = refl

no_token : get_field end (token_key "src-1" "tile-1") ≡ null
unfolding get_field
no_token = refl

token_read : get_field token_fields "token" ≡ str "tok"
unfolding get_field
token_read = refl

exp_read : int_of (get_default token_fields "exp" (num (later 100 (pos 240)))) ≡ some (pos 500)
unfolding get_default has_field get_field int_of
exp_read = refl

abbrev later_wall : Wall
later_wall = (request_subscribe_token json cfg "src-1" "tile-1" 100 (replies_of token_body) boot).0

abbrev fetched : Answers (replies_of layout) layout
fetched = record { status = 200; result = layout_answered; fine = refl; full = layout_full }

-- The player has ended and left the table.
abbrev dark : Wall
dark = record boot { current_layout = layout }

abbrev zero_clock : Clock
zero_clock = record { next_hb = pos 0; next_layout = pos 0; next_tilechk = pos 0 }

rounds-IsDark_example :
    get (rounds json cfg (first_round ∷ []) zero_clock dark).0.tile_procs "tile-1" ≡ none
unfolding rounds request_json get_field has_field truthy str_of int_of get put pop
rounds-IsDark_example =
    rounds-IsDark json cfg layout tiles "tile-1" refl refl (first_round ∷ []) zero_clock clock dark
      (fetched, tt) refl refl refl

fetch_active_layout-falls_back_example :
    (fetch_active_layout json cfg
      (λ n. answered 500 empty_content)
      (fetch_active_layout json cfg (replies_of layout) boot).0).1
    ≡ some layout
unfolding fetch_active_layout request_json
fetch_active_layout-falls_back_example =
    fetch_active_layout-falls_back json cfg (replies_of layout) (λ n. answered 500 empty_content)
      boot (fetch_active_layout json cfg (replies_of layout) boot).0 layout fetched refl refl refl

abbrev granting : Grants json cfg "src-1" "tile-1" 100 (replies_of token_body) boot
granting = record {
  cache = end;
  is_cache = refl;
  none_yet = no_token;
  status = 200;
  body = token_fields;
  answered = token_answered;
  fine = refl;
  token = "tok";
  exp = pos 500;
  has_token = token_read;
  full = refl;
  has_exp = exp_read;
}

request_subscribe_token-reuses_example :
    ((request_subscribe_token json cfg "src-1" "tile-1" 100 (replies_of token_body) boot).1
      ≡ some (some "tok"))
    × (request_subscribe_token json cfg "src-1" "tile-1" 200 (λ n. raised) later_wall
        ≡ (later_wall, some (some "tok")))
unfolding is_fresh
request_subscribe_token-reuses_example =
    request_subscribe_token-reuses json cfg "src-1" "tile-1" 100 200 (replies_of token_body)
      (λ n. raised) boot later_wall granting refl
