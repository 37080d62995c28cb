-- ===== src/Agents/Encoder.antt =====
-- agents/vdi-encoder/vw_vdi_encoder.py: the pipeline, the watchdog loop of `main` and the health
-- endpoint. What each run of the pipeline ends with is a parameter, numbered from 0, `none` where
-- it cannot be started; sleeping adds to a sum of seconds.

use Prim.Native.String.{◌++◌ as append}
use airgap_videowall.Prelude.{
  ℕ, zero, suc, ◌+◌, ◌-◌, ◌*◌, min, String, ◌≡◌, refl, Bool, Option, none, some, List, [], ◌∷◌,
  ◌++◌, if◌then◌else◌, ◌==◌, nat_eq, string_eq,
}
use airgap_videowall.Prelude.Text.{parts, lower, concat, decimal}
use airgap_videowall.Values.{
  Fields, null, bool, num, end, field, ℤ, pos, int_eq, text_of_int, int_of_text,
}

-- What `main` takes from the command line.
pub record Args : Type 0 where
  pub display : String
  pub resolution : String
  pub fps : ℤ
  pub bitrate_kbps : ℤ
  pub output_mode : String
  pub output_url : String

-- `w, h = …; int(w), int(h)`: `none` where Python raises
unfoldable pub size_caps : List String → Option String
unfolding int_of_text text_of_int
size_caps (w ∷ h ∷ []) = elim (int_of_text w) [
  | none ↦ none
  | some m ↦ elim (int_of_text h) [
    | none ↦ none
    | some n ↦ some (concat (",width=" ∷ text_of_int m ∷ ",height=" ∷ text_of_int n ∷ []))
  ]
]
size_caps _ = none

unfoldable pub caps_of : Args → Option String
unfolding size_caps parts concat lower text_of_int
caps_of a =
    let rate = concat ("video/x-raw,framerate=" ∷ text_of_int a.fps ∷ "/1" ∷ []) in
    if a.resolution == "" then some rate else elim (size_caps (parts b'x' (lower a.resolution))) [
      | none ↦ none
      | some size ↦ some (append rate size)
    ]

unfoldable pub encoder_of : Args → String
unfolding concat text_of_int
encoder_of a = concat (
    "x264enc tune=zerolatency speed-preset=veryfast bitrate="
    ∷ text_of_int a.bitrate_kbps
    ∷ " key-int-max="
    ∷ text_of_int a.fps
    ∷ " bframes=0"
    ∷ [])

unfoldable pub source_of : Args → String → String
unfolding concat encoder_of
source_of a caps =
    concat
      ("ximagesrc use-damage=0 ! videoconvert ! videoscale ! " ∷ caps ∷ " ! " ∷ encoder_of a ∷ [])

unfoldable pub srt_sink : Args → String → String
unfolding concat source_of
srt_sink a caps = concat (
    source_of a caps
    ∷ " ! h264parse config-interval=1 ! mpegtsmux ! srtsink uri=\""
    ∷ a.output_url
    ∷ "\""
    ∷ [])

-- `output_url.split(':')[1]` raises where there is no colon
unfoldable pub rtp_sink : Args → String → List String → Option String
unfolding concat source_of
rtp_sink a caps (host ∷ port ∷ rest) = some (
    concat (
      source_of a caps
      ∷ " ! rtph264pay pt=96 config-interval=1 ! udpsink host="
      ∷ host
      ∷ " port="
      ∷ port
      ∷ []))
rtp_sink a caps _ = none

unfoldable pub webrtc_sink : Args → String → String
unfolding concat source_of
webrtc_sink a caps = concat (
    source_of a caps
    ∷ " ! h264parse config-interval=1 ! rtph264pay pt=96 config-interval=1 "
    ∷ "! application/x-rtp,media=video,encoding-name=H264,payload=96 "
    ∷ "! webrtcbin name=sendrecv bundle-policy=max-bundle"
    ∷ [])

unfoldable pub sink_of : Args → String → Option String
unfolding lower srt_sink rtp_sink webrtc_sink parts
sink_of a caps =
    let mode = lower a.output_mode in
    if mode == "srt"
    then some (srt_sink a caps)
    else if mode == "rtp"
    then rtp_sink a caps (parts b':' a.output_url)
    else if mode == "webrtc"
    then some (webrtc_sink a caps)
    else none

-- `build_pipeline`
unfoldable pub build_pipeline : Args → Option String
unfolding caps_of sink_of
build_pipeline a = elim (caps_of a) [ none ↦ none | some caps ↦ sink_of a caps ]

-- `EncoderState`, with what the loop has done: the runs of the pipeline and the seconds slept.
pub record State : Type 0 where
  pub last_exit_code : Option ℤ
  pub restarts : ℕ
  pub runs : ℕ
  pub slept : ℕ

-- min(5 * (i + 1), 30)
unfoldable pub delay : ℕ → ℕ
delay i = min (5 * (i + 1)) 30

abbrev pub is_zero : ℤ → Bool
is_zero rc = rc == pos 0

unfoldable pub failed_run : ℕ → ℤ → State → State
unfolding delay
failed_run i rc s = record {
  last_exit_code = some rc;
  restarts = s.restarts + 1;
  runs = s.runs + 1;
  slept = s.slept + delay i;
}

unfoldable pub last_run : ℤ → State → State
last_run rc s = record s { last_exit_code = some rc; runs = s.runs + 1 }

-- The loop of `main`: `left` is what `range(max_restarts + 1)` still has. The exit code of the agent,
-- `none` where an exception ends it.
unfoldable pub watchdog : (ℕ → Option ℤ) → ℕ → ℕ → State → State × Option ℕ
unfolding failed_run last_run
watchdog exits i zero s = (s, some 1)
watchdog exits i (suc left) s = elim (exits i) [
  | none ↦ (s, none)
  | some rc ↦
      let again = watchdog exits (suc i) left (failed_run i rc s) in
      if is_zero rc then (last_run rc s, some 0) else again
]

abbrev pub max_restarts : ℕ
max_restarts = 10

unfoldable pub main_loop : (ℕ → Option ℤ) → State → State × Option ℕ
unfolding watchdog
main_loop exits s = watchdog exits 0 (max_restarts + 1) s

-- `as_health`, with the times in whole seconds
unfoldable pub as_health : Bool → ℕ → ℕ → State → Fields
as_health running started_at now s = field "running" (bool running) (
    field "started_at" (num (pos started_at)) (
      field "uptime_s" (num (pos (now - started_at))) (
        field "restarts" (num (pos s.restarts))
          (field "last_exit_code" (elim s.last_exit_code [ none ↦ null | some rc ↦ num rc ]) end))))

abbrev exit_metrics : Option ℤ → List String
exit_metrics none = []
exit_metrics (some rc) =
    "# HELP vw_vdi_encoder_last_exit_code Last pipeline exit code\n"
    ∷ "# TYPE vw_vdi_encoder_last_exit_code gauge\n"
    ∷ concat ("vw_vdi_encoder_last_exit_code " ∷ text_of_int rc ∷ "\n" ∷ [])
    ∷ []

-- the body of /metrics
unfoldable pub metrics : Bool → State → String
unfolding concat decimal text_of_int
metrics running s = concat (
    ("# HELP vw_vdi_encoder_running 1 if pipeline is running\n"
      ∷ "# TYPE vw_vdi_encoder_running gauge\n"
      ∷ (if running then "vw_vdi_encoder_running 1\n" else "vw_vdi_encoder_running 0\n")
      ∷ "# HELP vw_vdi_encoder_restarts Number of pipeline restarts\n"
      ∷ "# TYPE vw_vdi_encoder_restarts counter\n"
      ∷ concat ("vw_vdi_encoder_restarts " ∷ decimal s.restarts ∷ "\n" ∷ [])
      ∷ [])
    ++ exit_metrics s.last_exit_code)

rtp_runs :
    build_pipeline (record {
      display = ":0";
      resolution = "";
      fps = pos 30;
      bitrate_kbps = pos 4000;
      output_mode = "RTP";
      output_url = "udp://10.0.0.1:5004";
    })
    ≡ some
        "ximagesrc use-damage=0 ! videoconvert ! videoscale ! video/x-raw,framerate=30/1 ! x264enc tune=zerolatency speed-preset=veryfast bitrate=4000 key-int-max=30 bframes=0 ! rtph264pay pt=96 config-interval=1 ! udpsink host=udp port=//10.0.0.1"
unfolding build_pipeline concat lower text_of_int
rtp_runs = refl
