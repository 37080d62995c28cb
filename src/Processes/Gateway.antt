-- ===== src/Processes/Gateway.antt =====
-- services/gateway/app: the ingest definitions, their pipelines (pipelines.py) and the handlers
-- (main.py).
use airgap_videowall.Prelude.{
  ℕ, String, Bool, Option, none, some, [], ◌∷◌, if◌then◌else◌, ◌==◌, string_eq,
}
use airgap_videowall.Prelude.Text.{concat, split}
use airgap_videowall.Values.{ℤ, pos, int_eq, text_of_int}
use airgap_videowall.Processes.Table.{State, Answer, Spec, Request, step}

-- The fields of `IngestDefinition` beside its id and the two that the service sets.
pub record Ingest : Type 0 where
  pub name : String
  pub input_url : String
  pub input_protocol : String
  pub output_url : String
  pub output_protocol : String
  pub janus_url : Option String
  pub janus_room_id : Option ℤ
  pub janus_token : Option String
  pub rtp_port : Option ℤ
  pub rtp_caps : Option String
  pub rtsp_latency_ms : ℤ
  pub rtsp_protocols : String
  pub srt_mode : String

-- `_gst`
unfoldable pub gst : String → Spec
gst cmd = record {
  argv = "gst-launch-1.0" ∷ "-e" ∷ split cmd;
  pretty = concat ("gst-launch-1.0 -e " ∷ cmd ∷ []);
}

-- f"{v}" of an optional text
unfoldable pub optional_text : Option String → String
optional_text none = "None"
optional_text (some s) = s

abbrev pub rtp_payload : String
rtp_payload = concat (
    "! rtph264pay pt=96 config-interval=1 "
    ∷ "! application/x-rtp,media=video,encoding-name=H264,payload=96 "
    ∷ "! webrtcbin name=sendrecv bundle-policy=max-bundle" ∷ [])

-- `_build_srt_to_webrtc`
unfoldable pub build_srt_to_webrtc : Ingest → Spec
unfolding gst
build_srt_to_webrtc ing = gst (
    concat (
      "srtsrc uri=" ∷ ing.input_url ∷ " ! tsdemux ! h264parse config-interval=1 " ∷ rtp_payload
      ∷ []))

-- `_build_rtsp_to_webrtc`
unfoldable pub build_rtsp_to_webrtc : Ingest → Spec
unfolding gst
build_rtsp_to_webrtc ing = gst (
    concat (
      "rtspsrc location="
      ∷ ing.input_url
      ∷ " latency="
      ∷ text_of_int ing.rtsp_latency_ms
      ∷ " protocols="
      ∷ ing.rtsp_protocols
      ∷ " ! rtph264depay ! h264parse config-interval=1 "
      ∷ rtp_payload
      ∷ []))

-- `_build_rtp_to_webrtc`
unfoldable pub build_rtp_to_webrtc : ℤ → Ingest → Spec
unfolding gst optional_text
build_rtp_to_webrtc port ing = gst (
    concat (
      "udpsrc port="
      ∷ text_of_int port
      ∷ " caps="
      ∷ optional_text ing.rtp_caps
      ∷ " ! rtph264depay ! h264parse config-interval=1 "
      ∷ rtp_payload
      ∷ []))

unfoldable pub build_rtsp : Ingest → Spec
unfolding gst build_rtsp_to_webrtc
build_rtsp ing =
    if ing.output_protocol == "webrtc"
    then build_rtsp_to_webrtc ing
    else gst (
        concat (
          "rtspsrc location="
          ∷ ing.input_url
          ∷ " latency="
          ∷ text_of_int ing.rtsp_latency_ms
          ∷ " protocols="
          ∷ ing.rtsp_protocols
          ∷ " ! rtph264depay ! h264parse ! mpegtsmux ! srtsink uri="
          ∷ ing.output_url
          ∷ []))

unfoldable pub build_srt : Ingest → Spec
unfolding gst build_srt_to_webrtc
build_srt ing =
    if ing.output_protocol == "webrtc"
    then build_srt_to_webrtc ing
    else gst (
        concat (
          "srtsrc uri=" ∷ ing.input_url ∷ " ! tsdemux ! h264parse ! mpegtsmux ! srtsink uri="
          ∷ ing.output_url ∷ []))

-- A port that is missing or 0 raises.
unfoldable pub build_rtp : Option ℤ → Ingest → Option Spec
unfolding gst build_rtp_to_webrtc optional_text
build_rtp none ing = none
build_rtp (some port) ing =
    if port == pos 0
    then none
    else if ing.output_protocol == "webrtc"
    then some (build_rtp_to_webrtc port ing)
    else some (
        gst (
          concat (
            "udpsrc port="
            ∷ text_of_int port
            ∷ " caps="
            ∷ optional_text ing.rtp_caps
            ∷ " ! rtph264depay ! h264parse ! mpegtsmux ! srtsink uri="
            ∷ ing.output_url
            ∷ [])))

-- `build_ingest_pipeline`, `none` where it raises
unfoldable pub build_ingest_pipeline : Ingest → Option Spec
unfolding build_rtsp build_srt build_rtp
build_ingest_pipeline ing =
    if ing.input_protocol == "rtsp"
    then some (build_rtsp ing)
    else if ing.input_protocol == "srt"
    then some (build_srt ing)
    else if ing.input_protocol == "rtp"
    then build_rtp ing.rtp_port ing
    else none

-- The handlers of the ingests.
unfoldable pub handle_ingest : (ℕ → Bool) → Request Ingest → State Ingest → State Ingest × Answer
handle_ingest alive req s = step build_ingest_pipeline alive req s
