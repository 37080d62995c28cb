-- ===== src/Processes/Tests.antt =====
-- The process tables of the gateway and the compositor at concrete requests.
use airgap_videowall.Prelude.Text.{split, concat}
use airgap_videowall.Processes.Retained.{step-retains}
use airgap_videowall.Processes.Running.{IsShown, step-IsShown}
use airgap_videowall.Processes.Access.{handle_mosaic-denied}
use airgap_videowall.Processes.Cells.{IsCell, IsWithin, AreApart, place-AreApart}
use airgap_videowall.Processes.Mosaic.{Rect, place, build_mosaic_pipeline}
use airgap_videowall.Processes.Gateway.{gst}
use airgap_videowall.Prelude.{
  ℕ, String, ◌≡◌, refl, Bool, true, false, none, some, [], ◌∷◌, arith, ◌==◌, nat_eq, string_eq,
  here,
}
use airgap_videowall.Prelude.Dict.{get}
use airgap_videowall.Values.{Value, pos}
use airgap_videowall.Processes.Table.{
  State, Handle, Definition, step, denied, create_request, delete_request, start_request,
}
use airgap_videowall.Processes.Gateway.{Ingest, build_ingest_pipeline, build_srt, gst}
use airgap_videowall.Processes.Compositor.{
  MosaicInput, Mosaic, handle_mosaic, evaluate_source_access, grants,
}

abbrev camera : Definition Ingest
camera = record {
  id = "cam";
  body = record {
    name = "camera";
    input_url = "srt://cam:9000";
    input_protocol = "srt";
    output_url = "srt://out:9001";
    output_protocol = "srt";
    janus_url = none;
    janus_room_id = none;
    janus_token = none;
    rtp_port = none;
    rtp_caps = none;
    rtsp_latency_ms = pos 200;
    rtsp_protocols = "tcp";
    srt_mode = "caller";
  };
  running = false;
  pid = none;
}

abbrev process : Handle
process = record { pid = 7; spec = record { argv = []; pretty = "gst-launch-1.0 -e" } }

abbrev on_air : State Ingest
on_air = record {
  definitions = ("cam", record camera { running = true; pid = some 7 }) ∷ [];
  processes = ("cam", process) ∷ [];
}

abbrev alive : ℕ → Bool
alive pid = pid == 7

pipeline :
    build_ingest_pipeline camera.body
    ≡ some (record {
      argv =
          "gst-launch-1.0" ∷ "-e" ∷ "srtsrc" ∷ "uri=srt://cam:9000" ∷ "!" ∷ "tsdemux" ∷ "!"
          ∷ "h264parse" ∷ "!" ∷ "mpegtsmux" ∷ "!" ∷ "srtsink" ∷ "uri=srt://out:9001" ∷ [];
      pretty =
          "gst-launch-1.0 -e srtsrc uri=srt://cam:9000 ! tsdemux ! h264parse ! mpegtsmux ! srtsink uri=srt://out:9001";
    })
unfolding build_ingest_pipeline build_srt gst split concat
pipeline = refl

step-retains_example :
    get (step build_ingest_pipeline alive (delete_request "cam") on_air).0.processes "cam"
    ≡ some process
unfolding get
step-retains_example =
    step-retains build_ingest_pipeline alive (delete_request "cam") on_air "cam" process refl refl
      (λ h. h)

abbrev idle : State Ingest
idle = record { definitions = ("cam", camera) ∷ []; processes = [] }

idle-IsShown : IsShown idle
unfolding get
idle-IsShown id d f r = absurd (ground arith)

step-IsShown_example :
    IsShown (step build_ingest_pipeline alive (start_request "cam" (some 7)) idle).0
step-IsShown_example =
    step-IsShown build_ingest_pipeline alive (start_request "cam" (some 7)) idle tt idle-IsShown

abbrev tile : MosaicInput
tile = record {
  source_id = "12";
  position = pos 0;
  width = pos 1;
  height = pos 1;
  source_url = some "srt://a";
  source_protocol = "srt";
}

abbrev mosaic : Definition Mosaic
mosaic = record {
  id = "m";
  body = record {
    wall_id = "1";
    name = "mosaic";
    resolution = "3840x2160";
    fps = pos 30;
    codec = "hevc";
    output_mode = "srt";
    output_url = "srt://b";
    grid_cols = pos 2;
    grid_rows = pos 2;
    inputs = tile ∷ [];
  };
  running = false;
  pid = none;
}

abbrev empty_table : State Mosaic
empty_table = record { definitions = []; processes = [] }

abbrev repr : Value → String
repr v = "<value>"

handle_mosaic-denied_example :
    handle_mosaic repr (λ req. none) (λ b. none) alive none (create_request mosaic) empty_table
    ≡ (empty_table, denied)
unfolding evaluate_source_access grants
handle_mosaic-denied_example =
    handle_mosaic-denied repr (λ req. none) (λ b. none) alive none mosaic tile empty_table
      (here refl) refl

abbrev other : MosaicInput
other = record tile { position = pos 3 }

one-IsCell : IsCell tile 0
one-IsCell = record { position = refl; width = refl; height = refl }

last-IsCell : IsCell other 3
last-IsCell = record { position = refl; width = refl; height = refl }

place-AreApart_example :
    (r s : Rect) × (place (pos 3840, pos 2160) mosaic.body tile ≡ some r)
    × (place (pos 3840, pos 2160) mosaic.body other ≡ some s)
    × (a : IsWithin 3840 2160 r) × (b : IsWithin 3840 2160 s) × AreApart a b
place-AreApart_example =
    place-AreApart 3840 2160 2 2 mosaic.body refl refl (omega arith) (omega arith) tile other 0 3
      one-IsCell last-IsCell (omega arith) (omega arith) (omega arith)

abbrev single : Mosaic
single = record mosaic.body {
  codec = "h264";
  inputs = record tile { source_url = some "srt://a" } ∷ [];
}

builds_mosaic :
    build_mosaic_pipeline false single
    ≡ some (
        gst
          "srtsrc uri=srt://a ! tsdemux name=demux_12 demux_12. ! queue ! decodebin ! videoconvert ! videoscale ! video/x-raw,width=1920,height=1080,framerate=30/1 ! queue ! compositor.sink_0 compositor name=compositor compositor.sink_0::xpos=0 compositor.sink_0::ypos=0 ! videoconvert ! x264enc key-int-max=60 ! mpegtsmux ! srtsink uri=srt://b")
unfolding build_mosaic_pipeline
builds_mosaic = refl
