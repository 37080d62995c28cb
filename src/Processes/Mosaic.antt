-- ===== src/Processes/Mosaic.antt =====
-- services/compositor/app/pipelines.py: where the inputs of a mosaic stand, and its pipeline. Whether
-- the machine has a device for rendering is a parameter; `none` is an exception.
use airgap_videowall.Processes.Table.{Spec}
use airgap_videowall.Processes.Gateway.{gst}
use airgap_videowall.Processes.Compositor.{Mosaic, MosaicInput}
use airgap_videowall.Values.Division.{floor_div, at_least_one, mul_int, modulo}
use airgap_videowall.Values.{int_of_text, text_of_int, ℤ, pos}
use airgap_videowall.Prelude.Text.{parts, lower, concat, join, strip}
use airgap_videowall.Prelude.{
  ℕ, ◌+◌, String, Bool, Option, none, some, List, [], ◌∷◌, if◌then◌else◌, ◌==◌, string_eq,
}

infixl 5 ◌>>=◌
abbrev ◌>>=◌ : {A B : Type 0} → Option A → (A → Option B) → Option B
some a >>= f = f a
none >>= f = none

unfoldable pub size_of_parts : List String → Option (ℤ × ℤ)
unfolding int_of_text
size_of_parts (w ∷ h ∷ []) = do m ← int_of_text w; n ← int_of_text h; some (m, n)
size_of_parts _ = none

-- `_parse_res`
unfoldable pub parse_res : String → Option (ℤ × ℤ)
unfolding size_of_parts parts lower
parse_res res = size_of_parts (parts b'x' (lower res))

-- `_cell_xy`
unfoldable pub cell_xy : ℤ → ℤ → ℤ → ℤ → Option (ℤ × ℤ)
unfolding floor_div modulo mul_int
cell_xy position cols cell_w cell_h = do
  r ← floor_div position cols
  c ← modulo position cols
  some (mul_int c cell_w, mul_int r cell_h)

pub record Rect : Type 0 where
  pub x : ℤ
  pub y : ℤ
  pub w : ℤ
  pub h : ℤ

-- where an input stands, in an output of a size
unfoldable pub place : ℤ × ℤ → Mosaic → MosaicInput → Option Rect
unfolding cell_xy at_least_one
place (out_w, out_h) m inp = do
  cell_w ← floor_div out_w m.grid_cols
  cell_h ← floor_div out_h m.grid_rows
  (x, y) ← cell_xy inp.position m.grid_cols cell_w cell_h
  some (record {
    x = x;
    y = y;
    w = mul_int cell_w (at_least_one inp.width);
    h = mul_int cell_h (at_least_one inp.height);
  })

-- `_src_element`
unfoldable pub src_element : String → MosaicInput → Option String
unfolding concat
src_element url inp =
    if inp.source_protocol == "srt"
    then some (
        concat (
          "srtsrc uri=" ∷ url ∷ " ! tsdemux name=demux_" ∷ inp.source_id ∷ " demux_" ∷ inp.source_id
          ∷ ". ! queue" ∷ []))
    else if inp.source_protocol == "rtsp"
    then some (
        concat
          ("rtspsrc location=" ∷ url ∷ " latency=200 protocols=tcp ! rtph264depay ! queue" ∷ []))
    else if inp.source_protocol == "rtp"
    then some "udpsrc port=5004 ! rtph264depay ! queue"
    else none

abbrev mixer_of : Bool → String
mixer_of gpu = if gpu then "glvideomixer" else "compositor"

abbrev sink_name : Bool → ℕ → String
sink_name gpu idx = concat (mixer_of gpu ∷ ".sink_" ∷ text_of_int (pos idx) ∷ [])

-- the branch of an input, and its two properties of the mixer
unfoldable pub branch_of : Bool → Mosaic → ℕ → String → Rect → String × String
unfolding concat text_of_int
branch_of gpu m idx src r = (
  concat (
      src
      ∷ " ! decodebin ! videoconvert ! videoscale ! video/x-raw,width="
      ∷ text_of_int r.w
      ∷ ",height="
      ∷ text_of_int r.h
      ∷ ",framerate="
      ∷ text_of_int m.fps
      ∷ "/1 ! queue ! "
      ∷ sink_name gpu idx
      ∷ []),
  concat (
      sink_name gpu idx
      ∷ "::xpos="
      ∷ text_of_int r.x
      ∷ " "
      ∷ sink_name gpu idx
      ∷ "::ypos="
      ∷ text_of_int r.y
      ∷ []),
)

-- `if not inp.source_url: raise`
unfoldable pub source_url_of : MosaicInput → Option String
source_url_of inp = elim inp.source_url [ none ↦ none | some u ↦ if u == "" then none else some u ]

-- the loop over the inputs
unfoldable pub branches :
    Bool → ℤ × ℤ → Mosaic → ℕ → List MosaicInput → Option (List String × List String)
unfolding source_url_of place src_element branch_of
branches gpu size m idx [] = some ([], [])
branches gpu size m idx (inp ∷ inps) = do
  let rest = branches gpu size m (idx + 1) inps
  url ← source_url_of inp
  r ← place size m inp
  src ← src_element url inp
  let (branch, sink) = branch_of gpu m idx src r
  (bs, ss) ← rest
  some (branch ∷ bs, sink ∷ ss)

unfoldable pub encoder_of : Bool → String → String × String
encoder_of gpu codec =
    if codec == "hevc"
    then if gpu then ("vaapih265enc", "key-int-max=60") else ("x265enc", "")
    else if gpu
    then ("vaapih264enc", "key-int-max=60")
    else ("x264enc", "key-int-max=60")

unfoldable pub mosaic_text : Bool → Mosaic → List String → List String → String
unfolding encoder_of concat join strip
mosaic_text gpu m bs ss =
    let (enc, props) = encoder_of gpu m.codec in
    strip (
      concat (
        join bs
        ∷ " "
        ∷ mixer_of gpu
        ∷ " name="
        ∷ mixer_of gpu
        ∷ " "
        ∷ join ss
        ∷ " ! videoconvert ! "
        ∷ enc
        ∷ " "
        ∷ props
        ∷ " ! mpegtsmux ! srtsink uri="
        ∷ m.output_url
        ∷ []))

-- `build_mosaic_pipeline`; a division by zero is raised without inputs too
unfoldable pub build_mosaic_pipeline : Bool → Mosaic → Option Spec
unfolding parse_res floor_div branches mosaic_text gst
build_mosaic_pipeline gpu m = do
  (out_w, out_h) ← parse_res m.resolution
  cell_w ← floor_div out_w m.grid_cols
  cell_h ← floor_div out_h m.grid_rows
  (bs, ss) ← branches gpu (out_w, out_h) m 0 m.inputs
  some (gst (mosaic_text gpu m bs ss))
