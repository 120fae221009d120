-- ===== src/Spool/Command.antt =====
-- ingestion/edge.py, `CaptureSource`, `FFmpegCaptureConfig` and `build_ffmpeg_capture_command`, with
-- `redact_capture_command` of its result. Making the output folder is left out, and a path is its
-- text, which `Path` has in normal form already.
use Prim.Native.Char.{code}
use Prim.Native.String.{◌++◌}
use ugsync.Prelude.{
  ℕ, zero, suc, ◌≡◌, Bool, true, false, not, ◌&&◌, ◌||◌, List, [], ◌∷◌, String, str_eq, strip,
  is_blank, leb, ltb, ◌==◌, Option, none, some, decimal, if◌then◌else◌,
}
use ugsync.Spool.Flush.{redact_capture_command}

pub record CaptureSource : Type 0 where
  pub source_id : String
  pub input_url : String
  pub display_name : String

abbrev pub is_alnum : ℕ → Bool
is_alnum c = (leb b'A' c && leb c b'Z') || (leb b'a' c && leb c b'z') || (leb b'0' c && leb c b'9')

-- `[A-Za-z0-9._-]{0,n}` to the end of the text
unfoldable pub is_id_tail : ℕ → String → Bool
is_id_tail n String.[] = true
is_id_tail zero (String.◌∷◌ c s) = false
is_id_tail (suc n) (String.◌∷◌ c s) =
    (is_alnum (code c) || code c == b'.' || code c == b'_' || code c == b'-') && is_id_tail n s

-- `re.fullmatch(r"[A-Za-z0-9][A-Za-z0-9._-]{0,127}", source_id)`
unfoldable pub is_source_id : String → Bool
unfolding is_id_tail
is_source_id String.[] = false
is_source_id (String.◌∷◌ c s) = is_alnum (code c) && is_id_tail 127 s

-- The constructor; `none` is its ValueError.
unfoldable pub capture_source : (source_id input_url display_name : String) → Option CaptureSource
unfolding is_source_id
capture_source source_id input_url display_name =
    if is_blank (strip source_id) || is_blank (strip input_url) || is_blank (strip display_name)
    then none
    else if is_source_id source_id
    then some (record { source_id = source_id; input_url = input_url; display_name = display_name })
    else none

pub record FfmpegCaptureConfig : Type 0 where
  pub output_directory : String
  pub segment_seconds : ℕ
  pub sample_rate : ℕ
  pub ffmpeg_binary : String

-- The constructor's checks.
unfoldable pub is_config : FfmpegCaptureConfig → Bool
is_config c =
    leb 5 c.segment_seconds && ltb 0 c.sample_rate && not (is_blank (strip c.ffmpeg_binary))

unfoldable pub build_ffmpeg_capture_command : CaptureSource → FfmpegCaptureConfig → List String
build_ffmpeg_capture_command source config =
    config.ffmpeg_binary
    ∷ "-hide_banner"
    ∷ "-loglevel"
    ∷ "warning"
    ∷ "-nostdin"
    ∷ "-reconnect"
    ∷ "1"
    ∷ "-reconnect_streamed"
    ∷ "1"
    ∷ "-reconnect_delay_max"
    ∷ "30"
    ∷ "-i"
    ∷ source.input_url
    ∷ "-vn"
    ∷ "-ac"
    ∷ "1"
    ∷ "-ar"
    ∷ decimal config.sample_rate
    ∷ "-c:a"
    ∷ "pcm_s16le"
    ∷ "-f"
    ∷ "segment"
    ∷ "-segment_time"
    ∷ decimal config.segment_seconds
    ∷ "-reset_timestamps"
    ∷ "1"
    ∷ "-strftime"
    ∷ "0"
    ∷ (config.output_directory ++ "/" ++ source.source_id ++ "/chunk_%09d.wav")
    ∷ []

-- Unless the binary itself is called "-i", the redacted capture command does not depend on the input
-- URL, whatever it is.
pub redaction_hides_url :
    (source : CaptureSource) (config : FfmpegCaptureConfig) (url : String)
    → str_eq config.ffmpeg_binary "-i" ≡ false
    → redact_capture_command
        (build_ffmpeg_capture_command (record source { input_url = url }) config)
      ≡ redact_capture_command (build_ffmpeg_capture_command source config)
unfolding redact_capture_command build_ffmpeg_capture_command
redaction_hides_url source config url h = rw h
