-- ===== src/Media.antt =====
-- The command lines that the media package builds: media/normalize.py, media/filmstrip.py and
-- media/compile.py. Running them is a parameter of the model.
pub mod Filmstrip
use video_journal_be.Prelude.{
  ℕ, ◌+◌, Bool, Option, none, some, String, List, [], ◌∷◌, ◌++◌, map, if◌then◌else◌, length, ltb,
  zero, suc, ℤ, pos, negsuc, max_ℤ, min_ℤ, not, ◌||◌,
}
use mathlib.Core.List.{flatten}
use video_journal_be.Errors.{Text}
use video_journal_be.Text.{codes, decimal, decimal_ℤ}
use video_journal_be.Float.{FloatOps}
use video_journal_be.Storage.{FilePath}

-- `str(path)` of an absolute path.
pub path_text : FilePath → Text
path_text [] = []
path_text (p ∷ ps) = b'/' ∷ (p ++ path_text ps)

pub build_normalize_command : Text → Text → List Text
build_normalize_command src dst =
    map codes ("ffmpeg" ∷ "-y" ∷ "-i" ∷ [])
    ++ (src
          ∷ map codes (
              "-vf"
              ∷ "scale=w=1920:h=1080:force_original_aspect_ratio=decrease,pad=1920:1080:(ow-iw)/2:(oh-ih)/2,format=yuv420p"
              ∷ "-c:v" ∷ "libx264" ∷ "-crf" ∷ "18" ∷ "-preset" ∷ "medium" ∷ "-pix_fmt" ∷ "yuv420p"
              ∷ "-r" ∷ "30" ∷ "-vsync" ∷ "cfr" ∷ "-c:a" ∷ "aac" ∷ "-b:a" ∷ "192k" ∷ "-ac" ∷ "2"
              ∷ "-movflags" ∷ "+faststart" ∷ [])
        ++ dst ∷ [])

-- One clip's part of a compilation.
pub record ClipSpec (F : Type 0) : Type 0 where
  pub path : Text
  pub trim_in_s : F
  pub trim_out_s : F

-- `"".join(f"[{i}:{suffix}]" for i in range(n))`, from `i` on.
pub stream_labels : ℕ → ℕ → Text → Text
stream_labels i zero suffix = []
stream_labels i (suc n) suffix =
    codes "["
    ++ (decimal i ++ (codes ":" ++ (suffix ++ (codes "]" ++ stream_labels (i + 1) n suffix))))

module _ {F : Type 0} (floats : FloatOps F) where
  -- `compute_frame_count`. Floor raises on a NaN or an infinity, which gives `none`; a NaN passes the test before it.
  pub compute_frame_count : Option F → Option ℤ
  compute_frame_count none = some (pos 1)
  compute_frame_count (some d) =
      if floats.le d (floats.of_ℕ 0)
      then some (pos 1)
      else elim (floats.floor d) [ none ↦ none | some n ↦ some (max_ℤ (pos 1) (min_ℤ (pos 10) n)) ]

  pub build_filmstrip_command : Text → Text → F → ℤ → List Text
  build_filmstrip_command src dst duration_s frame_count =
      codes "ffmpeg"
        ∷ codes "-i"
        ∷ src
        ∷ codes "-vf"
        ∷ (codes "fps="
            ++ (decimal_ℤ frame_count
                ++ (codes "/"
                    ++ (floats.show duration_s
                        ++ (codes ",scale=-1:72,tile=" ++ (decimal_ℤ frame_count ++ codes "x1"))))))
        ∷ map codes ("-frames:v" ∷ "1" ∷ "-q:v" ∷ "3" ∷ "-y" ∷ [])
      ++ dst ∷ []

  -- `duration_s if duration_s and duration_s > 0 else 1.0`
  pub effective_duration : Option F → F
  effective_duration none = floats.of_ℕ 1
  effective_duration (some d) = if floats.lt (floats.of_ℕ 0) d then d else floats.of_ℕ 1

  -- The arguments of one input with its seek.
  pub input_args : ClipSpec F → List Text
  input_args spec =
      codes "-ss"
      ∷ floats.show spec.trim_in_s
      ∷ codes "-to"
      ∷ floats.show spec.trim_out_s
      ∷ codes "-i"
      ∷ spec.path
      ∷ []

  pub concat_filter : ℕ → Text
  unfolding stream_labels
  concat_filter n =
      stream_labels 0 n (codes "v") ++ (codes "concat=n=" ++ (decimal n ++ codes ":v=1:a=0[vout]"))

  pub fade_filter : ℕ → F → Text
  fade_filter n fade_start =
      codes "["
      ++ (decimal n
          ++ (codes ":a]afade=t=out:st=" ++ (floats.show fade_start ++ codes ":d=2[aout]")))

  pub clip_audio_concat : ℕ → Text
  clip_audio_concat n =
      stream_labels 0 n (codes "a")
      ++ (codes "concat=n=" ++ (decimal n ++ codes ":v=0:a=1[clipaud]"))

  pub mix_filter : F → Text
  mix_filter volume =
      codes "[aout][clipaud]amix=inputs=2:duration=first:weights=1 "
      ++ (floats.show_4f volume ++ codes ":dropout_transition=0[mixout]")

  pub filter_complex : ℕ → F → Bool → F → Text
  unfolding concat_filter fade_filter clip_audio_concat mix_filter
  filter_complex n fade_start mix volume =
      concat_filter n
      ++ (codes ";"
          ++ (fade_filter n fade_start
              ++ (if mix
                  then codes ";" ++ (clip_audio_concat n ++ (codes ";" ++ mix_filter volume))
                  else [])))

  pub build_compile_command : List (ClipSpec F) → Text → Text → F → Bool → F → List Text
  unfolding filter_complex input_args
  build_compile_command specs soundtrack_path output_path fade_start mix volume =
      map codes ("ffmpeg" ∷ "-y" ∷ [])
      ++ (flatten (map input_args specs)
          ++ (codes "-i"
                ∷ soundtrack_path
                ∷ codes "-filter_complex"
                ∷ filter_complex (length specs) fade_start mix volume
                ∷ map codes ("-map" ∷ "[vout]" ∷ "-map" ∷ [])
              ++ (codes (if mix then "[mixout]" else "[aout]")
                    ∷ map codes (
                        "-c:v" ∷ "libx264" ∷ "-crf" ∷ "18" ∷ "-c:a" ∷ "aac" ∷ "-movflags"
                        ∷ "+faststart" ∷ "-shortest" ∷ "-stats_period" ∷ "0.5" ∷ "-progress"
                        ∷ "pipe:1" ∷ [])
                  ++ output_path ∷ [])))

  -- `max(0.0, total_duration_s - 2.0)`
  pub fade_start_of : F → F
  fade_start_of total =
      let start = floats.sub total (floats.of_ℕ 2) in
      if floats.lt (floats.of_ℕ 0) start then start else floats.of_ℕ 0
