-- ===== src/Ffmpeg.antt =====
-- media/ffmpeg.py with progress reporting: what is read from the process of a render and how its end is told.
pub mod Lines
mod Tests
use video_journal_be.Prelude.{
  ℕ, ◌-◌, ℤ, Option, none, some, List, [], ◌∷◌, ◌++◌, ◌==◌, if◌then◌else◌, length, drop,
}
use video_journal_be.Errors.{Text, Bytes, Result, ok, err, ffmpeg_error}
use video_journal_be.Text.{codes, strip, strip_prefix, int_of}

pub data Exit : Type 0 where
  timed_out : Exit
  exited : ℕ → Exit

-- A process that has run: its two streams by lines, how it has ended, and the file that it has written, if any.
pub record Process : Type 0 where
  pub stdout : List Text
  pub stderr : List Text
  pub exit : Exit
  pub output : Option Bytes

abbrev pub stderr_tail_lines : ℕ
stderr_tail_lines = 20

unfoldable pub number_after : Option Text → Option ℤ
number_after none = none
number_after (some raw) = int_of raw

-- The number of an `out_time_us=` line; any other line, and one whose number is malformed, is passed over.
unfoldable pub out_time_of : Text → Option ℤ
unfolding number_after
out_time_of line = number_after (strip_prefix (codes "out_time_us=") (strip line))

more_of : Option ℤ → List ℤ → List ℤ
more_of none rest = rest
more_of (some n) rest = n ∷ rest

-- The calls of `on_progress`, in order.
unfoldable pub out_times : List Text → List ℤ
unfolding more_of out_time_of
out_times [] = []
out_times (line ∷ lines) = more_of (out_time_of line) (out_times lines)

-- `lines[-n:]`
unfoldable pub last_lines : ℕ → List Text → List Text
last_lines n lines = drop (length lines - n) lines

-- `"\n".join(lines)`
unfoldable pub join_lines : List Text → Text
join_lines [] = []
join_lines (line ∷ []) = line
join_lines (line ∷ next ∷ lines) = line ++ b'\n' ∷ join_lines (next ∷ lines)

-- How the end of the process is told.
unfoldable pub ending_of : Process → Result (Unit {0})
unfolding last_lines join_lines
ending_of p = elim p.exit [
  | timed_out ↦ err (ffmpeg_error (codes "ffmpeg timed out"))
  | exited code ↦
      if code == 0
      then ok tt
      else err (ffmpeg_error (join_lines (last_lines stderr_tail_lines p.stderr)))
]
