-- ===== src/Ffmpeg/Lines.antt =====
-- The progress lines of ffmpeg, as they are read back.
use video_journal_be.Prelude.{ℕ, ◌≡◌, none, List, [], ◌∷◌, ◌++◌}
use video_journal_be.Errors.{Text}
use video_journal_be.Text.{codes, decimal}
use video_journal_be.Ffmpeg.{out_time_of}

-- A line as ffmpeg ends it.
abbrev line_of : Text → Text
line_of s = s ++ b'\n' ∷ []

-- What ffmpeg prints of a time.
unfoldable pub progress_line : ℕ → Text
progress_line n = line_of (codes "out_time_us=" ++ decimal n)

-- A line that is no time: it carries no number, or is no `out_time_us=` line at all.
abbrev pub IsOther : Text → Type 0
IsOther line = out_time_of line ≡ none

-- The lines of a report of progress: each time behind the other lines that come before it, and what follows the last.
unfoldable pub report_lines : List (List Text × ℕ) → List Text → List Text
unfolding progress_line
report_lines [] trailing = trailing
report_lines ((others, n) ∷ rest) trailing = others ++ progress_line n ∷ report_lines rest trailing
