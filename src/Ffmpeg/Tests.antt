-- ===== src/Ffmpeg/Tests.antt =====
-- A short report of progress, read back.
use video_journal_be.Prelude.{ℕ, List, [], ◌∷◌}
use video_journal_be.Errors.{Text}
use video_journal_be.Text.{codes}

abbrev short_report : List (List Text × ℕ)
short_report =
    (codes "frame=12\n" ∷ codes "fps=0.0\n" ∷ [], 500000)
    ∷ (codes "progress=continue\n" ∷ codes "frame=20\n" ∷ codes "total_size=44\n" ∷ [], 900000)
    ∷ []
