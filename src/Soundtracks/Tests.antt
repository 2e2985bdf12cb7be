-- ===== src/Soundtracks/Tests.antt =====
-- Titles of file names, and the upload of a small soundtrack.
use video_journal_be.Prelude.{◌≡◌, refl, some, [], ◌∷◌}
use video_journal_be.Text.{codes}
use video_journal_be.Storage.{split_all, cons_head}
use video_journal_be.Uploads.{Upload}
use video_journal_be.Naming.{after_last, found_or}
use video_journal_be.Soundtracks.{last_name, counts, later_or, stem, title_from_filename}

title_of_path : title_from_filename (codes "music/My Song.v2.mp3") ≡ codes "My Song.v2"
unfolding title_from_filename last_name counts later_or stem split_all cons_head after_last found_or
title_of_path = refl

title_of_hidden : title_from_filename (codes ".mp3") ≡ codes ".mp3"
unfolding title_from_filename last_name counts later_or stem split_all cons_head after_last found_or
title_of_hidden = refl

abbrev song : Upload
song = record { filename = some (codes "song.mp3"); content = 1 ∷ 2 ∷ [] }
