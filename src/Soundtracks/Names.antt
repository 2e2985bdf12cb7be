-- ===== src/Soundtracks/Names.antt =====
-- The last name of a path.
use video_journal_be.Prelude.{◌≡◌, refl, [], ◌∷◌}
use video_journal_be.Errors.{Text}
use video_journal_be.Storage.Paths.{IsName}
use video_journal_be.Soundtracks.{last_name, counts, later_or}

pub last_name-two : (a b : Text) → IsName b → last_name (a ∷ b ∷ []) ≡ b
unfolding last_name counts later_or
last_name-two a [] h = absurd (cc)
last_name-two a (c ∷ b) h = rw h.1 refl
