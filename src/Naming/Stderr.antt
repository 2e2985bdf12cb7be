-- ===== src/Naming/Stderr.antt =====
-- The message of a failed render that domains/compilations/utils.py keeps.
use video_journal_be.Prelude.{
  min, ℕ, ◌-◌, ◌≤◌, ◌≡◌, refl, [], ◌++◌, ◌==◌, leb, length, take, length-drop, take-append-drop,
  Bool-cases, false, inl, inr, arith, if◌then◌else◌,
}
use video_journal_be.Errors.{Text}
use video_journal_be.Naming.{truncate_stderr, last_chars}

-- What is kept is the end of the text: the whole text where it is within the limit or the limit is 0, and else as
-- many characters as the limit.
pub truncate_stderr_tail :
    (max_chars : ℕ) (text : Text)
    → ((cut : Text) × (cut ++ truncate_stderr max_chars text ≡ text))
      × (length (truncate_stderr max_chars text)
          ≡ (if max_chars == 0 then length text else min max_chars (length text)))
unfolding truncate_stderr last_chars
truncate_stderr_tail max_chars text = elim (Bool-cases (leb (length text) max_chars)) [
  | inl short ↦ rw short (([], refl), ground arith)
  | inr long ↦ elim (Bool-cases (max_chars == 0)) [
    | inl unlimited ↦ rw (long, unlimited) (([], refl), refl)
    | inr limited ↦
        rw (long, limited)
          (
            (take (length text - max_chars) text, take-append-drop (length text - max_chars) text),
            omega (arith, length-drop (length text - max_chars) text, beyond long),
          )
  ]
]
  where
    beyond : leb (length text) max_chars ≡ false → max_chars ≤ length text
    beyond h = ground arith
