-- ===== src/Media/Filmstrip.antt =====
-- The number of frames of a filmstrip, media/filmstrip.py.
use video_journal_be.Prelude.{
  ℤ, pos, negsuc, Option, none, some, Bool-cases, Option-cases, inl, inr, ◌≤ℤ◌, max_ℤ, min_ℤ, arith,
}
use video_journal_be.Float.{FloatOps}
use video_journal_be.Media.{compute_frame_count}

abbrev pub IsFrameCount : Option ℤ → Type 0
IsFrameCount none = Unit
IsFrameCount (some n) = (pos 1 ≤ℤ n) × (n ≤ℤ pos 10)

clamped : (k : ℤ) → IsFrameCount (some (max_ℤ (pos 1) (min_ℤ (pos 10) k)))
clamped (pos k) = ground arith
clamped (negsuc k) = ground arith

-- Whatever the duration, a frame count that is computed lies between 1 and 10, both included.
pub compute_frame_count_bounds :
    {F : Type 0} (floats : FloatOps F) (duration_s : Option F)
    → IsFrameCount (compute_frame_count floats duration_s)
unfolding compute_frame_count
compute_frame_count_bounds floats none = ground arith
compute_frame_count_bounds floats (some d) = elim (Bool-cases (floats.le d (floats.of_ℕ 0))) [
  | inl short ↦ rw short (ground arith)
  | inr long ↦ elim (Option-cases (floats.floor d)) [
    | inl odd ↦ rw (long, odd) tt
    | inr (k, whole) ↦ rw (long, whole) (clamped k)
  ]
]
