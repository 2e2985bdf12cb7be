-- ===== src/MediaResponse/Requests.antt =====
-- Which bytes a request names: the parser on every header that a client prints from numbers.
use video_journal_be.Prelude.{
  ℕ, ◌-◌, ◌≤◌, ◌≡◌, refl, ◌∙◌, pos, negsuc, arith, length, leb, ltb, min, ◌++◌, ◌∷◌, [], false,
  ◌&&◌, ◌==◌, if◌then◌else◌, Bool-cases, inl, inr,
}
use video_journal_be.Errors.{Text, ok, err, range_not_satisfiable}
use video_journal_be.Text.{codes, text_eq, strip, decimal, split_once}
use video_journal_be.Text.Laws.{strip-digits, strip_prefix-append, split_once-digits, text_eq_sound}
use video_journal_be.Text.Decimal.{int_of-decimal, decimal-IsDigits, decimal-ne-nil}
use video_journal_be.MediaResponse.{
  parse_range_header, parse_suffix, parse_offsets, parse_end, max_range_header_len,
}

-- The header that a client sends for a first and a last text.
abbrev pub range_header : Text → Text → Text
range_header a b = codes "bytes=" ++ (a ++ b'-' ∷ b)

decimal-not_nil : (n : ℕ) → text_eq (decimal n) [] ≡ false
decimal-not_nil n = elim (Bool-cases (text_eq (decimal n) [])) [
  | inl e ↦ absurd (decimal-ne-nil n (text_eq_sound (decimal n) [] e))
  | inr e ↦ e
]

-- A header of reasonable length whose first part is a number goes to the offsets.
parse_numbered :
    (a size : ℕ) (b : Text)
    → strip b ≡ b
    → length (range_header (decimal a) b) ≤ max_range_header_len
    → parse_range_header (range_header (decimal a) b) size ≡ parse_offsets (decimal a) b size
unfolding parse_range_header
parse_numbered a size b sb h = ground (
  arith,
  strip_prefix-append (codes "bytes=") (decimal a ++ b'-' ∷ b),
  split_once-digits (decimal a) b (decimal-IsDigits a),
  strip-digits (decimal a) (decimal-IsDigits a),
  decimal-not_nil a,
)

-- `bytes=a-b` is accepted exactly when `a ≤ b` and `a` lies in the file; then it names the bytes
-- from `a` to `b`, or to the last one where `b` lies behind it. The header is at most 64 characters.
pub parse_range_header-closed :
    (a b size : ℕ)
    → length (range_header (decimal a) (decimal b)) ≤ max_range_header_len
    → parse_range_header (range_header (decimal a) (decimal b)) size ≡ (
        if leb a b && ltb a size
        then ok (pos a, pos (min b (size - 1)))
        else err range_not_satisfiable)
parse_range_header-closed a b size h =
    parse_numbered a size (decimal b) (strip-digits (decimal b) (decimal-IsDigits b)) h
    ∙ (unfold parse_offsets parse_end in
        ground (arith, int_of-decimal a, int_of-decimal b, decimal-not_nil b))

-- `bytes=a-` is accepted exactly when `a` lies in the file; then it names the bytes from `a` on.
pub parse_range_header-open :
    (a size : ℕ)
    → length (range_header (decimal a) []) ≤ max_range_header_len
    → parse_range_header (range_header (decimal a) []) size
      ≡ (if ltb a size then ok (pos a, pos (size - 1)) else err range_not_satisfiable)
parse_range_header-open a size h =
    parse_numbered a size [] (unfold strip in refl) h
    ∙ (unfold parse_offsets parse_end in ground (arith, int_of-decimal a))

-- A header of reasonable length with nothing before the dash goes to the suffix.
pub parse_suffixed :
    (b : Text) (size : ℕ)
    → length (range_header [] b) ≤ max_range_header_len
    → parse_range_header (range_header [] b) size ≡ parse_suffix (strip b) size
unfolding parse_range_header split_once strip
parse_suffixed b size h = ground (arith, strip_prefix-append (codes "bytes=") (b'-' ∷ b))

-- `bytes=-n` names the last `n` bytes, or the whole file where it has fewer; of an empty file it
-- names the empty range (0, -1).
pub parse_range_header-suffix :
    (n size : ℕ)
    → length (range_header [] (decimal n)) ≤ max_range_header_len
    → parse_range_header (range_header [] (decimal n)) size
      ≡ (if size == 0 then ok (pos 0, negsuc 0) else ok (pos (size - n), pos (size - 1)))
parse_range_header-suffix n size h =
    parse_suffixed (decimal n) size h
    ∙ (unfold parse_suffix in
        ground (arith, strip-digits (decimal n) (decimal-IsDigits n), int_of-decimal n))
