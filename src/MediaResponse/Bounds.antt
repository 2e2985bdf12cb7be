-- ===== src/MediaResponse/Bounds.antt =====
-- Whatever the Range header, what bounds the offsets that the parser returns have.
use video_journal_be.Text.Laws.{text_eq_iff}
use video_journal_be.Prelude.{
  ◌⊎◌, inl, inr, none, some, Option, Bool, Bool-cases, sym, ap, ◌∙◌, ℕ, ◌≡◌, ℤ, pos, ◌≤ℤ◌, ◌+ℤ◌,
  arith, ltb, length, if◌then◌else◌, [],
}
use video_journal_be.Errors.{Text, ok, >>=-eq-ok, raise_if, or_raise, range_not_satisfiable}
use video_journal_be.Text.{codes, strip, strip_prefix, split_once, text_eq}
use video_journal_be.MediaResponse.{
  parse_range_header, parse_suffix, parse_offsets, max_range_header_len,
}

or_raise-ok :
    {A : Type 0} (o : Option A) {x : A} → or_raise o range_not_satisfiable ≡ ok x → o ≡ some x
or_raise-ok none e = cc
or_raise-ok (some y) e = cc

parse_suffix_offsets :
    (s : Text) (size : ℕ) {start end : ℤ}
    → parse_suffix s size ≡ ok (start, end)
    → (pos 0 ≤ℤ start) × (end +ℤ pos 1 ≤ℤ pos size)
unfolding parse_suffix
parse_suffix_offsets s size h = ground arith

parse_offsets_offsets :
    (a b : Text) (size : ℕ) {start end : ℤ}
    → parse_offsets a b size ≡ ok (start, end)
    → (pos 0 ≤ℤ start) × (start ≤ℤ end) × (end +ℤ pos 1 ≤ℤ pos size)
unfolding parse_offsets
parse_offsets_offsets a b size h = ground arith

parts_bounds :
    (a b : Text) (size : ℕ) {start end : ℤ}
    → (if text_eq a [] then parse_suffix b size else parse_offsets a b size) ≡ ok (start, end)
    → (pos 0 ≤ℤ start) × (end +ℤ pos 1 ≤ℤ pos size) × ((a ≡ []) ⊎ (start ≤ℤ end))
parts_bounds a b size {start} {end} h = elim (Bool-cases (text_eq a [])) [
  | inl no_start ↦
      let suffix : parse_suffix b size ≡ ok (start, end) = chosen no_start h in
      let (low, high) = parse_suffix_offsets b size {start = start} {end = end} suffix in
      (low, high, inl ((text_eq_iff a []).0 no_start))
  | inr with_start ↦
      let offsets : parse_offsets a b size ≡ ok (start, end) = chosen with_start h in
      let (low, ordered, high) =
        parse_offsets_offsets a b size {start = start} {end = end} offsets in
      (low, high, inr ordered)
]
  where
    chosen :
        {c : Bool}
        → text_eq a [] ≡ c
        → (if text_eq a [] then parse_suffix b size else parse_offsets a b size) ≡ ok (start, end)
        → (if c then parse_suffix b size else parse_offsets a b size) ≡ ok (start, end)
    chosen e k = ap (λ t. if t then parse_suffix b size else parse_offsets a b size) (sym e) ∙ k

-- A header with nothing but spaces before its first dash.
abbrev pub IsSuffix : Text → Type 0
IsSuffix header =
    (spec : Text) × (a : Text) × (b : Text) × (strip_prefix (codes "bytes=") header ≡ some spec)
    × (split_once b'-' spec ≡ some (a, b))
    × (strip a ≡ [])

-- Whatever the header that is accepted, `start` is not negative and `end` is at most the last byte (`-1` for an empty
-- file). Where the header is no suffix range, the two are in order, so that both lie in the file; the start of a suffix
-- range has no upper bound.
pub parse_range_header_bounds :
    (header : Text) (size : ℕ) {start end : ℤ}
    → parse_range_header header size ≡ ok (start, end)
    → (pos 0 ≤ℤ start) × (end +ℤ pos 1 ≤ℤ pos size) × (IsSuffix header ⊎ (start ≤ℤ end))
unfolding parse_range_header
parse_range_header_bounds header size h =
    let (_, _, in_time) =
      >>=-eq-ok (raise_if (ltb max_range_header_len (length header)) range_not_satisfiable) _ h in
    let (spec, at_prefix, prefixed) =
      >>=-eq-ok (or_raise (strip_prefix (codes "bytes=") header) range_not_satisfiable) _ in_time in
    let (parts, at_dash, parsed) =
      >>=-eq-ok (or_raise (split_once b'-' spec) range_not_satisfiable) _ prefixed in
    let (low, high, which) = parts_bounds (strip parts.0) (strip parts.1) size parsed in
    (
      low,
      high,
      elim which [
        | inl no_start ↦ inl (
          spec,
          parts.0,
          parts.1,
          or_raise-ok (strip_prefix (codes "bytes=") header) at_prefix,
          or_raise-ok (split_once b'-' spec) at_dash,
          no_start,
        )
        | inr ordered ↦ inr ordered
      ],
    )
