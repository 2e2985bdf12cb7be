-- ===== src/MediaResponse/Refusals.antt =====
-- A Range header is refused with RangeNotSatisfiableError alone, and a response fails else only where the file is missing.
use video_journal_be.Prelude.{ℕ, refl, Option, none, some, List, [], ◌==◌, length}
use video_journal_be.Errors.{Text, Bytes, range_not_satisfiable, unexpected}
use video_journal_be.Errors.Listed.{
  IsListed, HasListed, HasListed-ok, HasListed-err, HasListed-bind, HasListed-or_raise,
  HasListed-if, HasListed-raise_if,
}
use video_journal_be.Text.{codes, text_eq, strip, strip_prefix, split_once, int_of}
use video_journal_be.MediaResponse.{
  parse_suffix, parse_end, parse_offsets, parse_range_header, build_media_response,
}

module _ (statuses : List ℕ) (listed : IsListed statuses range_not_satisfiable) where
  parse_suffix-HasListed :
      (end_str : Text) (file_size : ℕ) → HasListed statuses (parse_suffix end_str file_size)
  unfolding parse_suffix
  parse_suffix-HasListed end_str file_size =
      HasListed-bind (HasListed-or_raise (int_of end_str) range_not_satisfiable listed)
        (λ n. HasListed-if (file_size == 0) (HasListed-ok _) (HasListed-ok _))

  parse_end-HasListed :
      (end_str : Text) (file_size : ℕ) → HasListed statuses (parse_end end_str file_size)
  unfolding parse_end
  parse_end-HasListed end_str file_size =
      HasListed-if (text_eq end_str []) (HasListed-ok _)
        (HasListed-or_raise (int_of end_str) range_not_satisfiable listed)

  parse_offsets-HasListed :
      (start_str end_str : Text) (file_size : ℕ)
      → HasListed statuses (parse_offsets start_str end_str file_size)
  unfolding parse_offsets
  parse_offsets-HasListed start_str end_str file_size =
      HasListed-bind (HasListed-or_raise (int_of start_str) range_not_satisfiable listed) (λ start.
        HasListed-bind (parse_end-HasListed end_str file_size) (λ end.
          HasListed-bind (HasListed-raise_if _ range_not_satisfiable listed) (λ _. HasListed-ok _)))

  parse_range_header-HasListed :
      (header : Text) (file_size : ℕ) → HasListed statuses (parse_range_header header file_size)
  unfolding parse_range_header
  parse_range_header-HasListed header file_size =
      HasListed-bind (HasListed-raise_if _ range_not_satisfiable listed) (λ _.
        HasListed-bind
          (HasListed-or_raise (strip_prefix (codes "bytes=") header) range_not_satisfiable listed)
          (λ range_spec.
            HasListed-bind
              (HasListed-or_raise (split_once b'-' range_spec) range_not_satisfiable listed)
              (λ parts.
                HasListed-if (text_eq (strip parts.0) [])
                  (parse_suffix-HasListed (strip parts.1) file_size)
                  (parse_offsets-HasListed (strip parts.0) (strip parts.1) file_size))))

  pub build_media_response-HasListed :
      (file : Option Bytes) (content_type : Text) (range : Option Text) (cache_control : Text)
      → HasListed statuses (build_media_response file content_type range cache_control)
  unfolding build_media_response
  build_media_response-HasListed none content_type range cache_control =
      HasListed-err unexpected refl
  build_media_response-HasListed (some file) content_type none cache_control = HasListed-ok _
  build_media_response-HasListed (some file) content_type (some header) cache_control =
      HasListed-bind (parse_range_header-HasListed header (length file)) (λ offsets. HasListed-ok _)
