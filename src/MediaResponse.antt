-- ===== src/MediaResponse.antt =====
-- src/app/common/media_response.py: the Range header, the streamed slice and the response of a
-- local media file. A file is its list of bytes; a response streams a list of chunks.
mod Bounds
pub mod Refusals
mod Requests
mod Streaming
mod Responses
mod Tests
use video_journal_be.Prelude.{
  ℕ, zero, suc, ◌+◌, ◌-◌, min, Bool, true, false, ◌||◌, Option, none, some, String, List, [], ◌∷◌,
  ◌++◌, length, take, drop, ltb, ◌==◌, if◌then◌else◌, ℤ, pos, negsuc, pos_part, ◌+ℤ◌, ◌-ℤ◌, ltb_ℤ,
  leb_ℤ, min_ℤ, max_ℤ,
}
use video_journal_be.Errors.{
  Text, Bytes, Result, ok, err, range_not_satisfiable, unexpected, ◌>>=◌, ◌>>◌, raise_if, or_raise,
}
use video_journal_be.Text.{
  codes, text_eq, strip, strip_prefix, split_once, int_of, decimal, decimal_ℤ,
}

-- `_MAX_RANGE_HEADER_LEN` and `_CHUNK_SIZE`.
abbrev pub max_range_header_len : ℕ
max_range_header_len = 64

abbrev pub chunk_size : ℕ
chunk_size = 65536

-- `bytes=-N`: the last N bytes.
pub parse_suffix : Text → ℕ → Result (ℤ × ℤ)
parse_suffix end_str file_size = do
  suffix_len ← or_raise (int_of end_str) range_not_satisfiable
  if file_size == 0
      then ok (pos 0, negsuc 0)
      else ok (max_ℤ (pos 0) (pos file_size -ℤ suffix_len), pos file_size -ℤ pos 1)

pub parse_end : Text → ℕ → Result ℤ
parse_end end_str file_size =
    if text_eq end_str []
    then ok (pos file_size -ℤ pos 1)
    else or_raise (int_of end_str) range_not_satisfiable

-- `bytes=N-` and `bytes=N-M`.
pub parse_offsets : Text → Text → ℕ → Result (ℤ × ℤ)
unfolding parse_end
parse_offsets start_str end_str file_size = do
  start ← or_raise (int_of start_str) range_not_satisfiable
  end ← parse_end end_str file_size
  raise_if (file_size == 0 || ltb_ℤ start (pos 0) || ltb_ℤ end start || leb_ℤ (pos file_size) start)
      range_not_satisfiable
  ok (start, min_ℤ end (pos file_size -ℤ pos 1))

pub parse_range_header : Text → ℕ → Result (ℤ × ℤ)
unfolding parse_suffix parse_offsets
parse_range_header header file_size = do
  raise_if (ltb max_range_header_len (length header)) range_not_satisfiable
  range_spec ← or_raise (strip_prefix (codes "bytes=") header) range_not_satisfiable
  parts ← or_raise (split_once b'-' range_spec) range_not_satisfiable
  let start_str = strip parts.0
  let end_str = strip parts.1
  if text_eq start_str []
      then parse_suffix end_str file_size
      else parse_offsets start_str end_str file_size

-- The `while remaining > 0` loop of `_stream_range`; `content` is what lies behind the file position,
-- and a round that goes on reads at least one byte.
pub stream_loop : ℕ → ℕ → Bytes → ℕ → List Bytes
stream_loop zero size content remaining = []
stream_loop (suc fuel) size content remaining =
    let chunk = take (min size remaining) content in
    let rest =
      stream_loop fuel size (drop (min size remaining) content) (remaining - length chunk) in
    if remaining == 0 || length chunk == 0 then [] else chunk ∷ rest

-- `seek` refuses a negative offset.
pub stream_range : Bytes → ℤ → ℤ → Result (List Bytes)
unfolding stream_loop
stream_range file (negsuc n) end = err unexpected
stream_range file (pos start) end =
    let remaining = pos_part (end -ℤ pos start +ℤ pos 1) in
    ok (stream_loop remaining chunk_size (drop start file) remaining)

abbrev pub Headers : Type 0
Headers = List (String × Text)

-- Starlette's FileResponse (the whole file, 200), an empty Response (200), and a StreamingResponse.
pub data Response : Type 0 where
  file_response : Bytes → Text → Headers → Response
  empty_response : Text → Headers → Response
  streaming_response : ℕ → Headers → Result (List Bytes) → Response

pub common_headers : Text → Headers
common_headers cache_control =
    ("Accept-Ranges", codes "bytes") ∷ ("Cache-Control", cache_control) ∷ []

pub content_range : ℤ → ℤ → ℕ → Text
content_range start end file_size =
    codes "bytes "
    ++ (decimal_ℤ start ++ (codes "-" ++ (decimal_ℤ end ++ (codes "/" ++ decimal file_size))))

pub partial_headers : Text → Text → ℤ → ℤ → ℕ → Headers
unfolding common_headers content_range
partial_headers content_type cache_control start end file_size =
    common_headers cache_control
    ++ (("Content-Type", content_type)
        ∷ ("Content-Range", content_range start end file_size)
        ∷ ("Content-Length", decimal_ℤ (end -ℤ start +ℤ pos 1))
        ∷ [])

-- What follows a parsed Range header.
pub respond : Bytes → Text → Text → ℤ × ℤ → Response
unfolding common_headers partial_headers stream_range
respond file content_type cache_control (start, end) =
    if length file == 0
    then empty_response content_type
        (common_headers cache_control ++ ("Content-Length", codes "0") ∷ [])
    else streaming_response 206 (partial_headers content_type cache_control start end (length file))
        (stream_range file start end)

-- `file` is what stands at the path, `none` if `stat` fails.
pub build_media_response : Option Bytes → Text → Option Text → Text → Result Response
unfolding common_headers respond parse_range_header
build_media_response none content_type range cache_control = err unexpected
build_media_response (some file) content_type none cache_control =
    ok (file_response file content_type (common_headers cache_control))
build_media_response (some file) content_type (some header) cache_control = do
  offsets ← parse_range_header header (length file)
  ok (respond file content_type cache_control offsets)
