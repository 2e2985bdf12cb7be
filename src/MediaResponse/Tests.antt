-- ===== src/MediaResponse/Tests.antt =====
-- Runs of common/media_response.py on small files, and the theorems at concrete requests.
use video_journal_be.Prelude.{
  ◌⊎◌, ◌+◌, ◌-◌, ◌<◌, ◌≤◌, ◌≡◌, pos, ◌≤ℤ◌, ◌+ℤ◌, List, [], ◌∷◌, some, All, length, take, drop,
  arith,
}
use mathlib.Core.List.{flatten}
use video_journal_be.Errors.{Bytes, ok, err, range_not_satisfiable}
use video_journal_be.Text.{codes, decimal, decimal_fuel}
use video_journal_be.MediaResponse.{
  parse_range_header, build_media_response, stream_range, Headers, streaming_response,
  content_range, chunk_size,
}
use video_journal_be.MediaResponse.Bounds.{IsSuffix, parse_range_header_bounds}
use video_journal_be.MediaResponse.Requests.{
  range_header, parse_range_header-closed, parse_range_header-open, parse_range_header-suffix,
}
use video_journal_be.MediaResponse.Streaming.{stream_range_slice}
use video_journal_be.MediaResponse.Responses.{
  header_value, partial_response, negative_suffix_response,
}

abbrev four_bytes : Bytes
four_bytes = 10 ∷ 11 ∷ 12 ∷ 13 ∷ []

parse_range_header-closed_example :
    parse_range_header (range_header (decimal 1) (decimal 9)) 4 ≡ ok (pos 1, pos 3)
unfolding decimal decimal_fuel
parse_range_header-closed_example = parse_range_header-closed 1 9 4 (ground arith)

parse_range_header-open_example :
    parse_range_header (range_header (decimal 4) []) 4 ≡ err range_not_satisfiable
unfolding decimal decimal_fuel
parse_range_header-open_example = parse_range_header-open 4 4 (ground arith)

parse_range_header-suffix_example :
    parse_range_header (range_header [] (decimal 3)) 4 ≡ ok (pos 1, pos 3)
unfolding decimal decimal_fuel
parse_range_header-suffix_example = parse_range_header-suffix 3 4 (ground arith)

closed_offsets : parse_range_header (range_header (decimal 1) (decimal 2)) 4 ≡ ok (pos 1, pos 2)
unfolding decimal decimal_fuel
closed_offsets = parse_range_header-closed 1 2 4 (ground arith)

parse_range_header_bounds_example :
    (pos 0 ≤ℤ pos 1)
    × (pos 2 +ℤ pos 1 ≤ℤ pos 4)
    × (IsSuffix (range_header (decimal 1) (decimal 2)) ⊎ (pos 1 ≤ℤ pos 2))
parse_range_header_bounds_example =
    parse_range_header_bounds (range_header (decimal 1) (decimal 2)) 4 {start = pos 1} {end = pos 2}
      closed_offsets

stream_range_slice_example :
    (chunks : List Bytes) × (stream_range four_bytes (pos 1) (pos 2) ≡ ok chunks)
    × (flatten chunks ≡ take 2 (drop 1 four_bytes))
    × All (λ (chunk : Bytes). (0 < length chunk) × (length chunk ≤ chunk_size)) chunks
stream_range_slice_example = stream_range_slice four_bytes 1 2 (omega arith)

partial_response_example :
    (headers : Headers) × (chunks : List Bytes) × (build_media_response
        (some four_bytes)
        (codes "video/mp4")
        (some (range_header (decimal 1) (decimal 2)))
        (codes "no-cache")
      ≡ ok (streaming_response 206 headers (ok chunks)))
    × (flatten chunks ≡ take (2 + 1 - 1) (drop 1 four_bytes))
    × (length (flatten chunks) ≡ 2 + 1 - 1)
    × (header_value "Content-Length" headers ≡ some (decimal (length (flatten chunks))))
    × (header_value "Content-Range" headers
        ≡ some (content_range (pos 1) (pos 2) (length four_bytes)))
partial_response_example =
    partial_response four_bytes (codes "video/mp4") (range_header (decimal 1) (decimal 2))
      (codes "no-cache") {start = 1} {end = 2} closed_offsets (omega arith)

negative_suffix_response_example :
    (headers : Headers) × (build_media_response
        (some four_bytes)
        (codes "video/mp4")
        (some (range_header [] (b'-' ∷ decimal 5)))
        (codes "no-cache")
      ≡ ok (streaming_response 206 headers (ok [])))
    × (header_value "Content-Length" headers ≡ some (b'-' ∷ decimal 5))
unfolding decimal decimal_fuel
negative_suffix_response_example =
    negative_suffix_response four_bytes (codes "video/mp4") (codes "no-cache") 5 (ground arith)
      (omega arith) (omega arith)
