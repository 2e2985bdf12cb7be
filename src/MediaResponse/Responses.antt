-- ===== src/MediaResponse/Responses.antt =====
-- The response to a request for a file: status, headers and body.
use mathlib.Core.List.{flatten}
use text.Mathlib.Text.{◌==◌ as str_eq}
use video_journal_be.Prelude.{
  ℤ, ℕ, suc, ◌+◌, ◌-◌, ◌≤◌, ◌≤ℤ◌, ◌<◌, ◌≡◌, refl, sym, ◌∙◌, ap, pos, negsuc, ◌+ℤ◌, ◌-ℤ◌, arith,
  length, take, drop, length-take, length-drop, String, List, [], ◌∷◌, Option, none, some,
  if◌then◌else◌,
}
use video_journal_be.Errors.{Bytes, Text, ok}
use video_journal_be.Text.{decimal, decimal_ℤ}
use video_journal_be.Text.Decimal.{int_of-stripped_minus}
use video_journal_be.MediaResponse.{
  Headers, streaming_response, parse_range_header, build_media_response, respond, partial_headers,
  stream_range, max_range_header_len, content_range, parse_suffix,
}
use video_journal_be.MediaResponse.Bounds.{parse_range_header_bounds}
use video_journal_be.MediaResponse.Requests.{range_header, parse_suffixed}
use video_journal_be.MediaResponse.Streaming.{stream_range_empty, stream_range_slice}

-- The value of a header.
abbrev pub header_value : String → Headers → Option Text
header_value k [] = none
header_value k ((j, v) ∷ hs) = if str_eq k j then some v else header_value k hs

respond_partial :
    (file : Bytes) (ct cache : Text) (s e : ℕ)
    → 0 < length file
    → respond file ct cache (pos s, pos e)
      ≡ streaming_response 206
          (partial_headers ct cache (pos s) (pos e) (length file))
          (stream_range file (pos s) (pos e))
unfolding respond
respond_partial file ct cache s e h = ground arith

decimal_ℤ-of_eq : (a : ℤ) (n : ℕ) → a ≡ pos n → decimal_ℤ a ≡ decimal n
unfolding decimal_ℤ
decimal_ℤ-of_eq a n e = rw e

decimal_ℤ-minus : (a : ℤ) (n : ℕ) → a ≡ negsuc n → decimal_ℤ a ≡ b'-' ∷ decimal (suc n)
unfolding decimal_ℤ
decimal_ℤ-minus a n e = rw e

content_length :
    (ct cache : Text) (s e size : ℕ)
    → s ≤ e + 1
    → header_value "Content-Length" (partial_headers ct cache (pos s) (pos e) size)
      ≡ some (decimal (e + 1 - s))
unfolding partial_headers
content_length ct cache s e size h =
    ap (λ t. some t) (decimal_ℤ-of_eq (pos e -ℤ pos s +ℤ pos 1) (e + 1 - s) (ground arith))

end_inside :
    (header : Text) (size start end : ℕ)
    → parse_range_header header size ≡ ok (pos start, pos end)
    → end + 1 ≤ size
end_inside header size start end parsed =
    last_below size end
      (parse_range_header_bounds header size {start = pos start} {end = pos end} parsed).1
  where
    last_below : (size end : ℕ) → pos end +ℤ pos 1 ≤ℤ pos size → end + 1 ≤ size
    last_below size end h = ground arith

-- A valid Range header on a file gets a 206 whose body is exactly the requested slice, whose
-- Content-Length is the number of bytes sent, and whose Content-Range names the slice and the size.
pub partial_response :
    (file : Bytes) (content_type header cache_control : Text) {start end : ℕ}
    → parse_range_header header (length file) ≡ ok (pos start, pos end)
    → start ≤ end
    → (headers : Headers) × (chunks : List Bytes) × (build_media_response
          (some file)
          content_type
          (some header)
          cache_control
        ≡ ok (streaming_response 206 headers (ok chunks)))
      × (flatten chunks ≡ take (end + 1 - start) (drop start file))
      × (length (flatten chunks) ≡ end + 1 - start)
      × (header_value "Content-Length" headers ≡ some (decimal (length (flatten chunks))))
      × (header_value "Content-Range" headers
          ≡ some (content_range (pos start) (pos end) (length file)))
unfolding build_media_response partial_headers
partial_response file ct header cache {start} {end} parsed le =
    let inside : end + 1 ≤ length file = end_inside header (length file) start end parsed in
    let (chunks, streamed, slice, _) = stream_range_slice file start end (omega arith) in
    let size : length (flatten chunks) ≡ end + 1 - start =
      ap length slice
      ∙ omega (arith, length-take (end + 1 - start) (drop start file), length-drop start file) in
    (
      partial_headers ct cache (pos start) (pos end) (length file),
      chunks,
      rw parsed (
          ap (λ r. ok r)
            (respond_partial file ct cache start end (ground arith)
              ∙ ap
                  (streaming_response 206
                    (partial_headers ct cache (pos start) (pos end) (length file)))
                  streamed)),
      slice,
      size,
      content_length ct cache start end (length file) (omega arith)
          ∙ ap (λ (n : ℕ). some (decimal n)) (sym size),
      refl,
    )

-- What the parser makes of a suffix with a minus sign of its own.
parse_negative_suffix :
    (n size : ℕ)
    → length (range_header [] (b'-' ∷ decimal n)) ≤ max_range_header_len
    → 0 < n
    → 0 < size
    → parse_range_header (range_header [] (b'-' ∷ decimal n)) size
      ≡ ok (pos (size + n), pos (size - 1))
parse_negative_suffix n size h p q =
    parse_suffixed (b'-' ∷ decimal n) size h
    ∙ (unfold parse_suffix in ground (arith, int_of-stripped_minus n))

-- `bytes=--n`, for any positive `n` and any file that is not empty, is not refused: the answer is a 206
-- with an empty body and the Content-Length `-n`.
pub negative_suffix_response :
    (file : Bytes) (content_type cache_control : Text) (n : ℕ)
    → length (range_header [] (b'-' ∷ decimal n)) ≤ max_range_header_len
    → 0 < n
    → 0 < length file
    → (headers : Headers) × (build_media_response
          (some file)
          content_type
          (some (range_header [] (b'-' ∷ decimal n)))
          cache_control
        ≡ ok (streaming_response 206 headers (ok [])))
      × (header_value "Content-Length" headers ≡ some (b'-' ∷ decimal n))
unfolding build_media_response partial_headers
negative_suffix_response file ct cache n h p q =
    let hs : Headers =
      partial_headers ct cache (pos (length file + n)) (pos (length file - 1)) (length file) in
    (
      hs,
      rw (parse_negative_suffix n (length file) h p q) (
          ap (λ r. ok r)
            (respond_partial file ct cache (length file + n) (length file - 1) q
              ∙ ap (streaming_response 206 hs)
                  (stream_range_empty file (length file + n) (length file - 1) (omega arith)))),
      ap (λ t. some t)
          (decimal_ℤ-minus (pos (length file - 1) -ℤ pos (length file + n) +ℤ pos 1) (n - 1)
              (ground arith)
            ∙ ap (λ (m : ℕ). b'-' ∷ decimal m) (omega arith)),
    )
