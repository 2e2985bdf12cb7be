-- ===== src/Uploads/Limit.antt =====
-- An upload within the limit passes whole; a larger one ends in UploadTooLargeError, and what has been
-- passed on by then stays within the limit.
use mathlib.Core.List.{List, flatten}
use video_journal_be.Prelude.{
  ◌==◌, List, Bool-cases, refl, inl, inr, ◌⊎◌, ℕ, zero, suc, ◌+◌, ◌≤◌, ◌<◌, ◌≡◌, ap, ◌∙◌, [], ltb,
  length, take, drop, if◌then◌else◌, arith, length-append, take-append-drop, take_none,
}
use video_journal_be.Errors.{Bytes, ok, err, upload_too_large}
use video_journal_be.Errors.Listed.{IsListed, HasListed, HasListed-ok, HasListed-err}
use video_journal_be.Uploads.{Upload, upload_loop, iter_upload, upload_chunk_size}

module _ (size max_bytes : ℕ) (positive : 0 < size) where
  length-parts :
      (content : Bytes) → length (take size content) + length (drop size content) ≡ length content
  length-parts content = omega (
    arith,
    ap (λ (l : Bytes). length l) (take-append-drop size content),
    length-append (take size content) (drop size content),
  )

  empty_chunk : (content : Bytes) → length (take size content) ≡ 0 → content ≡ []
  empty_chunk content h = take_none size content positive h

  no_bytes : (content : Bytes) → length (take size content) ≡ 0 → length content ≡ 0
  no_bytes content h = ap (λ (l : Bytes). length l) (empty_chunk content h)

  upload_loop-ending :
      (fuel total : ℕ) (content : Bytes)
      → length content < fuel
      → total ≤ max_bytes
      → (upload_loop fuel size max_bytes total content).ending
        ≡ (if ltb max_bytes (total + length content) then err upload_too_large else ok tt)
  unfolding upload_loop
  upload_loop-ending zero total content h t = elim h [ ]
  upload_loop-ending (suc fuel) total content h t = ground (
    arith,
    length-parts content,
    no_bytes content,
    upload_loop-ending fuel (total + length (take size content)) (drop size content),
  )

  upload_loop-content :
      (fuel total : ℕ) (content : Bytes)
      → length content < fuel
      → total + length content ≤ max_bytes
      → flatten (upload_loop fuel size max_bytes total content).chunks ≡ content
  unfolding upload_loop flatten
  upload_loop-content zero total content h t = elim h [ ]
  upload_loop-content (suc fuel) total content h t = ground (
    arith,
    length-parts content,
    no_bytes content,
    empty_chunk content,
    take-append-drop size content,
    upload_loop-content fuel (total + length (take size content)) (drop size content),
  )

  upload_loop-bound :
      (fuel total : ℕ) (content : Bytes)
      → total ≤ max_bytes
      → total + length (flatten (upload_loop fuel size max_bytes total content).chunks) ≤ max_bytes
  unfolding upload_loop flatten
  upload_loop-bound zero total content t = omega arith
  upload_loop-bound (suc fuel) total content t = ground (
    arith,
    length-append (take size content) (
        flatten
          (upload_loop fuel size max_bytes (total + length (take size content))
            (drop size content)).chunks),
    upload_loop-bound fuel (total + length (take size content)) (drop size content),
  )

-- Both cases at once, by the test of the limit.
pub iter_upload_limit :
    (max_bytes : ℕ) (upload : Upload)
    → ((iter_upload max_bytes upload).ending
        ≡ (if ltb max_bytes (length upload.content) then err upload_too_large else ok tt))
      × (length upload.content ≤ max_bytes
          → flatten (iter_upload max_bytes upload).chunks ≡ upload.content)
      × (length (flatten (iter_upload max_bytes upload).chunks) ≤ max_bytes)
unfolding iter_upload
iter_upload_limit max_bytes upload =
    let n : ℕ = suc (length upload.content) in
    let size : ℕ = upload_chunk_size in
    (
      upload_loop-ending size max_bytes (omega arith) n 0 upload.content (omega arith) (omega arith)
          ∙ ap (λ (k : ℕ). if ltb max_bytes k then err upload_too_large else ok tt) (omega arith),
      λ h.
          upload_loop-content size max_bytes (omega arith) n 0 upload.content (omega arith)
            (omega arith),
      omega
          (arith, upload_loop-bound size max_bytes (omega arith) n 0 upload.content (omega arith)),
    )

-- An upload within the limit is passed on whole and reading it ends well; a larger one ends in
-- UploadTooLargeError, and what has been passed on by then stays within the limit.
pub iter_upload_cases :
    (max_bytes : ℕ) (upload : Upload)
    → ((length upload.content ≤ max_bytes)
        × ((iter_upload max_bytes upload).ending ≡ ok tt)
        × (flatten (iter_upload max_bytes upload).chunks ≡ upload.content))
      ⊎ ((max_bytes < length upload.content)
          × ((iter_upload max_bytes upload).ending ≡ err upload_too_large)
          × (length (flatten (iter_upload max_bytes upload).chunks) ≤ max_bytes))
iter_upload_cases max_bytes upload =
    let (ending, whole, bound) = iter_upload_limit max_bytes upload in
    elim (Bool-cases (ltb max_bytes (length upload.content))) [
      | inl large ↦ inr (ground arith, ending ∙ rw large refl, bound)
      | inr fits ↦ inl (ground arith, ending ∙ rw fits refl, whole (ground arith))
    ]

upload_loop-HasListed :
    (statuses : List ℕ) (listed : IsListed statuses upload_too_large)
    (fuel size max_bytes total : ℕ) (content : Bytes)
    → HasListed statuses (upload_loop fuel size max_bytes total content).ending
unfolding upload_loop
upload_loop-HasListed statuses listed zero size max_bytes total content = HasListed-ok tt
upload_loop-HasListed statuses listed (suc fuel) size max_bytes total content =
    elim (Bool-cases (length (take size content) == 0)) [
      | inl stopped ↦ rw stopped (HasListed-ok tt)
      | inr going ↦ elim (Bool-cases (ltb max_bytes (total + length (take size content)))) [
        | inl large ↦ rw (going, large) (HasListed-err upload_too_large listed)
        | inr small ↦
            rw (going, small)
              (upload_loop-HasListed statuses listed fuel size max_bytes
                (total + length (take size content)) (drop size content))
      ]
    ]

-- Reading an upload fails with UploadTooLargeError alone.
pub iter_upload-HasListed :
    (statuses : List ℕ) (listed : IsListed statuses upload_too_large) (max_bytes : ℕ)
    (upload : Upload)
    → HasListed statuses (iter_upload max_bytes upload).ending
unfolding iter_upload
iter_upload-HasListed statuses listed max_bytes upload =
    upload_loop-HasListed statuses listed (suc (length upload.content)) upload_chunk_size max_bytes
      0 upload.content
