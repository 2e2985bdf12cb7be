-- ===== src/MediaResponse/Streaming.antt =====
-- The streamed chunks are exactly the requested slice of the file, each of bounded size.
use video_journal_be.Prelude.{
  ℕ, zero, suc, ◌+◌, ◌-◌, ◌≤◌, ◌<◌, ◌≡◌, refl, sym, ◌∙◌, ap, pos, pos_part, ◌+ℤ◌, ◌-ℤ◌, arith,
  length, take, drop, min, ◌++◌, ◌∷◌, List, [], true, ◌==◌, length-take, All, Bool-cases, inl, inr,
}
use mathlib.Core.List.{flatten}
use video_journal_be.Errors.{Bytes, ok}
use video_journal_be.MediaResponse.{stream_loop, stream_range, chunk_size}

take-nil {ℓ} : {A : Type ℓ} (n : ℕ) → take {A = A} n [] ≡ []
take-nil zero = refl
take-nil (suc n) = refl

-- What is left to read behind a first piece of at most `r` items.
take_split {ℓ} :
    {A : Type ℓ} (k r : ℕ) (xs : List A)
    → k ≤ r
    → take k xs ++ take (r - length (take k xs)) (drop k xs) ≡ take r xs
take_split zero r xs h = ap (λ (n : ℕ). take n xs) (omega arith)
take_split (suc k) r [] h = take-nil (r - 0) ∙ sym (take-nil r)
take_split (suc k) zero (x ∷ xs) h = elim h [ ]
take_split (suc k) (suc r) (x ∷ xs) h =
    ap (λ t. x ∷ t)
      (ap (λ (n : ℕ). take k xs ++ take n (drop k xs)) (omega arith)
        ∙ take_split k r xs (omega arith))

-- An empty read of a positive size means the end of the file.
take_empty {ℓ} :
    {A : Type ℓ} (k r : ℕ) (xs : List A) → 0 < k → (length (take k xs) == 0) ≡ true → take r xs ≡ []
take_empty zero r xs p h = elim p [ ]
take_empty (suc k) r [] p h = take-nil r
take_empty (suc k) r (x ∷ xs) p h = ground arith

flatten-stream_loop :
    (fuel size : ℕ) (content : Bytes) (remaining : ℕ)
    → 0 < size
    → remaining ≤ fuel
    → flatten (stream_loop fuel size content remaining) ≡ take remaining content
unfolding stream_loop flatten
flatten-stream_loop zero size content remaining p h =
    ap (λ (n : ℕ). take n content) (let e : 0 ≡ remaining = omega arith in e)
flatten-stream_loop (suc fuel) size content remaining p h = elim (Bool-cases (remaining == 0)) [
  | inl done ↦ rw done (ap (λ (n : ℕ). take n content) (let e : 0 ≡ remaining = ground arith in e))
  | inr more ↦ elim (Bool-cases (length (take (min size remaining) content) == 0)) [
    | inl over ↦
        rw (more, over)
          (sym (take_empty (min size remaining) remaining content (ground arith) over))
    | inr some_bytes ↦
        rw (more, some_bytes)
          (ap (λ t. take (min size remaining) content ++ t)
              (flatten-stream_loop fuel size (drop (min size remaining) content)
                (remaining - length (take (min size remaining) content)) p (ground arith))
            ∙ take_split (min size remaining) remaining content (omega arith))
  ]
]

stream_loop-sizes :
    (fuel size : ℕ) (content : Bytes) (remaining : ℕ)
    → All
        (λ (chunk : Bytes). (0 < length chunk) × (length chunk ≤ size))
        (stream_loop fuel size content remaining)
unfolding stream_loop
stream_loop-sizes zero size content remaining = tt
stream_loop-sizes (suc fuel) size content remaining = ground (
  arith,
  length-take (min size remaining) content,
  stream_loop-sizes fuel size (drop (min size remaining) content)
      (remaining - length (take (min size remaining) content)),
)

-- Streaming from `start` to `end` yields the bytes of the file from `start` to `end` inclusive, and
-- stops at the end of the file; no chunk is empty or longer than 64 KiB.
pub stream_range_slice :
    (file : Bytes) (start end : ℕ)
    → start ≤ end + 1
    → (chunks : List Bytes) × (stream_range file (pos start) (pos end) ≡ ok chunks)
      × (flatten chunks ≡ take (end + 1 - start) (drop start file))
      × All (λ (chunk : Bytes). (0 < length chunk) × (length chunk ≤ chunk_size)) chunks
unfolding stream_range
stream_range_slice file start end h =
    let n : ℕ = pos_part (pos end -ℤ pos start +ℤ pos 1) in
    let e : n ≡ end + 1 - start = ground arith in
    let content : Bytes = drop start file in
    (
      stream_loop n chunk_size content n,
      refl,
      flatten-stream_loop n chunk_size content n (omega arith) (omega arith)
          ∙ ap (λ (m : ℕ). take m content) e,
      stream_loop-sizes n chunk_size content n,
    )

-- Where `end` lies before `start` nothing is read.
pub stream_range_empty :
    (file : Bytes) (start end : ℕ)
    → end + 1 ≤ start
    → stream_range file (pos start) (pos end) ≡ ok []
unfolding stream_range
stream_range_empty file start end h =
    let e : pos_part (pos end -ℤ pos start +ℤ pos 1) ≡ 0 = ground arith in
    ap (λ (n : ℕ). ok (stream_loop n chunk_size (drop start file) n)) e
