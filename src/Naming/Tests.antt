-- ===== src/Naming/Tests.antt =====
-- The theorems on keys, extensions, paths and uploads at concrete values.
use mathlib.Core.List.{flatten}
use video_journal_be.Prelude.{
  ◌==◌, ℕ, ◌≡◌, refl, ◌<◌, ◌≤◌, ◌⊎◌, [], ◌∷◌, ◌++◌, some, All, length, min, arith, if◌then◌else◌,
}
use video_journal_be.Errors.{Text, ok, err, unsupported_media_type, upload_too_large}
use video_journal_be.Text.{codes, text_in, lower, lower_char}
use video_journal_be.Storage.{FilePath, resolve}
use video_journal_be.Storage.Paths.{IsName, HasNoSlash, join, resolve_contained, resolve-join}
use video_journal_be.Naming.{
  checked_extension, clip_extensions, clip_extension, after_last, found_or, truncate_stderr,
}
use video_journal_be.Naming.Extensions.{checked_extension-dot, clip_extension-HasNoSlash}
use video_journal_be.Naming.Keys.{
  normalized, output, asset_key, place, resolve-asset, asset_keys_apart,
}
use video_journal_be.Naming.Stderr.{truncate_stderr_tail}
use video_journal_be.Uuid.Injective.{uuid_text-injective}
use video_journal_be.Uploads.{Upload, iter_upload}
use video_journal_be.Uploads.Limit.{iter_upload_cases}
use video_journal_be.Samples.{media_root, whole_floats}
use video_journal_be.Media.{compute_frame_count}
use video_journal_be.Media.Filmstrip.{IsFrameCount, compute_frame_count_bounds}

checked_extension-dot_example :
    checked_extension clip_extensions (some (codes "IMG.1" ++ b'.' ∷ codes "MOV")) ≡ (
      if text_in (b'.' ∷ lower (codes "MOV")) clip_extensions
      then ok (b'.' ∷ lower (codes "MOV"))
      else err unsupported_media_type)
checked_extension-dot_example =
    checked_extension-dot clip_extensions (codes "IMG.1") (codes "MOV") (ground arith)

mov_is_allowed : clip_extension (some (codes "a.mov")) ≡ ok (codes ".mov")
unfolding clip_extension checked_extension after_last found_or text_in lower lower_char
mov_is_allowed = refl

clip_extension-HasNoSlash_example : HasNoSlash (codes ".mov")
clip_extension-HasNoSlash_example =
    clip_extension-HasNoSlash (some (codes "a.mov")) {ext = codes ".mov"} mov_is_allowed

resolve_contained_example :
    (rest : FilePath) × (media_root ++ codes "clips" ∷ codes "a.mp4" ∷ [] ≡ media_root ++ rest)
    × All IsName rest
resolve_contained_example =
    resolve_contained media_root (join (codes "clips" ∷ codes "a.mp4" ∷ []))
      {path = media_root ++ codes "clips" ∷ codes "a.mp4" ∷ []} (ground arith)
      (resolve-join media_root (codes "clips") (codes "a.mp4" ∷ []) (ground arith) (ground arith))

resolve-asset_example :
    resolve media_root (asset_key (output 3)) ≡ ok (media_root ++ place (output 3))
resolve-asset_example = resolve-asset media_root (output 3) (omega arith)

asset_keys_apart_example : normalized 1 ≡ normalized 1
asset_keys_apart_example =
    asset_keys_apart media_root (normalized 1) (normalized 1) (omega arith) (omega arith) refl

uuid_text-injective_example : ◌≡◌ {A = ℕ} 5 5
uuid_text-injective_example = uuid_text-injective 5 5 (omega arith) (omega arith) refl

truncate_stderr_tail_example :
    ((cut : Text) × (cut ++ truncate_stderr 3 (codes "error") ≡ codes "error"))
    × (length (truncate_stderr 3 (codes "error"))
        ≡ (if 3 == 0 then length (codes "error") else min 3 (length (codes "error"))))
truncate_stderr_tail_example = truncate_stderr_tail 3 (codes "error")

compute_frame_count_bounds_example : IsFrameCount (compute_frame_count whole_floats (some 42))
compute_frame_count_bounds_example = compute_frame_count_bounds whole_floats (some 42)

abbrev five_bytes : Upload
five_bytes = record { filename = some (codes "a.mov"); content = 1 ∷ 2 ∷ 3 ∷ 4 ∷ 5 ∷ [] }

iter_upload_cases_example :
    ((length five_bytes.content ≤ 4)
      × ((iter_upload 4 five_bytes).ending ≡ ok tt)
      × (flatten (iter_upload 4 five_bytes).chunks ≡ five_bytes.content))
    ⊎ ((4 < length five_bytes.content)
        × ((iter_upload 4 five_bytes).ending ≡ err upload_too_large)
        × (length (flatten (iter_upload 4 five_bytes).chunks) ≤ 4))
iter_upload_cases_example = iter_upload_cases 4 five_bytes
