-- ===== src/Clips/Tests.antt =====
-- The theorems on clips at a small world.
use video_journal_be.Prelude.{ℕ, ◌≡◌, refl, ◌<◌, ◌^◌, none, some, [], ◌∷◌, ◌++◌, arith}
use video_journal_be.Errors.{ok, err, unexpected}
use video_journal_be.Text.{codes, lower, lower_char, text_in}
use video_journal_be.Models.{Clip}
use video_journal_be.Storage.{FilePath, resolve, read}
use video_journal_be.Naming.{clip_extension, checked_extension, after_last, found_or}
use video_journal_be.Naming.Keys.{original, normalized, place, resolve-asset}
use video_journal_be.Uploads.{Upload}
use video_journal_be.Session.{World}
use video_journal_be.Session.Rows.{find}
use video_journal_be.Session.Laws.{Outcome}
use video_journal_be.Clips.Service.{ClipUpdate, create_from_upload, remove_clip}
use video_journal_be.Clips.Service.Creating.{Created, NotCreated, create_from_upload-Outcome}
use video_journal_be.Clips.Service.Update.{row}
use video_journal_be.Clips.Service.Delete.{
  HasStorableKeys, AllGone, without_clip, fresh, remove_clip-Outcome, remove_clip_refused,
}
use video_journal_be.Clips.Processing.{run_normalization}
use video_journal_be.Clips.Processing.Results.{Settled, run_normalization-Outcome}
use video_journal_be.Samples.{tools, refusing, journal, clip_one, media_root}

abbrev small_upload : Upload
small_upload = record { filename = some (codes "a.mov"); content = 1 ∷ 2 ∷ [] }

small_upload-named : clip_extension small_upload.filename ≡ ok (codes ".mov")
unfolding clip_extension checked_extension after_last found_or text_in lower lower_char
small_upload-named = refl

create_from_upload-Outcome_example :
    Outcome
      (λ clip w'. Created tools 4 9 small_upload (codes ".mov") clip journal w')
      (λ e w'. NotCreated tools 4 9 small_upload (codes ".mov") e journal w')
      (create_from_upload tools 4 9 small_upload journal)
create_from_upload-Outcome_example =
    create_from_upload-Outcome tools 4 9 small_upload (codes ".mov") journal (omega arith)
      small_upload-named

abbrev later_start : ClipUpdate ℕ
later_start = record { trim_in_s = some 3; trim_out_s = none; sort_index = none }

clip_one-found : find (λ (c : Clip ℕ). c.id) 1 journal.committed.clips ≡ some clip_one
unfolding find
clip_one-found = refl

original_at :
    resolve media_root clip_one.original_key ≡ ok (media_root ++ place (original 1 (codes ".mov")))
original_at = resolve-asset media_root (original 1 (codes ".mov")) (ground arith)

clip_one-keys : HasStorableKeys tools clip_one
unfolding find
clip_one-keys = ((_, original_at), (_, resolve-asset media_root (normalized 1) (omega arith)), tt)

abbrev tmp_file : FilePath
tmp_file = codes "tmp" ∷ codes "a.mp4" ∷ []

abbrev strip_file : FilePath
strip_file = codes "tmp" ∷ codes "a.jpg" ∷ []

one_is_small : clip_one.id < 2 ^ 128
one_is_small = omega arith

run_normalization-Outcome_example :
    Outcome
      (λ _ w'.
        Settled tools tmp_file strip_file clip_one one_is_small (ok (7 ∷ [])) w'
        × (read tmp_file w'.temps ≡ none))
      (λ e w'. (w'.committed ≡ journal.committed) × (read tmp_file w'.temps ≡ none))
      (run_normalization tools tmp_file strip_file 1 journal)
run_normalization-Outcome_example =
    run_normalization-Outcome tools tmp_file strip_file clip_one one_is_small (ok (7 ∷ [])) journal
      (media_root ++ place (original 1 (codes ".mov"))) clip_one-found original_at refl

remove_clip-Outcome_example :
    Outcome
      (λ _ w'.
        (w'.committed ≡ without_clip tools 1 journal.committed) × AllGone tools clip_one w'.files)
      (λ e w'.
        (w'.committed ≡ journal.committed) × (e ≡ unexpected) × AllGone tools clip_one w'.files)
      (remove_clip tools 1 journal)
remove_clip-Outcome_example =
    remove_clip-Outcome tools 1 journal clip_one clip_one-found clip_one-keys

remove_clip_refused_example :
    (w' : World ℕ) × (remove_clip refusing 1 journal ≡ (err unexpected, w'))
    × (row refusing 1 (fresh refusing w') ≡ some clip_one)
    × AllGone refusing clip_one w'.files
remove_clip_refused_example =
    remove_clip_refused refusing 1 journal clip_one clip_one-found clip_one-keys refl
