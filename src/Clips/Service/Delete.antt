-- ===== src/Clips/Service/Delete.antt =====
-- Deleting a clip: the files go first, then the row, if the database lets it go.
use video_journal_be.Prelude.{ℕ, ◌≡◌, refl, ◌∙◌, true, false, Option, none, some, inl, inr, arith}
use video_journal_be.Errors.{Bytes, Text, Result, ok, err, unexpected}
use video_journal_be.Models.{Clip, Tables}
use video_journal_be.Storage.{FilePath, Files, resolve, read, unlink}
use video_journal_be.Storage.Files.{read-unlink, read-unlink_self}
use video_journal_be.Session.{World, Env, delete_clip, apply, flush}
use video_journal_be.Session.Rows.{remove}
use video_journal_be.Session.Laws.{
  Outcome, flush_lem, request-Outcome, request_raised, flush_refused, delete_file_lem,
}
use video_journal_be.Clips.Service.{delete_key, delete_clip_row, remove_clip}
use video_journal_be.Clips.Service.Update.{row, get_clip-some}

module _ {F : Type 0} (env : Env F) where
  -- A key that is missing, or that the storage accepts, as every key that the program builds is.
  abbrev pub IsStorable : Option Text → Type 0
  IsStorable none = Unit
  IsStorable (some key) = (p : FilePath) × (resolve env.base key ≡ ok p)

  unlink_at : Result FilePath → Files → Files
  unlink_at (ok p) files = unlink p files
  unlink_at (err e) files = files

  pub without_key : Option Text → Files → Files
  unfolding unlink_at
  without_key none files = files
  without_key (some key) files = unlink_at (resolve env.base key) files

  delete_key_lem :
      (key : Option Text) (w : World F)
      → IsStorable key
      → delete_key env key w ≡ (ok tt, record w { files = without_key key w.files })
  unfolding delete_key without_key
  delete_key_lem none w h = refl
  delete_key_lem (some key) w h = rw (delete_file_lem env key h.0 w h.1, h.1)

  unfoldable pub file_at : Result FilePath → Files → Option Bytes
  file_at (ok p) files = read p files
  file_at (err e) files = none

  -- No file stands at the key.
  abbrev pub IsGone : Option Text → Files → Type 0
  IsGone none files = Unit
  IsGone (some key) files = file_at (resolve env.base key) files ≡ none

  read-without_key :
      (key : Option Text) (p : FilePath) (files : Files)
      → read p files ≡ none
      → read p (without_key key files) ≡ none
  unfolding without_key
  read-without_key none p files h = h
  read-without_key (some key) p files h = go (resolve env.base key)
    where
      go : (r : Result FilePath) → read p (unlink_at r files) ≡ none
      go (ok q) = ground (arith, read-unlink q p files)
      go (err e) = h

  IsGone-without_key :
      (key other : Option Text) (files : Files)
      → IsGone key files
      → IsGone key (without_key other files)
  unfolding file_at
  IsGone-without_key none other files h = tt
  IsGone-without_key (some key) other files h = go (resolve env.base key) h
    where
      go :
          (r : Result FilePath)
          → file_at r files ≡ none
          → file_at r (without_key other files) ≡ none
      go (ok p) k = read-without_key other p files k
      go (err e) k = refl

  IsGone-without_key_self : (key : Option Text) (files : Files) → IsGone key (without_key key files)
  unfolding without_key file_at
  IsGone-without_key_self none files = tt
  IsGone-without_key_self (some key) files = go (resolve env.base key)
    where
      go : (r : Result FilePath) → file_at r (unlink_at r files) ≡ none
      go (ok p) = read-unlink_self p files
      go (err e) = refl

  abbrev without_keys : Clip F → Files → Files
  without_keys c files =
      without_key c.filmstrip_key
        (without_key c.normalized_key (without_key (some c.original_key) files))

  abbrev pub AllGone : Clip F → Files → Type 0
  AllGone c files =
      IsGone (some c.original_key) files
      × IsGone c.normalized_key files
      × IsGone c.filmstrip_key files

  AllGone-without_keys : (c : Clip F) (files : Files) → AllGone c (without_keys c files)
  AllGone-without_keys c files =
      let f1 : Files = without_key (some c.original_key) files in
      let f2 : Files = without_key c.normalized_key f1 in
      (
        IsGone-without_key (some c.original_key) c.filmstrip_key f2 (
            IsGone-without_key (some c.original_key) c.normalized_key f1
              (IsGone-without_key_self (some c.original_key) files)),
        IsGone-without_key c.normalized_key c.filmstrip_key f2
            (IsGone-without_key_self c.normalized_key f1),
        IsGone-without_key_self c.filmstrip_key f2,
      )

  abbrev pub HasStorableKeys : Clip F → Type 0
  HasStorableKeys c =
      IsStorable (some c.original_key) × IsStorable c.normalized_key × IsStorable c.filmstrip_key

  delete_clip_row_lem :
      (clip_id : ℕ) (w : World F) (c : Clip F)
      → row env clip_id w ≡ some c
      → HasStorableKeys c
      → delete_clip_row env clip_id w
        ≡ flush env (delete_clip c.id) (record w { files = without_keys c w.files })
  unfolding delete_clip_row
  delete_clip_row_lem clip_id w c found keys = rw (
    get_clip-some env clip_id w found,
    delete_key_lem (some c.original_key) w keys.0,
    delete_key_lem c.normalized_key (record w { files = without_key (some c.original_key) w.files })
        keys.1,
    delete_key_lem c.filmstrip_key
        (record w {
          files = without_key c.normalized_key (without_key (some c.original_key) w.files);
        })
        keys.2,
  )

  abbrev pub without_clip : ℕ → Tables F → Tables F
  without_clip k t = record t { clips = remove (λ (c : Clip F). c.id) k t.clips }

  abbrev pub fresh : World F → World F
  fresh w = record w { working = w.committed; broken = false }

  -- Deleting a stored clip removes its row and all its files, or fails with the row still there; in both cases
  -- the files are gone, since they are deleted before the row. Its keys are accepted by the storage.
  pub remove_clip-Outcome :
      (clip_id : ℕ) (w : World F) (c : Clip F)
      → row env clip_id (fresh w) ≡ some c
      → HasStorableKeys c
      → Outcome
          (λ _ w'. (w'.committed ≡ without_clip c.id w.committed) × AllGone c w'.files)
          (λ e w'. (w'.committed ≡ w.committed) × (e ≡ unexpected) × AllGone c w'.files)
          (remove_clip env clip_id w)
  unfolding remove_clip apply
  remove_clip-Outcome clip_id w c found keys =
      let gone : AllGone c (without_keys c w.files) = AllGone-without_keys c w.files in
      request-Outcome env _ _ (delete_clip_row env clip_id) w (
        rw (delete_clip_row_lem clip_id (fresh w) c found keys)
          (elim (flush_lem env (delete_clip c.id)
            (record (fresh w) { files = without_keys c w.files })) [
              | inl done ↦ rw done (λ _. (refl, gone), (refl, refl, gone))
              | inr refused ↦ rw refused (refl, refl, gone)
            ]))

  -- Where the database refuses to delete the row of a stored clip, as it does while a compilation refers to the
  -- clip, the request fails and the clip stays in the table, but its files have been deleted.
  pub remove_clip_refused :
      (clip_id : ℕ) (w : World F) (c : Clip F)
      → row env clip_id (fresh w) ≡ some c
      → HasStorableKeys c
      → env.refuses (delete_clip c.id) w.committed ≡ true
      → (w' : World F) × (remove_clip env clip_id w ≡ (err unexpected, w'))
        × (row env clip_id (fresh w') ≡ some c)
        × AllGone c w'.files
  unfolding remove_clip
  remove_clip_refused clip_id w c found keys no_delete =
      let emptied : World F = record (fresh w) { files = without_keys c w.files } in
      (
        record w { working = w.committed; broken = false; files = without_keys c w.files },
        request_raised env (delete_clip_row env clip_id) w (
            delete_clip_row_lem clip_id (fresh w) c found keys
            ∙ flush_refused env (delete_clip c.id) emptied no_delete),
        found,
        AllGone-without_keys c w.files,
      )
