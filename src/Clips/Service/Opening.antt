-- ===== src/Clips/Service/Opening.antt =====
-- Where the files of a clip are found, in consistent tables.
use video_journal_be.Prelude.{ℕ, ◌≡◌, refl, ◌⊎◌, inl, inr, Option, none, some, Option-cases, ◌++◌}
use video_journal_be.Errors.{Text, Result, ok, err, not_found}
use video_journal_be.Models.{Clip, ClipStatus, processing, ready, failed}
use video_journal_be.Storage.{FilePath}
use video_journal_be.Naming.Keys.{
  Asset, normalized, filmstrip, asset_key, place, IsAsset, resolve-asset,
}
use video_journal_be.Session.{World, Env, M, ◌>>=◌}
use video_journal_be.Session.Laws.{path_of_lem}
use video_journal_be.Session.Rows.{find}
use video_journal_be.Session.Consistent.{IsConsistentClip, IsConsistentWorld, IsTable-find}
use video_journal_be.Clips.Service.{get_clip, open_key, open_normalized, open_filmstrip, is_ready}

-- What can be served of a clip: the file under the key, where the clip is ready and has the key.
abbrev pub asset_path : {F : Type 0} → Env F → Asset → ClipStatus → Option Text → Result FilePath
asset_path env a ready (some key) = ok (env.base ++ place a)
asset_path env a ready none = err not_found
asset_path env a processing key = err not_found
asset_path env a failed key = err not_found

abbrev pub video_path : {F : Type 0} → Env F → Option (Clip F) → Result FilePath
video_path env none = err not_found
video_path env (some c) = asset_path env (normalized c.id) c.status c.normalized_key

abbrev pub strip_path : {F : Type 0} → Env F → Option (Clip F) → Result FilePath
strip_path env none = err not_found
strip_path env (some c) = asset_path env (filmstrip c.id) c.status c.filmstrip_key

module _ {F : Type 0} (env : Env F) where
  open_key_lem :
      (c : Clip F) (a : Asset) (key : Option Text) (w : World F)
      → IsAsset a
      → (key ≡ none) ⊎ (key ≡ some (asset_key a))
      → open_key env c key w ≡ (asset_path env a c.status key, w)
  unfolding open_key is_ready
  open_key_lem c a key w h (inl missing) = rw missing (go c.status)
    where
      go : (s : ClipStatus) → open_key env c none w ≡ (asset_path env a s none, w)
      go processing = refl
      go ready = refl
      go failed = refl
  open_key_lem c a key w h (inr same) = rw same (go c.status refl)
    where
      go :
          (s : ClipStatus)
          → c.status ≡ s
          → open_key env c (some (asset_key a)) w ≡ (asset_path env a s (some (asset_key a)), w)
      go processing e = rw e refl
      go failed e = rw e refl
      go ready e =
          rw e (path_of_lem env (asset_key a) (env.base ++ place a) w (resolve-asset env.base a h))

  opened :
      (clip_id : ℕ) (w : World F) (f : Clip F → M F FilePath)
      (spec : Option (Clip F) → Result FilePath)
      → IsConsistentWorld w
      → spec none ≡ err not_found
      → ((c : Clip F) → IsConsistentClip c → f c w ≡ (spec (some c), w))
      → (get_clip env clip_id >>= f) w
        ≡ (spec (find (λ (c : Clip F). c.id) clip_id w.working.clips), w)
  unfolding get_clip
  opened clip_id w f spec k missing found =
      elim (Option-cases (find (λ (c : Clip F). c.id) clip_id w.working.clips)) [
        | inl e ↦ rw e (rw missing refl)
        | inr (c, e) ↦ rw e (
            found c (
              IsTable-find (λ (r : Clip F). r.id) IsConsistentClip clip_id w.working.clips k.1.clips
                e))
      ]

  -- `open_normalized` in consistent tables.
  pub open_normalized_lem :
      (clip_id : ℕ) (w : World F)
      → IsConsistentWorld w
      → open_normalized env clip_id w
        ≡ (video_path env (find (λ (c : Clip F). c.id) clip_id w.working.clips), w)
  unfolding open_normalized
  open_normalized_lem clip_id w k =
      opened clip_id w (λ c. open_key env c c.normalized_key) (video_path env) k refl
        (λ c h. open_key_lem c (normalized c.id) c.normalized_key w h.bound h.normalized)

  -- `open_filmstrip` in consistent tables.
  pub open_filmstrip_lem :
      (clip_id : ℕ) (w : World F)
      → IsConsistentWorld w
      → open_filmstrip env clip_id w
        ≡ (strip_path env (find (λ (c : Clip F). c.id) clip_id w.working.clips), w)
  unfolding open_filmstrip
  open_filmstrip_lem clip_id w k =
      opened clip_id w (λ c. open_key env c c.filmstrip_key) (strip_path env) k refl
        (λ c h. open_key_lem c (filmstrip c.id) c.filmstrip_key w h.bound h.filmstrip)
