-- ===== src/System.antt =====
-- The application as a whole: the routes that src/app/api/router.py puts together, and the background tasks they
-- schedule, as events on the world.
pub mod Invariant
pub mod Statuses
mod Tests
use video_journal_be.Prelude.{ℕ, ◌≡◌, ◌<◌, ◌^◌, Option, []}
use video_journal_be.Errors.{Text}
use video_journal_be.Models.{Tables}
use video_journal_be.Storage.{FilePath}
use video_journal_be.Uploads.{Upload}
use video_journal_be.Session.{World, Env}
use video_journal_be.Clips.Service.{ClipUpdate, post_clip, patch_clip, remove_clip}
use video_journal_be.Clips.Processing.{run_normalization}
use video_journal_be.Compilations.Service.{CompilationCreate, post_compilation, remove_compilation}
use video_journal_be.Compilations.Rendering.{run_render}
use video_journal_be.Soundtracks.{post_soundtrack, remove_soundtrack}
use video_journal_be.Items.{ItemCreate, ItemUpdate, post_item, patch_item, remove_item}
use video_journal_be.Serving.{
  get_clip_video, get_clip_filmstrip, get_compilation_video, stream_audio,
}

-- A request of the types that its route declares, which may change the world or is answered with a file; or a
-- background task. Each comes with the UUIDs, times and names of temporary files that it draws.
pub data Event (F : Type 0) : Type 0 where
  clip_posted : ℕ → ℕ → Upload → Event F
  clip_patched : ℕ → ClipUpdate F → Event F
  clip_removed : ℕ → Event F
  clip_normalized : FilePath → FilePath → ℕ → Event F
  compilation_posted : ℕ → ℕ → CompilationCreate F → Event F
  compilation_removed : ℕ → Event F
  compilation_rendered : FilePath → ℕ → ℕ → Event F
  soundtrack_posted : ℕ → ℕ → Upload → Event F
  soundtrack_removed : ℕ → Event F
  item_posted : ℕ → ℕ → ItemCreate → Event F
  item_patched : ℕ → ℕ → ItemUpdate → Event F
  item_removed : ℕ → Event F
  video_read filmstrip_read output_read audio_read : ℕ → Option Text → Event F

-- A UUID that is drawn has 128 bits.
abbrev pub IsEvent : {F : Type 0} → Event F → Type 0
IsEvent (clip_posted k now upload) = k < 2 ^ 128
IsEvent (compilation_posted k now data_in) = k < 2 ^ 128
IsEvent (soundtrack_posted k now upload) = k < 2 ^ 128
IsEvent (item_posted k now data_in) = k < 2 ^ 128
IsEvent _ = Unit

unfoldable pub perform : {F : Type 0} → Env F → Event F → World F → World F
perform env (clip_posted k now upload) w = (post_clip env k now upload w).1
perform env (clip_patched k u) w = (patch_clip env k u w).1
perform env (clip_removed k) w = (remove_clip env k w).1
perform env (clip_normalized tmp strip k) w = (run_normalization env tmp strip k w).1
perform env (compilation_posted k now data_in) w = (post_compilation env k now data_in w).1
perform env (compilation_removed k) w = (remove_compilation env k w).1
perform env (compilation_rendered dst now k) w = (run_render env dst now k w).1
perform env (soundtrack_posted k now upload) w = (post_soundtrack env k now upload w).1
perform env (soundtrack_removed k) w = (remove_soundtrack env k w).1
perform env (item_posted k now data_in) w = (post_item env k now data_in w).1
perform env (item_patched k now u) w = (patch_item env now k u w).1
perform env (item_removed k) w = (remove_item env k w).1
perform env (video_read k range) w = (get_clip_video env k range w).1
perform env (filmstrip_read k range) w = (get_clip_filmstrip env k range w).1
perform env (output_read k range) w = (get_compilation_video env k range w).1
perform env (audio_read k range) w = (stream_audio env k range w).1

-- Before the first request.
abbrev pub no_rows : {F : Type 0} → Tables F
no_rows = record {
  clips = [];
  compilations = [];
  compilation_clips = [];
  soundtracks = [];
  items = [];
}

abbrev pub IsInitial : {F : Type 0} → World F → Type 0
IsInitial w = (w.committed ≡ no_rows) × (w.working ≡ no_rows)

-- What ffmpeg, ffprobe and the database do may differ from one event to the next.
pub data Reachable {F : Type 0} : World F → Type 0 where
  start : (w : World F) → IsInitial w → Reachable w
  step :
      (env : Env F) (e : Event F) (w : World F)
      → Reachable w
      → IsEvent e
      → Reachable (perform env e w)
