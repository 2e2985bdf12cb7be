-- ===== src/System/Invariant.antt =====
-- What holds of every world that events lead to.
use video_journal_be.Prelude.{ℕ, ◌≡◌, sym, subst, Option, false}
use video_journal_be.Errors.{Text, Result, ok, err}
use video_journal_be.Text.{codes}
use video_journal_be.Models.{Clip, Compilation, Soundtrack}
use video_journal_be.Session.{World, Env, M}
use video_journal_be.Session.Laws.{Outcome}
use video_journal_be.Session.Rows.{find}
use video_journal_be.Session.Consistent.{IsConsistent, IsConsistentWorld}
use video_journal_be.Session.Keeping.{KeepsConsistent}
use video_journal_be.Clips.Service.Consistent.{
  post_clip-KeepsConsistent, patch_clip-KeepsConsistent, remove_clip-KeepsConsistent,
}
use video_journal_be.Clips.Processing.Consistent.{run_normalization-KeepsConsistent}
use video_journal_be.Compilations.Service.Consistent.{
  post_compilation-KeepsConsistent, remove_compilation-KeepsConsistent,
}
use video_journal_be.Compilations.Rendering.Consistent.{run_render-KeepsConsistent}
use video_journal_be.Soundtracks.Consistent.{
  post_soundtrack-KeepsConsistent, remove_soundtrack-KeepsConsistent,
}
use video_journal_be.Items.Consistent.{
  post_item-KeepsConsistent, patch_item-KeepsConsistent, remove_item-KeepsConsistent,
}
use video_journal_be.Serving.Consistent.{
  get_clip_video-KeepsConsistent, get_clip_filmstrip-KeepsConsistent,
  get_compilation_video-KeepsConsistent, stream_audio-KeepsConsistent,
}
use video_journal_be.Serving.Audio.{IsAudioAnswer, stream_audio_lem}
use video_journal_be.Serving.{
  stream_audio, get_clip_video, get_clip_filmstrip, get_compilation_video,
}
use video_journal_be.Serving.Videos.{
  fresh, answer, get_clip_video_lem, get_clip_filmstrip_lem, get_compilation_video_lem,
}
use video_journal_be.Clips.Service.Opening.{video_path, strip_path}
use video_journal_be.Compilations.Service.Opening.{rendered_path}
use video_journal_be.System.{
  Event, clip_posted, clip_patched, clip_removed, clip_normalized, compilation_posted,
  compilation_removed, compilation_rendered, soundtrack_posted, soundtrack_removed, item_posted,
  item_patched, item_removed, video_read, filmstrip_read, output_read, audio_read, IsEvent, perform,
  no_rows, Reachable, start, step,
}

module _ {F : Type 0} where
  after :
      {A : Type 0} {P : A → Type 0} {m : M F A}
      → KeepsConsistent P m
      → (w : World F) → IsConsistentWorld w
      → IsConsistentWorld (m w).1
  after {A} {P} {m} h w c = go (m w) (h.keeps w c)
    where
      go :
          (r : Result A × World F)
          → Outcome (λ a w'. IsConsistentWorld w' × P a) (λ _ w'. IsConsistentWorld w') r
          → IsConsistentWorld r.1
      go (ok a, w') k = k.0
      go (err e, w') k = k

  perform-IsConsistentWorld :
      (env : Env F) (e : Event F) (w : World F)
      → IsEvent e
      → IsConsistentWorld w
      → IsConsistentWorld (perform env e w)
  unfolding perform
  perform-IsConsistentWorld env (clip_posted k now upload) w h k' =
      after (post_clip-KeepsConsistent env k now upload h) w k'
  perform-IsConsistentWorld env (clip_patched k u) w h k' =
      after (patch_clip-KeepsConsistent env k u) w k'
  perform-IsConsistentWorld env (clip_removed k) w h k' =
      after (remove_clip-KeepsConsistent env k) w k'
  perform-IsConsistentWorld env (clip_normalized tmp strip k) w h k' =
      after (run_normalization-KeepsConsistent env tmp strip k) w k'
  perform-IsConsistentWorld env (compilation_posted k now data_in) w h k' =
      after (post_compilation-KeepsConsistent env k now data_in h) w k'
  perform-IsConsistentWorld env (compilation_removed k) w h k' =
      after (remove_compilation-KeepsConsistent env k) w k'
  perform-IsConsistentWorld env (compilation_rendered dst now k) w h k' =
      after (run_render-KeepsConsistent env dst now k) w k'
  perform-IsConsistentWorld env (soundtrack_posted k now upload) w h k' =
      after (post_soundtrack-KeepsConsistent env k now upload h) w k'
  perform-IsConsistentWorld env (soundtrack_removed k) w h k' =
      after (remove_soundtrack-KeepsConsistent env k) w k'
  perform-IsConsistentWorld env (item_posted k now data_in) w h k' =
      after (post_item-KeepsConsistent env k now data_in) w k'
  perform-IsConsistentWorld env (item_patched k now u) w h k' =
      after (patch_item-KeepsConsistent env now k u) w k'
  perform-IsConsistentWorld env (item_removed k) w h k' =
      after (remove_item-KeepsConsistent env k) w k'
  perform-IsConsistentWorld env (video_read k range) w h k' =
      after (get_clip_video-KeepsConsistent env k range) w k'
  perform-IsConsistentWorld env (filmstrip_read k range) w h k' =
      after (get_clip_filmstrip-KeepsConsistent env k range) w k'
  perform-IsConsistentWorld env (output_read k range) w h k' =
      after (get_compilation_video-KeepsConsistent env k range) w k'
  perform-IsConsistentWorld env (audio_read k range) w h k' =
      after (stream_audio-KeepsConsistent env k range) w k'

  no_rows-IsConsistent : IsConsistent (no_rows {F = F})
  no_rows-IsConsistent = record {
    clips = (tt, tt);
    compilations = (tt, tt);
    soundtracks = (tt, tt);
    items = (tt, tt);
  }

-- Whatever requests and background tasks have run since the tables were empty, in any order, and however each of
-- them has ended, no two rows of a table have the same id; every clip, compilation and soundtrack is stored under keys built from
-- its id and an allowed extension; a ready clip has its video's key and a complete compilation its output's; and the
-- name of an item has 1 to 200 characters. UUIDs have 128 bits.
pub reachable-IsConsistent :
    {F : Type 0} (w : World F) → Reachable w → IsConsistent w.committed × IsConsistent w.working
reachable-IsConsistent w (start _ initial) = (
  subst IsConsistent (sym initial.0) no_rows-IsConsistent,
  subst IsConsistent (sym initial.1) no_rows-IsConsistent,
)
reachable-IsConsistent w (step env e v before drawn) =
    perform-IsConsistentWorld env e v drawn (reachable-IsConsistent v before)

-- In every world that events lead to, GET of a clip's video is answered with the file that stands at the place of the
-- clip's normalized video, as the Range header asks, exactly where the clip is stored and ready with a video, and with
-- NotFoundError else; GET of its film strip, and of a compilation's output, likewise. Nothing changes. It is
-- assumed that the database does not refuse to commit nothing.
pub reachable_videos :
    {F : Type 0} (env : Env F) (w : World F)
    → Reachable w
    → env.refuses_commit w.committed ≡ false
    → (k : ℕ) (range : Option Text)
    → (get_clip_video env k range w ≡ (
      answer env
          (video_path env (find (λ (c : Clip F). c.id) k w.committed.clips))
          (codes "video/mp4")
          range
          w,
      fresh env w,
    ))
      × (get_clip_filmstrip env k range w ≡ (
        answer env
            (strip_path env (find (λ (c : Clip F). c.id) k w.committed.clips))
            (codes "image/jpeg")
            range
            w,
        fresh env w,
      ))
      × (get_compilation_video env k range w ≡ (
        answer env
            (rendered_path env (find (λ (c : Compilation F). c.id) k w.committed.compilations))
            (codes "video/mp4")
            range
            w,
        fresh env w,
      ))
reachable_videos env w from granted k range =
    let consistent : IsConsistent w.committed = (reachable-IsConsistent w from).0 in
    (
      get_clip_video_lem env w consistent granted k range,
      get_clip_filmstrip_lem env w consistent granted k range,
      get_compilation_video_lem env w consistent granted k range,
    )

-- In every world that events lead to, GET of a soundtrack's audio is answered with NotFoundError where it is not
-- stored, and else with the file at the place that the row's key names, as the Range header asks, and with the content type
-- that is listed for that key's extension, never the default for unknown ones. Nothing changes. It is assumed that the database
-- does not refuse to commit nothing.
pub reachable_audio :
    {F : Type 0} (env : Env F) (w : World F)
    → Reachable w
    → env.refuses_commit w.committed ≡ false
    → (k : ℕ) (range : Option Text)
    → IsAudioAnswer env w k range
        (find (λ (r : Soundtrack F). r.id) k w.committed.soundtracks)
        (stream_audio env k range w)
reachable_audio env w from granted k range =
    stream_audio_lem env w (reachable-IsConsistent w from).0 granted k range
