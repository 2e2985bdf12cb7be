-- ===== src/System/Tests.antt =====
-- A short history of the application, and the properties at its end.
use video_journal_be.Prelude.{false, ℕ, ◌≡◌, refl, none, some, [], ◌∷◌, ◌++◌, arith}
use video_journal_be.Errors.{ok}
use video_journal_be.Text.{codes}
use video_journal_be.Models.{Clip, Compilation, Soundtrack}
use video_journal_be.Storage.{FilePath, read, write}
use video_journal_be.Uploads.{Upload}
use video_journal_be.Naming.Keys.{original, place}
use video_journal_be.Session.{World}
use video_journal_be.Session.Rows.{find}
use video_journal_be.Session.Consistent.{IsConsistent}
use video_journal_be.Clips.Service.Opening.{video_path, strip_path}
use video_journal_be.Compilations.Service.Opening.{rendered_path}
use video_journal_be.Serving.{
  get_clip_video, get_clip_filmstrip, get_compilation_video, stream_audio,
}
use video_journal_be.Serving.Videos.{fresh, answer}
use video_journal_be.Serving.Audio.{IsAudioAnswer}
use video_journal_be.Usage.{compute_usage}
use video_journal_be.Usage.Counting.{usage_of, counted, compute_usage-write}
use video_journal_be.System.{
  soundtrack_posted, clip_posted, clip_normalized, perform, Reachable, start, step, no_rows,
}
use video_journal_be.System.Invariant.{reachable-IsConsistent, reachable_videos, reachable_audio}
use video_journal_be.Samples.{tools, probing, no_renders, journal}

abbrev song : Upload
song = record { filename = some (codes "song.mp3"); content = 1 ∷ 2 ∷ [] }

abbrev film : Upload
film = record { filename = some (codes "film.MOV"); content = 3 ∷ 4 ∷ [] }

abbrev empty_journal : World ℕ
empty_journal = record {
  committed = no_rows;
  working = no_rows;
  broken = false;
  files = [];
  temps = [];
  progress = no_renders;
}

abbrev with_song : World ℕ
with_song = perform probing (soundtrack_posted 6 9 song) empty_journal

abbrev with_clip : World ℕ
with_clip = perform probing (clip_posted 7 10 film) with_song

abbrev with_video : World ℕ
with_video = perform probing (clip_normalized (codes "a" ∷ []) (codes "b" ∷ []) 7) with_clip

with_song-Reachable : Reachable with_song
with_song-Reachable =
    step probing (soundtrack_posted 6 9 song) empty_journal (start empty_journal (refl, refl))
      (omega arith)

with_video-Reachable : Reachable with_video
with_video-Reachable =
    step probing (clip_normalized (codes "a" ∷ []) (codes "b" ∷ []) 7) with_clip
      (step probing (clip_posted 7 10 film) with_song with_song-Reachable (omega arith)) tt

reachable-IsConsistent_example : IsConsistent with_video.committed × IsConsistent with_video.working
reachable-IsConsistent_example = reachable-IsConsistent with_video with_video-Reachable

reachable_videos_example :
    (get_clip_video probing 7 none with_video ≡ (
      answer probing
          (video_path probing (find (λ (c : Clip ℕ). c.id) 7 with_video.committed.clips))
          (codes "video/mp4")
          none
          with_video,
      fresh probing with_video,
    ))
    × (get_clip_filmstrip probing 7 none with_video ≡ (
      answer probing
          (strip_path probing (find (λ (c : Clip ℕ). c.id) 7 with_video.committed.clips))
          (codes "image/jpeg")
          none
          with_video,
      fresh probing with_video,
    ))
    × (get_compilation_video probing 7 none with_video ≡ (
      answer probing
          (rendered_path probing
            (find (λ (c : Compilation ℕ). c.id) 7 with_video.committed.compilations))
          (codes "video/mp4")
          none
          with_video,
      fresh probing with_video,
    ))
reachable_videos_example = reachable_videos probing with_video with_video-Reachable refl 7 none

reachable_audio_example :
    IsAudioAnswer probing with_song 6
      (some (codes "bytes=0-0"))
      (find (λ (r : Soundtrack ℕ). r.id) 6 with_song.committed.soundtracks)
      (stream_audio probing 6 (some (codes "bytes=0-0")) with_song)
reachable_audio_example =
    reachable_audio probing with_song with_song-Reachable refl 6 (some (codes "bytes=0-0"))

abbrev upload_place : FilePath
upload_place = tools.base ++ place (original 1 (codes ".mov"))

compute_usage-write_example :
    compute_usage tools (record journal { files = write upload_place (1 ∷ 2 ∷ []) [] }) ≡ (
      ok (counted (original 1 (codes ".mov")) 2 (usage_of tools.base [])),
      record journal { files = write upload_place (1 ∷ 2 ∷ []) [] },
    )
compute_usage-write_example =
    compute_usage-write tools (original 1 (codes ".mov")) (1 ∷ 2 ∷ []) journal nothing_there
  where
    nothing_there : read upload_place [] ≡ none
    nothing_there = unfold read in refl
