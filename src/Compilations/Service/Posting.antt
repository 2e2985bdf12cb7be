-- ===== src/Compilations/Service/Posting.antt =====
-- POST of a compilation, from the check of its body to the commit.
use mathlib.Core.List.{Permᴰ}
use video_journal_be.Prelude.{Bool, ℕ, ◌≡◌, ◌≢◌, true, some, List, [], ◌∷◌, ◌++◌, All, take, none}
use video_journal_be.Models.{
  Clip, ClipStatus, ready, processing, failed, Compilation, CompilationStatus, CompilationClip,
  Soundtrack,
}
use video_journal_be.Models
use video_journal_be.Float.{FloatOps}
use video_journal_be.Session.{World, Env}
use video_journal_be.Session.Rows.{find, upsert}
use video_journal_be.Clips.Queries.Sorted.{IsSortedBy}
use video_journal_be.Compilations.Service.{CompilationCreate}
use video_journal_be.Compilations.Service.Creating.{numbered}

module _ {F : Type 0} where
  keep : ClipStatus → Clip F → List (Clip F) → List (Clip F)
  keep ready c cs = c ∷ cs
  keep processing c cs = cs
  keep failed c cs = cs

  -- The clips whose status is `ready`.
  unfoldable pub only_ready : List (Clip F) → List (Clip F)
  unfolding keep
  only_ready [] = []
  only_ready (c ∷ cs) = keep c.status c (only_ready cs)

  -- The clips that a compilation is made of: the first 500 of all ready clips, each once, by their sort index.
  abbrev pub IsReadyListing : FloatOps F → List (Clip F) → List (Clip F) → Type 0
  IsReadyListing floats rows clips =
      (all : List (Clip F)) × Permᴰ (only_ready rows) all
      × IsSortedBy (λ (a b : Clip F). floats.lt a.sort_index b.sort_index) all
      × (clips ≡ take 500 all)

  -- No compilation is being rendered.
  abbrev pub IsIdle : List (Compilation F) → Type 0
  IsIdle = All (λ (c : Compilation F). c.status ≢ Models.running)

module _ {F : Type 0} (env : Env F) (compilation_id now : ℕ) (data_in : CompilationCreate F) where
  -- The row that a request makes.
  abbrev pub pending_row : Compilation F
  pending_row = record {
    id = compilation_id;
    soundtrack_id = some data_in.soundtrack_id;
    status = Models.pending;
    output_key = none;
    duration_s = none;
    mix_clip_audio = data_in.mix_clip_audio;
    clip_audio_volume = data_in.clip_audio_volume;
    created_at = now;
    completed_at = none;
    error = none;
  }

  -- The volume lies between 0 and 1.
  abbrev pub IsVolume : Type 0
  IsVolume =
      (env.ops.floats.le (env.ops.floats.of_ℕ 0) data_in.clip_audio_volume ≡ true)
      × (env.ops.floats.le data_in.clip_audio_volume (env.ops.floats.of_ℕ 1) ≡ true)

  -- What a request that returns has met, and what it has committed.
  abbrev pub Posted : Compilation F × List (CompilationClip F) → World F → World F → Type 0
  Posted made w w' =
      IsVolume
      × IsIdle w.committed.compilations
      × ((s : Soundtrack F) × (find (λ (r : Soundtrack F). r.id) data_in.soundtrack_id
              w.committed.soundtracks
            ≡ some s))
      × ((clips : List (Clip F)) × IsReadyListing env.ops.floats w.committed.clips clips
          × (clips ≢ [])
          × (made ≡ (pending_row, numbered env compilation_id 0 clips)))
      × (w'.committed ≡ record w.committed {
        compilations = upsert (λ (c : Compilation F). c.id) made.0 w.committed.compilations;
        compilation_clips = w.committed.compilation_clips ++ made.1;
      })
      × (w'.files ≡ w.files)
