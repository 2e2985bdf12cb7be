-- ===== src/Usage.antt =====
-- The storage usage: domains/storage/service.py.
pub mod Counting
use video_journal_be.Prelude.{ℕ, ◌+◌, Bool, not, ◌&&◌, List, [], ◌∷◌, length, if◌then◌else◌}
use video_journal_be.Errors.{Text, Bytes}
use video_journal_be.Text.{codes}
use video_journal_be.Storage.{FilePath, Files, path_eq, is_relative_to}
use video_journal_be.Session.{World, Env, M, pure, gets, ◌>>=◌, path_of}

-- Whether `rglob("*")` of the directory finds the file.
unfoldable pub is_below : FilePath → FilePath → Bool
unfolding is_relative_to
is_below directory path = is_relative_to path directory && not (path_eq path directory)

-- `_dir_size`: the bytes of the files below a directory, 0 where there is none.
unfoldable pub dir_size : FilePath → Files → ℕ
unfolding is_below
dir_size directory [] = 0
dir_size directory ((path, bytes) ∷ files) =
    (if is_below directory path then length bytes else 0) + dir_size directory files

-- `StorageUsageRead`
pub record StorageUsage : Type 0 where
  pub originals_bytes : ℕ
  pub normalized_bytes : ℕ
  pub filmstrips_bytes : ℕ
  pub soundtracks_bytes : ℕ
  pub outputs_bytes : ℕ
  pub total_bytes : ℕ

module _ {F : Type 0} (env : Env F) where
  -- `_size_for_prefix`
  unfoldable pub size_for_prefix : Text → M F ℕ
  unfolding dir_size
  size_for_prefix prefix = do path ← path_of env prefix; gets (λ w. dir_size path w.files)

  unfoldable pub compute_usage : M F StorageUsage
  unfolding size_for_prefix
  compute_usage = do
    originals ← size_for_prefix (codes "clips/original")
    normalized ← size_for_prefix (codes "clips/normalized")
    filmstrips ← size_for_prefix (codes "clips/filmstrip")
    soundtracks ← size_for_prefix (codes "soundtracks")
    outputs ← size_for_prefix (codes "outputs")
    pure (record {
      originals_bytes = originals;
      normalized_bytes = normalized;
      filmstrips_bytes = filmstrips;
      soundtracks_bytes = soundtracks;
      outputs_bytes = outputs;
      total_bytes = originals + normalized + filmstrips + soundtracks + outputs;
    })
