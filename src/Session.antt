-- ===== src/Session.antt =====
-- The database session, the disk, and what the program calls outside (db/session.py,
-- common/repository.py and the flushes of the repositories): a method is an action on the `World`.
pub mod Rows
pub mod Laws
pub mod Consistent
pub mod Keeping
pub mod Refusing
use video_journal_be.Prelude.{
  ℕ, Bool, true, false, not, ◌||◌, Option, none, some, List, [], ◌∷◌, ◌++◌, ◌==◌, if◌then◌else◌,
}
use video_journal_be.Errors.{Text, Bytes, Error, Result, ok, err, unexpected}
use video_journal_be.Models.{Clip, Compilation, CompilationClip, Soundtrack, Item, Tables}
use video_journal_be.Float.{FloatOps}
use video_journal_be.Ffmpeg.{Process}
use video_journal_be.Progress.{Registry}
use video_journal_be.Ffprobe.{Json, ProbeOps}
use video_journal_be.Storage.{
  FilePath, Files, Stream, save, delete, path_or_url, read, write, unlink,
}
use video_journal_be.Session.Rows.{upsert, remove, reject}

-- One flushed statement.
pub data Change (F : Type 0) : Type 0 where
  put_clip : Clip F → Change F
  delete_clip : ℕ → Change F
  put_compilation : Compilation F → Change F
  delete_compilation : ℕ → Change F
  put_compilation_clip : CompilationClip F → Change F
  delete_compilation_clips : ℕ → Change F
  put_soundtrack : Soundtrack F → Change F
  delete_soundtrack : ℕ → Change F
  put_item : Item → Change F
  delete_item : ℕ → Change F

-- The tables as they are committed and as the open transaction sees them; `broken` is a session whose flush has
-- failed and that wants a rollback. `files` lie under the media root, `temps` in the temporary directory, and
-- `progress` is the registry of the running renders.
pub record World (F : Type 0) : Type 0 where
  pub committed : Tables F
  pub working : Tables F
  pub broken : Bool
  pub files : Files
  pub temps : Files
  pub progress : Registry

-- What is not in the repository. The database may refuse any statement or commit (a constraint, a
-- lock); ffprobe and ffmpeg are given what they read, and ffmpeg returns what it writes; a
-- render's ffmpeg is a process whose output is read line by line.
pub record Env (F : Type 0) : Type 0 where
  pub ops : ProbeOps F
  pub base : FilePath
  pub max_upload_bytes : ℕ
  pub refuses : Change F → Tables F → Bool
  pub refuses_commit : Tables F → Bool
  pub run_ffprobe : Option Bytes → Result (Option (Json F))
  pub mtime : FilePath → Option ℕ
  pub run_ffmpeg : List Text → Files → Files → Result Bytes
  pub run_process : List Text → Files → Files → Process

abbrev pub M : Type 0 → Type 0 → Type 0
M F A = World F → Result A × World F

module _ {F A : Type 0} where
  abbrev pub pure : A → M F A
  pure a w = (ok a, w)

  abbrev pub raise : Error → M F A
  raise e w = (err e, w)

  abbrev pub lift : Result A → M F A
  lift r w = (r, w)

  abbrev pub gets : (World F → A) → M F A
  gets f w = (ok (f w), w)

  -- `x` where it is not None, else raise.
  abbrev pub require : Option A → Error → M F A
  require none e = raise e
  require (some a) e = pure a

-- What follows a step, by how the step has ended.
abbrev pub continue : {F A B : Type 0} → (A → M F B) → Result A × World F → Result B × World F
continue f (ok a, w) = f a w
continue f (err e, w) = (err e, w)

infixl 5 ◌>>=◌ ◌>>◌
abbrev pub ◌>>=◌ : {F A B : Type 0} → M F A → (A → M F B) → M F B
◌>>=◌ m f w = continue f (m w)

abbrev pub ◌>>◌ : {F A B : Type 0} → M F A → M F B → M F B
m >> k = m >>= λ _. k

abbrev pub raise_when : {F : Type 0} → Bool → Error → M F (Unit {0})
raise_when b e w = (if b then err e else ok tt, w)

module _ {F : Type 0} where
  unfoldable pub apply : Change F → Tables F → Tables F
  apply (put_clip c) t = record t { clips = upsert (λ (r : Clip F). r.id) c t.clips }
  apply (delete_clip k) t = record t { clips = remove (λ (r : Clip F). r.id) k t.clips }
  apply (put_compilation c) t = record t {
    compilations = upsert (λ (r : Compilation F). r.id) c t.compilations;
  }
  apply (delete_compilation k) t = record t {
    compilations = remove (λ (r : Compilation F). r.id) k t.compilations;
  }
  apply (put_compilation_clip c) t = record t { compilation_clips = t.compilation_clips ++ c ∷ [] }
  apply (delete_compilation_clips k) t = record t {
    compilation_clips =
        reject (λ (r : CompilationClip F). r.compilation_id == k) t.compilation_clips;
  }
  apply (put_soundtrack s) t = record t {
    soundtracks = upsert (λ (r : Soundtrack F). r.id) s t.soundtracks;
  }
  apply (delete_soundtrack k) t = record t {
    soundtracks = remove (λ (r : Soundtrack F). r.id) k t.soundtracks;
  }
  apply (put_item i) t = record t { items = upsert (λ (r : Item). r.id) i t.items }
  apply (delete_item k) t = record t { items = remove (λ (r : Item). r.id) k t.items }

module _ {F : Type 0} where
  -- `NamedTemporaryFile(delete=False)` leaves an empty file, and `unlink` removes it.
  unfoldable pub open_temp : FilePath → M F (Unit {0})
  open_temp name w = (ok tt, record w { temps = write name [] w.temps })

  unfoldable pub unlink_temp : FilePath → World F → World F
  unlink_temp name w = record w { temps = unlink name w.temps }

  -- Reading a file in chunks of 1 MiB: the whole content, or FileNotFoundError.
  unfoldable pub file_stream : FilePath → M F Stream
  file_stream name w = (
    elim (read name w.temps) [
      | none ↦ err unexpected
      | some bytes ↦ ok (record { chunks = bytes ∷ []; ending = ok tt })
    ],
    w,
  )

module _ {F : Type 0} (env : Env F) where
  -- `session.flush()` with one change. A failure breaks the session.
  unfoldable pub flush : Change F → M F (Unit {0})
  unfolding apply
  flush c w =
      if w.broken || env.refuses c w.working
      then (err unexpected, record w { broken = true })
      else (ok tt, record w { working = apply c w.working })

  unfoldable pub commit : M F (Unit {0})
  commit w =
      if w.broken || env.refuses_commit w.working
      then (err unexpected, record w { broken = true })
      else (ok tt, record w { committed = w.working })

  unfoldable pub rollback : M F (Unit {0})
  rollback w = (ok tt, record w { working = w.committed; broken = false })

  commit_after : {A : Type 0} → Result A × World F → Result A × World F
  unfolding commit
  commit_after (ok a, w) = (commit >>= λ _. pure a) w
  commit_after (err e, w) = (err e, w)

  settle : {A : Type 0} → Result A × World F → Result A × World F
  unfolding rollback
  settle (ok a, w) = (ok a, w)
  settle (err e, w) = (rollback >>= λ _. raise e) w

  -- `get_session`: the handler runs on a fresh session, which commits on success and rolls back on an error,
  -- an error of the commit included.
  unfoldable pub request : {A : Type 0} → M F A → M F A
  unfolding commit_after settle
  request m w = settle (commit_after (m (record w { working = w.committed; broken = false })))

  -- The methods of LocalStorage on the files of the world.
  unfoldable pub save_file : Stream → Text → M F Text
  save_file stream key w =
      let (r, files') = save env.base stream key w.files in (r, record w { files = files' })

  unfoldable pub delete_file : Text → M F (Unit {0})
  delete_file key w =
      let (r, files') = delete env.base key w.files in (r, record w { files = files' })

  unfoldable pub path_of : Text → M F FilePath
  path_of key = lift (path_or_url env.base key)

  write_output : FilePath → Result Bytes → M F (Unit {0})
  write_output name (ok bytes) w = (ok tt, record w { temps = write name bytes w.temps })
  write_output name (err e) w = (err e, w)

  -- ffmpeg with its last argument a temporary file.
  pub run_ffmpeg_to : FilePath → List Text → M F (Unit {0})
  unfolding write_output
  run_ffmpeg_to name args w = write_output name (env.run_ffmpeg args w.files w.temps) w

module _ {F A : Type 0} where
  abbrev pub recover : (Error → M F A) → Result A × World F → Result A × World F
  recover handler (ok a, w) = (ok a, w)
  recover handler (err e, w) = handler e w

  -- `try: m  except Exception as e: handler(e)`
  abbrev pub try_except : M F A → (Error → M F A) → M F A
  try_except m handler w = recover handler (m w)

  -- `try: m  finally: clean up`
  abbrev pub try_finally : M F A → (World F → World F) → M F A
  try_finally m clean w = let (r, w') = m w in (r, clean w')
