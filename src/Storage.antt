-- ===== src/Storage.antt =====
-- src/app/storage/local.py: files under a base directory, addressed by relative keys. A path is the list
-- of its components below the root; the file system has no symbolic links.
pub mod Paths
pub mod Files
pub mod Backend
pub mod Directories
mod Tests
use mathlib.Core.List.{flatten}
use video_journal_be.Prelude.{
  not, ℕ, ◌≡◌, Bool, true, false, ◌&&◌, ◌||◌, Option, none, some, List, [], ◌∷◌, ◌++◌, ◌==◌,
  if◌then◌else◌,
}
use video_journal_be.Errors.{Text, Bytes, Error, Result, ok, err, unexpected, ◌>>=◌, ◌>>◌}
use video_journal_be.Text.{codes, text_eq}

abbrev pub FilePath : Type 0
FilePath = List Text

abbrev pub path_eq : FilePath → FilePath → Bool
path_eq [] [] = true
path_eq [] (q ∷ qs) = false
path_eq (p ∷ ps) [] = false
path_eq (p ∷ ps) (q ∷ qs) = text_eq p q && path_eq ps qs

-- The contents of the disk: the regular files. The operations are those of a disk on which no file stands where a
-- directory is wanted, nor a directory where a file is, as it is where the program alone writes (see
-- `Directories`); on another disk `save` and `delete` may raise.
abbrev pub Files : Type 0
Files = List (FilePath × Bytes)

unfoldable pub read : FilePath → Files → Option Bytes
read p [] = none
read p ((q, b) ∷ fs) = if path_eq q p then some b else read p fs

unfoldable pub write : FilePath → Bytes → Files → Files
write p b [] = (p, b) ∷ []
write p b ((q, c) ∷ fs) = if path_eq q p then (p, b) ∷ fs else (q, c) ∷ write p b fs

-- `unlink(missing_ok=True)`
unfoldable pub unlink : FilePath → Files → Files
unlink p [] = []
unlink p ((q, c) ∷ fs) = let rest = unlink p fs in if path_eq q p then rest else (q, c) ∷ rest

unfoldable pub cons_head : ℕ → List Text → List Text
cons_head c [] = (c ∷ []) ∷ []
cons_head c (t ∷ ts) = (c ∷ t) ∷ ts

-- `key.split("/")`
unfoldable pub split_all : ℕ → Text → List Text
unfolding cons_head
split_all sep [] = [] ∷ []
split_all sep (c ∷ s) =
    let rest = split_all sep s in if c == sep then [] ∷ rest else cons_head c rest

drop_last {ℓ} : {A : Type ℓ} → List A → List A
drop_last [] = []
drop_last (x ∷ []) = []
drop_last (x ∷ y ∷ l) = x ∷ drop_last (y ∷ l)

-- One component of a key, from a resolved path.
unfoldable pub enter : FilePath → Text → FilePath
unfolding drop_last
enter path name =
    if text_eq name [] || text_eq name (codes ".")
    then path
    else if text_eq name (codes "..")
    then drop_last path
    else path ++ name ∷ []

-- `(path / key).resolve()`, component by component.
unfoldable pub walk : FilePath → List Text → FilePath
walk path [] = path
walk path (name ∷ names) = walk (enter path name) names

-- `path.is_relative_to(base)`
unfoldable pub is_relative_to : FilePath → FilePath → Bool
is_relative_to path [] = true
is_relative_to [] (b ∷ base) = false
is_relative_to (p ∷ path) (b ∷ base) = text_eq p b && is_relative_to path base

unfoldable pub is_absolute : Text → Bool
is_absolute [] = false
is_absolute (c ∷ key) = c == b'/'

-- `_resolve`; `unexpected` is its ValueError.
unfoldable pub resolve : FilePath → Text → Result FilePath
unfolding walk is_relative_to is_absolute split_all enter
resolve base key =
    if is_absolute key
    then err unexpected
    else if is_relative_to (walk base (split_all b'/' key)) base
    then ok (walk base (split_all b'/' key))
    else err unexpected

-- An asynchronous stream of chunks: what it yields, and how it ends.
pub record Stream : Type 0 where
  pub chunks : List Bytes
  pub ending : Result (Unit {0})

-- Opening for "wb" truncates; each chunk is written as it comes, so what came before an error stays.
save_at : Result FilePath → Stream → Text → Files → Result Text × Files
save_at (ok path) s key files = (s.ending >> ok key, write path (flatten s.chunks) files)
save_at (err e) s key files = (err e, files)

unfoldable pub save : FilePath → Stream → Text → Files → Result Text × Files
unfolding save_at
save base stream key files = save_at (resolve base key) stream key files

delete_at : Result FilePath → Files → Result (Unit {0}) × Files
delete_at (ok path) files = (ok tt, unlink path files)
delete_at (err e) files = (err e, files)

unfoldable pub delete : FilePath → Text → Files → Result (Unit {0}) × Files
unfolding delete_at
delete base key files = delete_at (resolve base key) files

unfoldable pub path_or_url : FilePath → Text → Result FilePath
path_or_url base key = resolve base key

-- `open` raises FileNotFoundError where there is no file.
unfoldable pub open_file : FilePath → Text → Files → Result Bytes
open_file base key files = do
  path ← resolve base key
  elim (read path files) [ none ↦ err unexpected | some b ↦ ok b ]

-- Whether a path lies below another one.
unfoldable pub is_inside : FilePath → FilePath → Bool
unfolding is_relative_to
is_inside directory path = is_relative_to path directory && not (path_eq path directory)

-- The directories are those on the way to a file.
unfoldable pub is_directory : FilePath → Files → Bool
unfolding is_inside
is_directory path [] = false
is_directory path ((q, b) ∷ files) = is_inside path q || is_directory path files

unfoldable pub is_file : FilePath → Files → Bool
unfolding read
is_file path files = elim (read path files) [ none ↦ false | some b ↦ true ]

-- `path.exists()`, of a file or a directory
unfoldable pub exists : FilePath → Text → Files → Result Bool
unfolding is_file is_directory
exists base key files = do
  path ← resolve base key
  ok (is_file path files || is_directory path files)
