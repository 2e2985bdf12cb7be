-- ===== src/Storage/Files.antt =====
-- The disk as a finite map from paths to contents, and the storage operations as updates of it.
use mathlib.Core.List.{flatten}
use video_journal_be.Prelude.{
  append-nil, ℕ, List, ◌≡◌, refl, true, none, some, [], ◌∷◌, if◌then◌else◌, arith, ◌↔◌,
}
use video_journal_be.Errors.{Text, Bytes, Result, ok, err, unexpected}
use video_journal_be.Errors.Listed.{
  HasListed, HasListed-ok, HasListed-err, HasListed-if, HasListed-bind,
}
use video_journal_be.Text.Laws.{text_eq_iff}
use video_journal_be.Storage.{
  save, save_at, delete, delete_at, Stream, resolve, is_absolute, is_relative_to, walk, split_all,
  FilePath, Files, path_eq, read, write, unlink,
}

pub path_eq_iff : (p q : FilePath) → (path_eq p q ≡ true) ↔ (p ≡ q)
path_eq_iff [] [] = ground arith
path_eq_iff [] (y ∷ q) = ground arith
path_eq_iff (x ∷ p) [] = ground arith
path_eq_iff (x ∷ p) (y ∷ q) = ground (arith, text_eq_iff x y, path_eq_iff p q)

pub read-write :
    (p q : FilePath) (b : Bytes) (files : Files)
    → read q (write p b files) ≡ (if path_eq p q then some b else read q files)
unfolding read write
read-write p q b [] = refl
read-write p q b ((r, c) ∷ files) =
    ground (arith, read-write p q b files, path_eq_iff p q, path_eq_iff r q, path_eq_iff r p)

pub read-unlink :
    (p q : FilePath) (files : Files)
    → read q (unlink p files) ≡ (if path_eq p q then none else read q files)
unfolding read unlink
read-unlink p q [] = ground arith
read-unlink p q ((r, c) ∷ files) =
    ground (arith, read-unlink p q files, path_eq_iff p q, path_eq_iff r q, path_eq_iff r p)

pub path_eq_refl : (p : FilePath) → path_eq p p ≡ true
path_eq_refl p = (path_eq_iff p p).1 refl

pub read-write_self : (p : FilePath) (b : Bytes) (files : Files) → read p (write p b files) ≡ some b
read-write_self p b files = rw (read-write p p b files, path_eq_refl p)

pub read-unlink_self : (p : FilePath) (files : Files) → read p (unlink p files) ≡ none
read-unlink_self p files = rw (read-unlink p p files, path_eq_refl p)

-- A key is refused with ValueError alone.
pub resolve-HasListed :
    (statuses : List ℕ) (base : FilePath) (key : Text) → HasListed statuses (resolve base key)
unfolding resolve
resolve-HasListed statuses base key =
    HasListed-if (is_absolute key) (HasListed-err unexpected refl) (
      HasListed-if (is_relative_to (walk base (split_all b'/' key)) base) (HasListed-ok _)
        (HasListed-err unexpected refl))

pub save-HasListed :
    (statuses : List ℕ) (base : FilePath) (s : Stream) (key : Text) (files : Files)
    → HasListed statuses s.ending
    → HasListed statuses (save base s key files).0
unfolding save
save-HasListed statuses base s key files h =
    go (resolve base key) (resolve-HasListed statuses base key)
  where
    go : (r : Result FilePath) → HasListed statuses r → HasListed statuses (save_at r s key files).0
    go (ok path) k = unfold save_at in HasListed-bind h (λ _. HasListed-ok key)
    go (err e) k = unfold save_at in HasListed-err e k.told

pub delete-HasListed :
    (statuses : List ℕ) (base : FilePath) (key : Text) (files : Files)
    → HasListed statuses (delete base key files).0
unfolding delete
delete-HasListed statuses base key files =
    go (resolve base key) (resolve-HasListed statuses base key)
  where
    go : (r : Result FilePath) → HasListed statuses r → HasListed statuses (delete_at r files).0
    go (ok path) k = unfold delete_at in HasListed-ok tt
    go (err e) k = unfold delete_at in HasListed-err e k.told

-- A stream of one chunk.
pub flatten-one : (b : Bytes) → flatten (b ∷ []) ≡ b
unfolding flatten
flatten-one b = append-nil b
