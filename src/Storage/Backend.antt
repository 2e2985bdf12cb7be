-- ===== src/Storage/Backend.antt =====
-- src/app/storage/base.py: the interface that the services use, with what its docstrings promise, and LocalStorage as
-- an implementation.
use mathlib.Core.List.{flatten}
use video_journal_be.Prelude.{
  ◌||◌, ◌++◌, ◌≡◌, ◌≢◌, refl, ap, ◌∙◌, sym, Bool, true, false, Bool-cases, inl, inr, Option, none,
  some, [], ◌∷◌,
}
use video_journal_be.Naming.Keys.{Asset, IsAsset, asset_key, place, resolve-asset, asset_keys_apart}
use video_journal_be.Storage.Directories.{
  IsStored, is_directory-at, write-IsStored, unlink-IsStored,
}
use video_journal_be.Errors
use video_journal_be.Errors.{Text, Bytes, Error, Result, Result-cases, ok, err}
use video_journal_be.Storage.{
  is_directory, is_file, FilePath, Files, Stream, resolve, save, save_at, delete, delete_at,
  open_file, exists, read, write, unlink, path_eq,
}
use video_journal_be.Storage.Files.{
  read-write, read-unlink, read-write_self, read-unlink_self, path_eq_iff,
}

-- `StorageBackend`, without `path_or_url`, which looks at no content.
pub record StorageBackend : Type 1 where
  pub State : Type 0
  pub save : Stream → Text → State → Result Text × State
  pub open_file : Text → State → Result Bytes
  pub delete : Text → State → Result (Unit {0}) × State
  pub exists : Text → State → Result Bool

abbrev is_ok : {A : Type 0} → Result A → Bool
is_ok (ok a) = true
is_ok (err e) = false

abbrev found_or_raise : Option Bytes → Result Bytes
found_or_raise none = err Errors.unexpected
found_or_raise (some b) = ok b

-- What a client may rely on, for the keys that it builds and the states that its own calls lead to.
pub record IsLawful (B : StorageBackend) (IsKey : Text → Type 0) (IsOwnState : B.State → Type 0)
    : Type 0 where
  -- The calls lead from such states to such states.
  pub save-IsOwnState :
      (s : Stream) (k : Text) (t : B.State) → IsKey k → IsOwnState t → IsOwnState (B.save s k t).1
  pub delete-IsOwnState :
      (k : Text) (t : B.State) → IsKey k → IsOwnState t → IsOwnState (B.delete k t).1
  -- `save` returns the key, or ends as the stream does; the key then holds what the stream gave.
  pub save_returns :
      (s : Stream) (k : Text) (t : B.State)
      → IsKey k
      → (B.save s k t).0 ≡ Errors.◌>>◌ s.ending (ok k)
  pub open-save :
      (s : Stream) (k : Text) (t : B.State)
      → IsKey k
      → B.open_file k (B.save s k t).1 ≡ ok (flatten s.chunks)
  pub open-save_apart :
      (s : Stream) (j k : Text) (t : B.State)
      → IsKey j
      → IsKey k
      → j ≢ k
      → B.open_file j (B.save s k t).1 ≡ B.open_file j t
  -- `delete` is idempotent and no error where there is no file.
  pub delete_returns : (k : Text) (t : B.State) → IsKey k → (B.delete k t).0 ≡ ok tt
  pub exists-delete :
      (k : Text) (t : B.State) → IsKey k → IsOwnState t → B.exists k (B.delete k t).1 ≡ ok false
  pub open-delete_apart :
      (j k : Text) (t : B.State)
      → IsKey j
      → IsKey k
      → j ≢ k
      → B.open_file j (B.delete k t).1 ≡ B.open_file j t
  pub delete-delete :
      (k : Text) (t : B.State) → IsKey k → (B.delete k (B.delete k t).1).1 ≡ (B.delete k t).1
  -- `exists` tells whether `open` finds a file.
  pub exists-open :
      (k : Text) (t : B.State)
      → IsKey k
      → IsOwnState t
      → B.exists k t ≡ ok (is_ok (B.open_file k t))

abbrev pub local_storage : FilePath → StorageBackend
local_storage base = record {
  State = Files;
  save = save base;
  open_file = open_file base;
  delete = delete base;
  exists = exists base;
}

-- The keys that the program builds.
abbrev pub IsBuiltKey : Text → Type 0
IsBuiltKey k = (a : Asset) × IsAsset a × (k ≡ asset_key a)

unlink-unlink : (p : FilePath) (files : Files) → unlink p (unlink p files) ≡ unlink p files
unfolding unlink
unlink-unlink p [] = refl
unlink-unlink p ((q, c) ∷ files) = elim (Bool-cases (path_eq q p)) [
  | inl same ↦ rw same (unlink-unlink p files)
  | inr other ↦ rw (other, other) (ap (λ l. (q, c) ∷ l) (unlink-unlink p files))
]

module _ (base : FilePath) where
  -- The places of keys that are apart.
  apart_paths :
      (j k : Text) (p q : FilePath)
      → resolve base j ≡ ok q
      → resolve base k ≡ ok p
      → resolve base j ≢ resolve base k
      → path_eq p q ≡ false
  apart_paths j k p q at_j at_k apart = elim (Bool-cases (path_eq p q)) [
    | inr other ↦ other
    | inl same ↦ absurd (apart (at_j ∙ sym (ap ok ((path_eq_iff p q).0 same)) ∙ sym at_k))
  ]

  saved :
      (s : Stream) (k : Text) (p : FilePath) (t : Files)
      → resolve base k ≡ ok p
      → save base s k t ≡ (Errors.◌>>◌ s.ending (ok k), write p (flatten s.chunks) t)
  unfolding save save_at
  saved s k p t e = rw e refl

  deleted :
      (k : Text) (p : FilePath) (t : Files)
      → resolve base k ≡ ok p
      → delete base k t ≡ (ok tt, unlink p t)
  unfolding delete delete_at
  deleted k p t e = rw e refl

  opened :
      (k : Text) (p : FilePath) (t : Files)
      → resolve base k ≡ ok p
      → open_file base k t ≡ found_or_raise (read p t)
  unfolding open_file
  opened k p t e = rw e (go (read p t))
    where
      go :
          (o : Option Bytes)
          → elim o [ none ↦ err Errors.unexpected | some b ↦ ok b ] ≡ found_or_raise o
      go none = refl
      go (some b) = refl

  existing :
      (k : Text) (p : FilePath) (t : Files)
      → resolve base k ≡ ok p
      → is_directory p t ≡ false
      → exists base k t ≡ ok (is_ok (found_or_raise (read p t)))
  unfolding exists is_file
  existing k p t e no_directory = rw (e, no_directory) (go (read p t))
    where
      go :
          (o : Option Bytes)
          → ok (elim o [ none ↦ false | some b ↦ true ] || false) ≡ ok (is_ok (found_or_raise o))
      go none = refl
      go (some b) = refl

  -- Where a built key lies.
  at_place : (k : Text) (h : IsBuiltKey k) → resolve base k ≡ ok (base ++ place h.0)
  at_place k (a, asset, e) = ap (resolve base) e ∙ resolve-asset base a asset

  -- Two built keys that differ lead to different places.
  keys_apart : (j k : Text) → IsBuiltKey j → IsBuiltKey k → j ≢ k → resolve base j ≢ resolve base k
  keys_apart j k (a, x, e) (b, y, f) differ same = differ (
      e
      ∙ ap asset_key
          (asset_keys_apart base a b x y (ap (resolve base) (sym e) ∙ same ∙ ap (resolve base) f))
      ∙ sym f)

  open_file_same :
      (j : Text) (t t' : Files)
      → ((q : FilePath) → resolve base j ≡ ok q → read q t' ≡ read q t)
      → open_file base j t' ≡ open_file base j t
  open_file_same j t t' h = elim (Result-cases (resolve base j)) [
    | inl (q, e) ↦ opened j q t' e ∙ ap found_or_raise (h q e) ∙ sym (opened j q t e)
    | inr (x, e) ↦ refused t' e ∙ sym (refused t e)
  ]
    where
      refused : {x : Error} (u : Files) → resolve base j ≡ err x → open_file base j u ≡ err x
      refused u e = unfold open_file in rw e refl

-- LocalStorage keeps the promises of StorageBackend, for the keys that the program builds and a media root that holds
-- nothing but files under such keys: what is saved is read back, whole or as far as the stream came; what is
-- deleted is gone, without an error where it was gone before; no other key is touched; `exists` is true where
-- `open` finds a file, and there alone, since no such key names a directory; and the media root stays such.
pub local_storage-IsLawful :
    (base : FilePath) → IsLawful (local_storage base) IsBuiltKey (IsStored base)
local_storage-IsLawful base = record {
  save-IsOwnState = λ s k t h own.
      rw (saved base s k (base ++ place h.0) t (at_place base k h))
        (write-IsStored base h.0 (flatten s.chunks) t h.1 own);
  delete-IsOwnState = λ k t h own.
      rw (deleted base k (base ++ place h.0) t (at_place base k h))
        (unlink-IsStored base (base ++ place h.0) t own);
  save_returns = λ s k t h. rw (saved base s k (base ++ place h.0) t (at_place base k h)) refl;
  open-save = λ s k t h. rw (saved base s k (base ++ place h.0) t (at_place base k h)) (
      opened base k (base ++ place h.0) (write (base ++ place h.0) (flatten s.chunks) t)
        (at_place base k h)
      ∙ ap found_or_raise (read-write_self (base ++ place h.0) (flatten s.chunks) t));
  open-save_apart = λ s j k t i h differ.
      let p : FilePath = base ++ place h.0 in
      rw (saved base s k p t (at_place base k h)) (
        open_file_same base j t (write p (flatten s.chunks) t) (λ q f.
          read-write p q (flatten s.chunks) t
          ∙ rw (apart_paths base j k p q f (at_place base k h) (keys_apart base j k i h differ))
              refl));
  delete_returns = λ k t h. rw (deleted base k (base ++ place h.0) t (at_place base k h)) refl;
  exists-delete = λ k t h own.
      let p : FilePath = base ++ place h.0 in
      rw (deleted base k p t (at_place base k h)) (
        existing base k p (unlink p t) (at_place base k h)
          (is_directory-at base h.0 (unlink p t) (unlink-IsStored base p t own))
        ∙ ap (λ o. ok (is_ok (found_or_raise o))) (read-unlink_self p t));
  open-delete_apart = λ j k t i h differ.
      let p : FilePath = base ++ place h.0 in
      rw (deleted base k p t (at_place base k h)) (
        open_file_same base j t (unlink p t) (λ q f.
          read-unlink p q t
          ∙ rw (apart_paths base j k p q f (at_place base k h) (keys_apart base j k i h differ))
              refl));
  delete-delete = λ k t h.
      let p : FilePath = base ++ place h.0 in
      rw (deleted base k p t (at_place base k h))
        (rw (deleted base k p (unlink p t) (at_place base k h)) (unlink-unlink p t));
  exists-open = λ k t h own.
      let p : FilePath = base ++ place h.0 in
      rw
        (
          existing base k p t (at_place base k h) (is_directory-at base h.0 t own),
          opened base k p t (at_place base k h),
        )
        refl;
}
