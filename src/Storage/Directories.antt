-- ===== src/Storage/Directories.antt =====
-- The disk as the program leaves it: files at the places of its keys alone, of which none is a directory.
use video_journal_be.Prelude.{
  not, ◌≡◌, ◌≢◌, refl, sym, ap, ◌∙◌, true, false, Bool-cases, inl, inr, [], ◌∷◌, ◌++◌, All, arith,
  append_assoc, append-nil,
}
use video_journal_be.Errors.{Text, Bytes}
use video_journal_be.Uuid.Injective.{append-injective}
use video_journal_be.Storage.{
  FilePath, Files, path_eq, is_relative_to, is_inside, is_directory, write, unlink,
}
use video_journal_be.Storage.Files.{path_eq_iff}
use video_journal_be.Storage.Paths.{is_relative_to_sound}
use video_journal_be.Naming.Keys.{
  Asset, original, soundtrack, normalized, filmstrip, output, place, IsAsset,
}

-- No place lies below another one.
place_not_below : (a b : Asset) (name : Text) (rest : FilePath) → place a ++ name ∷ rest ≢ place b
place_not_below (original u x) (original v y) name rest e = ground arith
place_not_below (original u x) (normalized v) name rest e = ground arith
place_not_below (original u x) (filmstrip v) name rest e = ground arith
place_not_below (original u x) (soundtrack v y) name rest e = ground arith
place_not_below (original u x) (output v) name rest e = ground arith
place_not_below (normalized u) (original v y) name rest e = ground arith
place_not_below (normalized u) (normalized v) name rest e = ground arith
place_not_below (normalized u) (filmstrip v) name rest e = ground arith
place_not_below (normalized u) (soundtrack v y) name rest e = ground arith
place_not_below (normalized u) (output v) name rest e = ground arith
place_not_below (filmstrip u) (original v y) name rest e = ground arith
place_not_below (filmstrip u) (normalized v) name rest e = ground arith
place_not_below (filmstrip u) (filmstrip v) name rest e = ground arith
place_not_below (filmstrip u) (soundtrack v y) name rest e = ground arith
place_not_below (filmstrip u) (output v) name rest e = ground arith
place_not_below (soundtrack u x) (original v y) name rest e = ground arith
place_not_below (soundtrack u x) (normalized v) name rest e = ground arith
place_not_below (soundtrack u x) b name rest e = ground arith
place_not_below (output u) b name rest e = ground arith

module _ (base : FilePath) where
  abbrev pub at : Asset → FilePath
  at a = base ++ place a

  -- The disk holds nothing but what the program stores.
  abbrev pub IsOwn : FilePath × Bytes → Type 0
  IsOwn e = (a : Asset) × IsAsset a × (e.0 ≡ at a)

  abbrev pub IsStored : Files → Type 0
  IsStored = All IsOwn

  at_not_inside : (a b : Asset) → is_inside (at a) (at b) ≡ false
  unfolding is_inside
  at_not_inside a b = elim (Bool-cases (is_relative_to (at b) (at a))) [
    | inr outside ↦ rw outside refl
    | inl below ↦
        let (rest, split) = is_relative_to_sound (at b) (at a) below in
        let behind : place b ≡ place a ++ rest =
          (append-injective base base refl (split ∙ append_assoc base (place a) rest)).1 in
        rw below (go rest behind)
  ]
    where
      go : (rest : FilePath) → place b ≡ place a ++ rest → not (path_eq (at b) (at a)) ≡ false
      go [] e =
          let same : path_eq (at b) (at a) ≡ true =
            (path_eq_iff (at b) (at a)).1 (ap (λ p. base ++ p) (e ∙ append-nil (place a))) in
          rw same refl
      go (name ∷ rest) e = absurd (place_not_below a b name rest (sym e))

  pub is_directory-at :
      (a : Asset) (files : Files) → IsStored files → is_directory (at a) files ≡ false
  unfolding is_directory
  is_directory-at a [] h = refl
  is_directory-at a ((q, c) ∷ files) h =
      let (b, _, e) = h.0 in rw (e, at_not_inside a b, is_directory-at a files h.1) refl

  pub write-IsStored :
      (a : Asset) (c : Bytes) (files : Files)
      → IsAsset a
      → IsStored files
      → IsStored (write (at a) c files)
  unfolding write
  write-IsStored a c [] k h = ((a, k, refl), tt)
  write-IsStored a c ((q, d) ∷ files) k h = elim (Bool-cases (path_eq q (at a))) [
    | inl same ↦ rw same ((a, k, refl), h.1)
    | inr other ↦ rw other (h.0, write-IsStored a c files k h.1)
  ]

  pub unlink-IsStored : (p : FilePath) (files : Files) → IsStored files → IsStored (unlink p files)
  unfolding unlink
  unlink-IsStored p [] h = tt
  unlink-IsStored p ((q, d) ∷ files) h = elim (Bool-cases (path_eq q p)) [
    | inl same ↦ rw same (unlink-IsStored p files h.1)
    | inr other ↦ rw other (h.0, unlink-IsStored p files h.1)
  ]
