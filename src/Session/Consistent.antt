-- ===== src/Session/Consistent.antt =====
-- What holds of the rows in the tables, and of every action that keeps it so.
use video_journal_be.Prelude.{
  true, ℕ, ◌≡◌, ◌<◌, ◌≤◌, ◌^◌, length, ◌==◌, ◌⊎◌, inl, inr, false, Option, none, some, List, [],
  ◌∷◌, refl, ◌∙◌, subst, Bool-cases, All, arith,
}
use video_journal_be.Errors.{Text}
use video_journal_be.Models
use video_journal_be.Models.{
  ClipStatus, Clip, CompilationStatus, Compilation, Soundtrack, Item, Tables,
}
use video_journal_be.Text.{text_in}
use video_journal_be.Naming.{
  clip_extensions, soundtrack_extensions, build_original_key, build_normalized_key,
  build_filmstrip_key, build_soundtrack_key, build_output_key,
}
use video_journal_be.Session.{
  World, Change, put_clip, delete_clip, put_compilation, delete_compilation, put_compilation_clip,
  delete_compilation_clips, put_soundtrack, delete_soundtrack, put_item, delete_item, apply,
}
use video_journal_be.Session.Rows.{find, upsert, remove, find-upsert, find-remove}

-- A key that is missing or the one that the program builds.
abbrev pub IsKey : Option Text → Text → Type 0
IsKey stored key = (stored ≡ none) ⊎ (stored ≡ some key)

-- A clip is kept under keys made of its id and an allowed extension, and where it is ready it has a video.
pub record IsConsistentClip {F : Type 0} (c : Clip F) : Type 0 where
  pub bound : c.id < 2 ^ 128
  pub original :
      (ext : Text) × (text_in ext clip_extensions ≡ true)
      × (c.original_key ≡ build_original_key c.id ext)
  pub normalized : IsKey c.normalized_key (build_normalized_key c.id)
  pub filmstrip : IsKey c.filmstrip_key (build_filmstrip_key c.id)
  pub finished :
      (c.status ≡ Models.processing)
      ⊎ (c.status ≡ Models.failed)
      ⊎ (c.normalized_key ≡ some (build_normalized_key c.id))

pub record IsConsistentCompilation {F : Type 0} (c : Compilation F) : Type 0 where
  pub bound : c.id < 2 ^ 128
  pub output : IsKey c.output_key (build_output_key c.id)
  pub finished :
      (c.status ≡ Models.pending)
      ⊎ (c.status ≡ Models.running)
      ⊎ (c.status ≡ Models.failed)
      ⊎ (c.output_key ≡ some (build_output_key c.id))

pub record IsConsistentSoundtrack {F : Type 0} (s : Soundtrack F) : Type 0 where
  pub bound : s.id < 2 ^ 128
  pub stored :
      (ext : Text) × (text_in ext soundtrack_extensions ≡ true)
      × (s.key ≡ build_soundtrack_key s.id ext)

-- An item has a name of 1 to 200 characters.
abbrev pub IsConsistentItem : Item → Type 0
IsConsistentItem i = (1 ≤ length i.name) × (length i.name ≤ 200)

-- No two rows have the same primary key.
abbrev pub HasDistinctIds {ℓ} : {R : Type ℓ} → (R → ℕ) → List R → Type ℓ
HasDistinctIds id_of [] = Unit
HasDistinctIds id_of (r ∷ rs) = (find id_of (id_of r) rs ≡ none) × HasDistinctIds id_of rs

-- The rows of one table: each satisfies `P`, and the keys are distinct.
abbrev pub IsTable : {R : Type 0} → (R → ℕ) → (R → Type 0) → List R → Type 0
IsTable id_of P rs = All P rs × HasDistinctIds id_of rs

pub record IsConsistent {F : Type 0} (t : Tables F) : Type 0 where
  pub clips : IsTable (λ (c : Clip F). c.id) IsConsistentClip t.clips
  pub compilations : IsTable (λ (c : Compilation F). c.id) IsConsistentCompilation t.compilations
  pub soundtracks : IsTable (λ (s : Soundtrack F). s.id) IsConsistentSoundtrack t.soundtracks
  pub items : IsTable (λ (i : Item). i.id) IsConsistentItem t.items

module _ {R : Type 0} (id_of : R → ℕ) (P : R → Type 0) where
  All-upsert : (r : R) (rs : List R) → P r → All P rs → All P (upsert id_of r rs)
  unfolding upsert
  All-upsert r [] h k = (h, tt)
  All-upsert r (s ∷ rs) h k = elim (Bool-cases (id_of s == id_of r)) [
    | inl same ↦ rw same (h, k.1)
    | inr other ↦ rw other (k.0, All-upsert r rs h k.1)
  ]

  All-remove : (j : ℕ) (rs : List R) → All P rs → All P (remove id_of j rs)
  unfolding remove
  All-remove j [] k = tt
  All-remove j (s ∷ rs) k = elim (Bool-cases (id_of s == j)) [
    | inl same ↦ rw same (All-remove j rs k.1)
    | inr other ↦ rw other (k.0, All-remove j rs k.1)
  ]

  All-find : (j : ℕ) (rs : List R) {r : R} → All P rs → find id_of j rs ≡ some r → P r
  unfolding find
  All-find j [] k h = absurd (cc)
  All-find j (s ∷ rs) k h = elim (Bool-cases (id_of s == j)) [
    | inl same ↦ subst P (ground arith) k.0
    | inr other ↦ All-find j rs k.1 (ground arith)
  ]

module _ {R : Type 0} (id_of : R → ℕ) where
  upsert-HasDistinctIds :
      (r : R) (rs : List R) → HasDistinctIds id_of rs → HasDistinctIds id_of (upsert id_of r rs)
  unfolding upsert find
  upsert-HasDistinctIds r [] k = (refl, tt)
  upsert-HasDistinctIds r (s ∷ rs) k = elim (Bool-cases (id_of s == id_of r)) [
    | inl same ↦ rw same (subst (λ n. find id_of n rs ≡ none) (ground arith) k.0, k.1)
    | inr other ↦
        let flipped : id_of r == id_of s ≡ false = ground arith in
        rw other (find-upsert id_of (id_of s) r rs ∙ rw flipped k.0, upsert-HasDistinctIds r rs k.1)
  ]

  remove-HasDistinctIds :
      (j : ℕ) (rs : List R) → HasDistinctIds id_of rs → HasDistinctIds id_of (remove id_of j rs)
  unfolding remove
  remove-HasDistinctIds j [] k = tt
  remove-HasDistinctIds j (s ∷ rs) k = elim (Bool-cases (id_of s == j)) [
    | inl same ↦ rw same (remove-HasDistinctIds j rs k.1)
    | inr other ↦
        let flipped : j == id_of s ≡ false = ground arith in
        rw other (find-remove id_of (id_of s) j rs ∙ rw flipped k.0, remove-HasDistinctIds j rs k.1)
  ]

module _ {R : Type 0} (id_of : R → ℕ) (P : R → Type 0) where
  IsTable-upsert :
      (r : R) (rs : List R) → P r → IsTable id_of P rs → IsTable id_of P (upsert id_of r rs)
  IsTable-upsert r rs h k = (All-upsert id_of P r rs h k.0, upsert-HasDistinctIds id_of r rs k.1)

  IsTable-remove : (j : ℕ) (rs : List R) → IsTable id_of P rs → IsTable id_of P (remove id_of j rs)
  IsTable-remove j rs k = (All-remove id_of P j rs k.0, remove-HasDistinctIds id_of j rs k.1)

  pub IsTable-find :
      (j : ℕ) (rs : List R) {r : R} → IsTable id_of P rs → find id_of j rs ≡ some r → P r
  IsTable-find j rs k h = All-find id_of P j rs k.0 h

-- A statement that writes a consistent row, if any.
abbrev pub IsConsistentChange : {F : Type 0} → Change F → Type 0
IsConsistentChange (put_clip c) = IsConsistentClip c
IsConsistentChange (put_compilation c) = IsConsistentCompilation c
IsConsistentChange (put_soundtrack s) = IsConsistentSoundtrack s
IsConsistentChange (put_compilation_clip c) = Unit
IsConsistentChange (put_item i) = IsConsistentItem i
IsConsistentChange (delete_clip k) = Unit
IsConsistentChange (delete_compilation k) = Unit
IsConsistentChange (delete_compilation_clips k) = Unit
IsConsistentChange (delete_soundtrack k) = Unit
IsConsistentChange (delete_item k) = Unit

module _ {F : Type 0} where
  pub apply-IsConsistent :
      (c : Change F) (t : Tables F)
      → IsConsistentChange c
      → IsConsistent t
      → IsConsistent (apply c t)
  unfolding apply
  apply-IsConsistent (put_clip c) t h k = record {
    clips = IsTable-upsert _ IsConsistentClip c t.clips h k.clips;
    compilations = k.compilations;
    soundtracks = k.soundtracks;
    items = k.items;
  }
  apply-IsConsistent (put_compilation c) t h k = record {
    compilations = IsTable-upsert _ IsConsistentCompilation c t.compilations h k.compilations;
    clips = k.clips;
    soundtracks = k.soundtracks;
    items = k.items;
  }
  apply-IsConsistent (put_soundtrack s) t h k = record {
    soundtracks = IsTable-upsert _ IsConsistentSoundtrack s t.soundtracks h k.soundtracks;
    clips = k.clips;
    compilations = k.compilations;
    items = k.items;
  }
  apply-IsConsistent (put_item i) t h k = record {
    items = IsTable-upsert _ IsConsistentItem i t.items h k.items;
    clips = k.clips;
    compilations = k.compilations;
    soundtracks = k.soundtracks;
  }
  apply-IsConsistent (delete_clip j) t h k = record {
    clips = IsTable-remove _ IsConsistentClip j t.clips k.clips;
    compilations = k.compilations;
    soundtracks = k.soundtracks;
    items = k.items;
  }
  apply-IsConsistent (delete_compilation j) t h k = record {
    compilations = IsTable-remove _ IsConsistentCompilation j t.compilations k.compilations;
    clips = k.clips;
    soundtracks = k.soundtracks;
    items = k.items;
  }
  apply-IsConsistent (delete_soundtrack j) t h k = record {
    soundtracks = IsTable-remove _ IsConsistentSoundtrack j t.soundtracks k.soundtracks;
    clips = k.clips;
    compilations = k.compilations;
    items = k.items;
  }
  apply-IsConsistent (delete_item j) t h k = record {
    items = IsTable-remove _ IsConsistentItem j t.items k.items;
    clips = k.clips;
    compilations = k.compilations;
    soundtracks = k.soundtracks;
  }
  apply-IsConsistent (put_compilation_clip c) t h k = record {
    clips = k.clips;
    compilations = k.compilations;
    soundtracks = k.soundtracks;
    items = k.items;
  }
  apply-IsConsistent (delete_compilation_clips j) t h k = record {
    clips = k.clips;
    compilations = k.compilations;
    soundtracks = k.soundtracks;
    items = k.items;
  }

-- What is committed, and what the open transaction sees.
abbrev pub IsConsistentWorld : {F : Type 0} → World F → Type 0
IsConsistentWorld w = IsConsistent w.committed × IsConsistent w.working
