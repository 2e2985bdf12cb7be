-- ===== src/Usage/Counting.antt =====
-- Each stored file is counted in the category of its kind.
use video_journal_be.Prelude.{
  ℕ, ◌+◌, ◌≡◌, refl, ap, ◌∙◌, true, false, none, [], ◌∷◌, ◌++◌, length, if◌then◌else◌, arith,
  Bool-cases, inl, inr,
}
use video_journal_be.Errors.{Text, Bytes, ok}
use video_journal_be.Text.{codes}
use video_journal_be.Text.Laws.{text_eq_refl}
use video_journal_be.Storage.{FilePath, Files, resolve, read, write, path_eq, is_relative_to}
use video_journal_be.Storage.Paths.{resolve-join}
use video_journal_be.Naming.Keys.{Asset, original, soundtrack, normalized, filmstrip, output, place}
use video_journal_be.Session.{World, Env}
use video_journal_be.Session.Laws.{path_of_lem}
use video_journal_be.Usage.{StorageUsage, is_below, dir_size, size_for_prefix, compute_usage}

-- The directories of the kinds, below the base.
abbrev originals : FilePath
originals = codes "clips" ∷ codes "original" ∷ []

abbrev normalizeds : FilePath
normalizeds = codes "clips" ∷ codes "normalized" ∷ []

abbrev filmstrips : FilePath
filmstrips = codes "clips" ∷ codes "filmstrip" ∷ []

abbrev soundtracks : FilePath
soundtracks = codes "soundtracks" ∷ []

abbrev outputs : FilePath
outputs = codes "outputs" ∷ []

abbrev figures : ℕ → ℕ → ℕ → ℕ → ℕ → StorageUsage
figures o n f s p = record {
  originals_bytes = o;
  normalized_bytes = n;
  filmstrips_bytes = f;
  soundtracks_bytes = s;
  outputs_bytes = p;
  total_bytes = o + n + f + s + p;
}

-- What `compute_usage` finds.
abbrev pub usage_of : FilePath → Files → StorageUsage
usage_of base files =
    figures (dir_size (base ++ originals) files) (dir_size (base ++ normalizeds) files)
      (dir_size (base ++ filmstrips) files) (dir_size (base ++ soundtracks) files)
      (dir_size (base ++ outputs) files)

-- The usage with `n` bytes more in the category of an asset.
abbrev pub counted : Asset → ℕ → StorageUsage → StorageUsage
counted (original u ext) n s = record s {
  originals_bytes = s.originals_bytes + n;
  total_bytes = s.total_bytes + n;
}
counted (normalized u) n s = record s {
  normalized_bytes = s.normalized_bytes + n;
  total_bytes = s.total_bytes + n;
}
counted (filmstrip u) n s = record s {
  filmstrips_bytes = s.filmstrips_bytes + n;
  total_bytes = s.total_bytes + n;
}
counted (soundtrack u ext) n s = record s {
  soundtracks_bytes = s.soundtracks_bytes + n;
  total_bytes = s.total_bytes + n;
}
counted (output u) n s = record s {
  outputs_bytes = s.outputs_bytes + n;
  total_bytes = s.total_bytes + n;
}

dir_size-write :
    (d p : FilePath) (b : Bytes) (files : Files)
    → read p files ≡ none
    → dir_size d (write p b files) ≡ dir_size d files + (if is_below d p then length b else 0)
unfolding dir_size write read
dir_size-write d p b [] h = omega arith
dir_size-write d p b ((q, c) ∷ files) h = elim (Bool-cases (path_eq q p)) [
  | inl same ↦ absurd (ground arith)
  | inr other ↦ rw other (omega (arith, dir_size-write d p b files (ground arith)))
]

is_below-append : (base x y : FilePath) → is_below (base ++ x) (base ++ y) ≡ is_below x y
unfolding is_below is_relative_to
is_below-append [] x y = refl
is_below-append (b ∷ base) x y = rw (text_eq_refl b) (is_below-append base x y)

module _ (base x : FilePath) (b : Bytes) (files : Files) (new : read (base ++ x) files ≡ none) where
  -- A directory that the new file lies in, and one that it does not lie in.
  grown :
      (d : FilePath)
      → is_below d x ≡ true
      → dir_size (base ++ d) (write (base ++ x) b files) ≡ dir_size (base ++ d) files + length b
  grown d h =
      dir_size-write (base ++ d) (base ++ x) b files new ∙ rw (is_below-append base d x, h) refl

  kept :
      (d : FilePath)
      → is_below d x ≡ false
      → dir_size (base ++ d) (write (base ++ x) b files) ≡ dir_size (base ++ d) files
  kept d h =
      dir_size-write (base ++ d) (base ++ x) b files new
      ∙ rw (is_below-append base d x, h) (omega arith)

retotal : (s : StorageUsage) (n : ℕ) → s.total_bytes ≡ n → s ≡ record s { total_bytes = n }
retotal s n e = ap (λ k. record s { total_bytes = k }) e

usage_of-write :
    (base : FilePath) (a : Asset) (b : Bytes) (files : Files)
    → read (base ++ place a) files ≡ none
    → usage_of base (write (base ++ place a) b files) ≡ counted a (length b) (usage_of base files)
unfolding is_below is_relative_to
usage_of-write base (original u ext) b files h =
    let x : FilePath = place (original u ext) in
    rw
      (
        grown base x b files h originals refl,
        kept base x b files h normalizeds refl,
        kept base x b files h filmstrips refl,
        kept base x b files h soundtracks refl,
        kept base x b files h outputs refl,
      )
      (retotal _ _ (omega arith))
usage_of-write base (normalized u) b files h =
    let x : FilePath = place (normalized u) in
    rw
      (
        kept base x b files h originals refl,
        grown base x b files h normalizeds refl,
        kept base x b files h filmstrips refl,
        kept base x b files h soundtracks refl,
        kept base x b files h outputs refl,
      )
      (retotal _ _ (omega arith))
usage_of-write base (filmstrip u) b files h =
    let x : FilePath = place (filmstrip u) in
    rw
      (
        kept base x b files h originals refl,
        kept base x b files h normalizeds refl,
        grown base x b files h filmstrips refl,
        kept base x b files h soundtracks refl,
        kept base x b files h outputs refl,
      )
      (retotal _ _ (omega arith))
usage_of-write base (soundtrack u ext) b files h =
    let x : FilePath = place (soundtrack u ext) in
    rw
      (
        kept base x b files h originals refl,
        kept base x b files h normalizeds refl,
        kept base x b files h filmstrips refl,
        grown base x b files h soundtracks refl,
        kept base x b files h outputs refl,
      )
      (retotal _ _ (omega arith))
usage_of-write base (output u) b files h =
    let x : FilePath = place (output u) in
    rw
      (
        kept base x b files h originals refl,
        kept base x b files h normalizeds refl,
        kept base x b files h filmstrips refl,
        kept base x b files h soundtracks refl,
        grown base x b files h outputs refl,
      )
      (retotal _ _ (omega arith))

module _ {F : Type 0} (env : Env F) where
  size_lem :
      (prefix : Text) (p : FilePath) (w : World F)
      → resolve env.base prefix ≡ ok p
      → size_for_prefix env prefix w ≡ (ok (dir_size p w.files), w)
  unfolding size_for_prefix
  size_lem prefix p w h = rw (path_of_lem env prefix p w h) refl

  pub compute_usage_lem : (w : World F) → compute_usage env w ≡ (ok (usage_of env.base w.files), w)
  unfolding compute_usage
  compute_usage_lem w =
      rw
        (
          size_lem (codes "clips/original") (env.base ++ originals) w (
              resolve-join env.base (codes "clips") (codes "original" ∷ []) (ground arith)
                (ground arith)),
          size_lem (codes "clips/normalized") (env.base ++ normalizeds) w (
              resolve-join env.base (codes "clips") (codes "normalized" ∷ []) (ground arith)
                (ground arith)),
          size_lem (codes "clips/filmstrip") (env.base ++ filmstrips) w (
              resolve-join env.base (codes "clips") (codes "filmstrip" ∷ []) (ground arith)
                (ground arith)),
          size_lem (codes "soundtracks") (env.base ++ soundtracks) w
              (resolve-join env.base (codes "soundtracks") [] (ground arith) (ground arith)),
          size_lem (codes "outputs") (env.base ++ outputs) w
              (resolve-join env.base (codes "outputs") [] (ground arith) (ground arith)),
        )
        refl

  -- Storing a new file under a key that the program builds raises the usage of its kind and the total by the size of the file, and
  -- no other figure. There was no file at its place.
  pub compute_usage-write :
      (a : Asset) (b : Bytes) (w : World F)
      → read (env.base ++ place a) w.files ≡ none
      → compute_usage env (record w { files = write (env.base ++ place a) b w.files }) ≡ (
        ok (counted a (length b) (usage_of env.base w.files)),
        record w { files = write (env.base ++ place a) b w.files },
      )
  compute_usage-write a b w h =
      let w' : World F = record w { files = write (env.base ++ place a) b w.files } in
      compute_usage_lem w' ∙ ap (λ s. (ok s, w')) (usage_of-write env.base a b w.files h)
