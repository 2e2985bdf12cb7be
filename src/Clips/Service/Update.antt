-- ===== src/Clips/Service/Update.antt =====
-- A PATCH of a clip: the trim window stays valid, and nothing else moves.
use video_journal_be.Prelude.{
  ◌⊎◌, ℕ, ◌≡◌, refl, true, false, Bool-cases, Option, none, some, Option-cases, inl, inr, arith,
}
use video_journal_be.Errors.{Error, ok, err, not_found, invalid_trim, unexpected}
use video_journal_be.Models.{Clip, Tables}
use video_journal_be.Session.{raise_when, M, World, Env, put_clip, apply}
use video_journal_be.Session.Rows.{find, upsert}
use video_journal_be.Session.Laws.{Outcome, flush_lem}
use video_journal_be.Clips.Service.{
  raise_when, M, or_option, or_else, validation_error, ClipUpdate, updated, trim_error,
  validate_trim, get_clip, add_clip, update_clip,
}

module _ {F : Type 0} (env : Env F) where
  -- What `_validate_trim` accepts: where both points are set, the first is not at or behind the second, and the
  -- second is not behind the end.
  abbrev pub IsTrimmed : Option F → Option F → Option F → Type 0
  IsTrimmed (some a) (some b) none = env.ops.floats.le b a ≡ false
  IsTrimmed (some a) (some b) (some d) =
      (env.ops.floats.le b a ≡ false) × (env.ops.floats.lt d b ≡ false)
  IsTrimmed (some a) none d = Unit
  IsTrimmed none b d = Unit

  abbrev pub HasTrim : Clip F → Type 0
  HasTrim c = IsTrimmed c.trim_in_s c.trim_out_s c.duration_s

  trim_error-IsTrimmed : (a b d : Option F) → trim_error env a b d ≡ false → IsTrimmed a b d
  unfolding trim_error
  trim_error-IsTrimmed (some a) (some b) none h = ground arith
  trim_error-IsTrimmed (some a) (some b) (some d) h = ground arith
  trim_error-IsTrimmed (some a) none d h = tt
  trim_error-IsTrimmed none b d h = tt

  abbrev pub row : ℕ → World F → Option (Clip F)
  row k w = find (λ (c : Clip F). c.id) k w.working.clips

  -- A field is set where it is given, and keeps what it was where it is not.
  abbrev pub IsGiven : {A : Type 0} → Option A → A → A → Type 0
  IsGiven none before after = after ≡ before
  IsGiven (some a) before after = after ≡ a

  abbrev pub IsPointGiven : Option F → Option F → Option F → Type 0
  IsPointGiven none before after = after ≡ before
  IsPointGiven (some a) before after = after ≡ some a

  -- The row after a PATCH: its three fields, and every other as it was.
  pub record IsPatched (u : ClipUpdate F) (old new : Clip F) : Type 0 where
    pub trim_in_s : IsPointGiven u.trim_in_s old.trim_in_s new.trim_in_s
    pub trim_out_s : IsPointGiven u.trim_out_s old.trim_out_s new.trim_out_s
    pub sort_index : IsGiven u.sort_index old.sort_index new.sort_index
    pub others : new ≡ record old {
      trim_in_s = new.trim_in_s;
      trim_out_s = new.trim_out_s;
      sort_index = new.sort_index;
    }

  IsPointGiven-or_option : (o before : Option F) → IsPointGiven o before (or_option o before)
  IsPointGiven-or_option none before = refl
  IsPointGiven-or_option (some a) before = refl

  IsGiven-or_else : {A : Type 0} (o : Option A) (before : A) → IsGiven o before (or_else o before)
  IsGiven-or_else none before = refl
  IsGiven-or_else (some a) before = refl

  updated-IsPatched : (u : ClipUpdate F) (old : Clip F) → IsPatched u old (updated env u old)
  unfolding updated
  updated-IsPatched u old = record {
    trim_in_s = IsPointGiven-or_option u.trim_in_s old.trim_in_s;
    trim_out_s = IsPointGiven-or_option u.trim_out_s old.trim_out_s;
    sort_index = IsGiven-or_else u.sort_index old.sort_index;
    others = refl;
  }

  -- A trim point that `Field(ge=0)` refuses.
  abbrev pub IsNegative : Option F → Type 0
  IsNegative none = ⊥
  IsNegative (some x) = env.ops.floats.le (env.ops.floats.of_ℕ 0) x ≡ false

  abbrev pub IsMalformed : ClipUpdate F → Type 0
  IsMalformed u = IsNegative u.trim_in_s ⊎ IsNegative u.trim_out_s

  -- Why a PATCH raises.
  pub data UpdateRefused (clip_id : ℕ) (u : ClipUpdate F) (w : World F) : Error → Type 0 where
    unknown : row clip_id w ≡ none → UpdateRefused clip_id u w not_found
    invalid :
        (old : Clip F)
        → row clip_id w ≡ some old
        → (new : Clip F) → IsPatched u old new
        → ¬ HasTrim new
        → UpdateRefused clip_id u w invalid_trim
    malformed : IsMalformed u → UpdateRefused clip_id u w validation_error
    refused : UpdateRefused clip_id u w unexpected

  trim_error-not_IsTrimmed : (a b d : Option F) → trim_error env a b d ≡ true → ¬ IsTrimmed a b d
  unfolding trim_error
  trim_error-not_IsTrimmed (some a) (some b) none h t = ground arith
  trim_error-not_IsTrimmed (some a) (some b) (some d) h t = ground arith
  trim_error-not_IsTrimmed (some a) none d h t = ground arith
  trim_error-not_IsTrimmed none b d h t = ground arith

  pub get_clip-some :
      (clip_id : ℕ) (w : World F) {c : Clip F}
      → row clip_id w ≡ some c
      → get_clip env clip_id w ≡ (ok c, w)
  unfolding get_clip
  get_clip-some clip_id w h = rw h

  pub get_clip-none :
      (clip_id : ℕ) (w : World F)
      → row clip_id w ≡ none
      → get_clip env clip_id w ≡ (err not_found, w)
  unfolding get_clip
  get_clip-none clip_id w h = rw h

  -- The tables with one clip written.
  abbrev pub with_clip : Clip F → Tables F → Tables F
  with_clip c t = record t { clips = upsert (λ (r : Clip F). r.id) c t.clips }

  abbrev Patched : ℕ → ClipUpdate F → World F → Clip F → World F → Type 0
  Patched clip_id u w clip w' =
      (old : Clip F) × (row clip_id w ≡ some old)
      × IsPatched u old clip
      × HasTrim clip
      × (w' ≡ record w { working = with_clip clip w.working })

  abbrev Unpatched : ℕ → ClipUpdate F → World F → Error → World F → Type 0
  Unpatched clip_id u w e w' =
      (w'.working ≡ w.working)
      × (w'.committed ≡ w.committed)
      × (w'.files ≡ w.files)
      × UpdateRefused clip_id u w e

  written :
      (clip_id : ℕ) (u : ClipUpdate F) (w : World F) (new old : Clip F)
      → row clip_id w ≡ some old
      → IsPatched u old new
      → HasTrim new
      → Outcome (Patched clip_id u w) (Unpatched clip_id u w) (add_clip env new w)
  unfolding add_clip apply
  written clip_id u w new old found e valid = elim (flush_lem env (put_clip new) w) [
    | inl done ↦ rw done (old, found, e, valid, refl)
    | inr no_write ↦ rw no_write (refl, refl, refl, refused)
  ]

  pub update_clip-Outcome :
      (clip_id : ℕ) (u : ClipUpdate F) (w : World F)
      → Outcome (Patched clip_id u w) (Unpatched clip_id u w) (update_clip env clip_id u w)
  unfolding update_clip validate_trim
  update_clip-Outcome clip_id u w = elim (Option-cases (row clip_id w)) [
    | inl missing ↦ rw (get_clip-none clip_id w missing) (refl, refl, refl, unknown missing)
    | inr (old, found) ↦
        let new : Clip F = updated env u old in
        rw (get_clip-some clip_id w found)
          (elim (Bool-cases (trim_error env new.trim_in_s new.trim_out_s new.duration_s)) [
            | inl bad ↦ rw bad (
              refl,
              refl,
              refl,
              invalid old found new (updated-IsPatched u old) (trim_error-not_IsTrimmed _ _ _ bad),
            )
            | inr good ↦ rw good (
                written clip_id u w new old found (updated-IsPatched u old)
                  (trim_error-IsTrimmed _ _ _ good))
          ])
  ]
