-- ===== src/Migrations/Tests.antt =====
-- A database that keeps the statements in effect, the last one first, and the properties run on it.
use video_journal_be.Prelude.{
  ◌≡◌, refl, subst, sym, arith, Option, none, some, Bool, true, false, ◌&&◌, ◌||◌, Bool-cases, inl,
  inr, String, List, [], ◌∷◌, if◌then◌else◌,
}
use text.Mathlib.Text.{◌==◌ as str_eq}
use text.Mathlib.TextEquality.{eq_iff}
use text.Mathlib.TextPositions.{eq_refl}
use video_journal_be.Migrations.{
  Operation, create_table, drop_table, add_column, drop_column, create_index, drop_index, Column,
  ForeignKey, undo, Database, IsLawful, run, drops, run_migrations, along_links, heads, pending,
  chain_to,
}
use video_journal_be.Migrations.Versions.{
  versions, create_clips_table, add_compilations_mix_clip_audio,
}
use video_journal_be.Migrations.Undo.{downgrade-upgrade}
use video_journal_be.Migrations.Head.{creates, head_unreachable}

abbrev has_table : String → List Operation → Bool
has_table t [] = false
has_table t (o ∷ s) = creates t o || has_table t s

abbrev takes_back : Operation → Operation → Bool
takes_back (drop_table t) (create_table u cs fs ks) = str_eq t u
takes_back (drop_column t c) (add_column u d) = str_eq t u && str_eq c d.name
takes_back (drop_index t i) (create_index u j cs) = str_eq t u && str_eq i j
takes_back _ _ = false

abbrev take_back : Operation → List Operation → Option (List Operation)
take_back u [] = none
take_back u (o ∷ s) = if takes_back u o then some s else none

abbrev perform : Operation → List Operation → Option (List Operation)
perform (create_table t cs fs ks) s =
    if has_table t s then none else some (create_table t cs fs ks ∷ s)
perform (add_column t c) s = some (add_column t c ∷ s)
perform (create_index t i cs) s = some (create_index t i cs ∷ s)
perform (drop_table t) s = take_back (drop_table t) s
perform (drop_column t c) s = take_back (drop_column t c) s
perform (drop_index t i) s = take_back (drop_index t i) s

abbrev history : Database
history = record { Schema = List Operation; has_table = has_table; perform = perform }

perform-create :
    (t : String) (cs : List Column) (fs : List ForeignKey) (ks : List String)
    (s s' : List Operation)
    → perform (create_table t cs fs ks) s ≡ some s'
    → (has_table t s ≡ false) × (s' ≡ create_table t cs fs ks ∷ s)
perform-create t cs fs ks s s' h = elim (Bool-cases (has_table t s)) [
  | inl there ↦ absurd (ground arith)
  | inr new ↦ (new, ground arith)
]

take_back-some :
    (u : Operation) (s s' : List Operation)
    → take_back u s ≡ some s'
    → (o : Operation) × (takes_back u o ≡ true) × (s ≡ o ∷ s')
take_back-some u [] s' h = absurd (cc)
take_back-some u (o ∷ s) s' h = elim (Bool-cases (takes_back u o)) [
  | inl yes_it_does ↦ (o, yes_it_does, ground arith)
  | inr other ↦ absurd (ground arith)
]

takes_back-creates :
    (t : String) (u o : Operation) → drops t u ≡ false → takes_back u o ≡ true → creates t o ≡ false
takes_back-creates t (drop_table v) (create_table w cs fs ks) h e =
    subst (λ x. str_eq t x ≡ false) ((eq_iff v w).0 e) h
takes_back-creates t (create_table v ds gs js) (create_table w cs fs ks) h e = absurd (cc)
takes_back-creates t (add_column v c) (create_table w cs fs ks) h e = absurd (cc)
takes_back-creates t (drop_column v c) (create_table w cs fs ks) h e = absurd (cc)
takes_back-creates t (create_index v i ds) (create_table w cs fs ks) h e = absurd (cc)
takes_back-creates t (drop_index v i) (create_table w cs fs ks) h e = absurd (cc)
takes_back-creates t u (drop_table w) h e = refl
takes_back-creates t u (add_column w c) h e = refl
takes_back-creates t u (drop_column w c) h e = refl
takes_back-creates t u (create_index w i cs) h e = refl
takes_back-creates t u (drop_index w i) h e = refl

take_back_keeps :
    (t : String) (u : Operation) (s s' : List Operation)
    → drops t u ≡ false
    → take_back u s ≡ some s'
    → has_table t s ≡ true
    → has_table t s' ≡ true
take_back_keeps t u s s' h e there =
    let (o, taken, same) = take_back-some u s s' e in
    let top : has_table t (o ∷ s') ≡ true = subst (λ l. has_table t l ≡ true) same there in
    let other : creates t o ≡ false = takes_back-creates t u o h taken in ground arith

performs-keep :
    (t : String) (o : Operation) (s s' : List Operation)
    → drops t o ≡ false
    → perform o s ≡ some s'
    → has_table t s ≡ true
    → has_table t s' ≡ true
performs-keep t (create_table u cs fs ks) s s' h e there =
    subst (λ l. has_table t l ≡ true) (sym (perform-create u cs fs ks s s' e).1) (ground arith)
performs-keep t (add_column u c) s s' h e there =
    let made : s' ≡ add_column u c ∷ s = ground arith in
    subst (λ l. has_table t l ≡ true) (sym made) there
performs-keep t (create_index u i cs) s s' h e there =
    let made : s' ≡ create_index u i cs ∷ s = ground arith in
    subst (λ l. has_table t l ≡ true) (sym made) there
performs-keep t (drop_table u) s s' h e there = take_back_keeps t (drop_table u) s s' h e there
performs-keep t (drop_column u c) s s' h e there =
    take_back_keeps t (drop_column u c) s s' h e there
performs-keep t (drop_index u i) s s' h e there = take_back_keeps t (drop_index u i) s s' h e there

taken_back :
    (o u : Operation) (s : List Operation) → takes_back u o ≡ true → take_back u (o ∷ s) ≡ some s
taken_back o u s h = rw h refl

perform-undo :
    (o u : Operation) (s s' : List Operation)
    → undo o ≡ some u
    → perform o s ≡ some s'
    → perform u s' ≡ some s
perform-undo (create_table t cs fs ks) u s s' h e =
    let (new, made) = perform-create t cs fs ks s s' e in
    let drop : u ≡ drop_table t = ground arith in rw (drop, made, eq_refl t) refl
perform-undo (add_column t c) u s s' h e =
    let drop : u ≡ drop_column t c.name = ground arith in
    let made : s' ≡ add_column t c ∷ s = ground arith in
    rw (drop, made, eq_refl t, eq_refl c.name) refl
perform-undo (create_index t i cs) u s s' h e =
    let drop : u ≡ drop_index t i = ground arith in
    let made : s' ≡ create_index t i cs ∷ s = ground arith in
    rw (drop, made, eq_refl t, eq_refl i) refl
perform-undo (drop_table t) u s s' h e = absurd (cc)
perform-undo (drop_column t c) u s s' h e = absurd (cc)
perform-undo (drop_index t i) u s s' h e = absurd (cc)

history-IsLawful : IsLawful history
history-IsLawful = record {
  create-exists = λ t cs fs ks s h. rw h refl;
  create-adds = λ t cs fs ks s s' h. rw ((perform-create t cs fs ks s s' h).1, eq_refl t) refl;
  perform_keeps = performs-keep;
  perform-undo = perform-undo;
}

heads_lem : heads versions ≡ "730bc015c129" ∷ []
heads_lem = refl

latest_lem :
    pending (some "46946a54cc08") (chain_to 8 versions "730bc015c129")
    ≡ add_compilations_mix_clip_audio ∷ []
latest_lem = refl

-- A database that stands at the last revision is left as it is.
at_head_lem : run_migrations history along_links versions (some "730bc015c129") [] ≡ some []
at_head_lem = refl

downgrade-upgrade_example :
    run history create_clips_table.downgrade create_clips_table.upgrade ≡ some []
downgrade-upgrade_example =
    downgrade-upgrade history history-IsLawful "b72d1bfd6187" create_clips_table []
      create_clips_table.upgrade refl refl

head_unreachable_example : run_migrations history along_links versions none [] ≡ none
head_unreachable_example =
    head_unreachable history history-IsLawful along_links (λ ms current. refl) []
