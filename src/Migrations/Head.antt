-- ===== src/Migrations/Head.antt =====
-- `upgrade head` over the chain of migrations as a whole.
use video_journal_be.Prelude.{arith}
use video_journal_be.Prelude.{
  ◌≡◌, refl, subst, Option, none, Option-cases, Bool-cases, inl, inr, Bool, true, false, ◌||◌,
  String, List, [], ◌∷◌, if◌then◌else◌,
}
use text.Mathlib.Text.{◌==◌ as str_eq}
use text.Mathlib.TextEquality.{eq_iff}
use video_journal_be.Migrations.{
  Migration, Operation, create_table, drop_table, add_column, drop_column, create_index, drop_index,
  Database, IsLawful, run, drops, upgrades, pending, chain_to, run_migrations, along_links,
}
use video_journal_be.Migrations.Versions.{versions}

abbrev pub creates : String → Operation → Bool
creates t (create_table u cs fs ks) = str_eq t u
creates t _ = false

-- The script creates the table, and does not drop it before.
abbrev creates_again : String → List Operation → Bool
creates_again t [] = false
creates_again t (o ∷ os) =
    if creates t o then true else if drops t o then false else creates_again t os

-- The script creates some table, and creates it again without having dropped it.
abbrev creates_twice : List Operation → Bool
creates_twice [] = false
creates_twice (create_table t cs fs ks ∷ os) = creates_again t os || creates_twice os
creates_twice (_ ∷ os) = creates_twice os

module _ (D : Database) (L : IsLawful D) where
  create-none :
      (t : String) (o : Operation) (s : D.Schema)
      → creates t o ≡ true
      → D.has_table t s ≡ true
      → D.perform o s ≡ none
  create-none t (create_table u cs fs ks) s h there =
      L.create-exists u cs fs ks s (subst (λ v. D.has_table v s ≡ true) ((eq_iff t u).0 h) there)
  create-none t (drop_table u) s h there = absurd (cc)
  create-none t (add_column u c) s h there = absurd (cc)
  create-none t (drop_column u c) s h there = absurd (cc)
  create-none t (create_index u i cs) s h there = absurd (cc)
  create-none t (drop_index u i) s h there = absurd (cc)

  -- A script that creates a table which is there fails.
  creates_again-none :
      (t : String) (os : List Operation) (s : D.Schema)
      → creates_again t os ≡ true
      → D.has_table t s ≡ true
      → run D os s ≡ none
  creates_again-none t [] s h there = absurd (cc)
  creates_again-none t (o ∷ os) s h there = elim (Option-cases (D.perform o s)) [
    | inl refused ↦ rw refused refl
    | inr (s1, done) ↦ elim (Bool-cases (creates t o)) [
      | inl made ↦ rw (create-none t o s made there) refl
      | inr other ↦ elim (Bool-cases (drops t o)) [
        | inl dropped ↦ absurd (ground arith)
        | inr kept ↦
            rw done
              (creates_again-none t os s1 (ground arith) (L.perform_keeps t o s s1 kept done there))
      ]
    ]
  ]

  run-none :
      (o : Operation) (os : List Operation) (s : D.Schema)
      → ((s1 : D.Schema) → run D os s1 ≡ none)
      → run D (o ∷ os) s ≡ none
  run-none o os s h = elim (Option-cases (D.perform o s)) [
    | inl refused ↦ rw refused refl
    | inr (s1, done) ↦ rw done (h s1)
  ]

  creates_twice-none :
      (os : List Operation) (s : D.Schema) → creates_twice os ≡ true → run D os s ≡ none
  creates_twice-none [] s h = absurd (cc)
  creates_twice-none (create_table t cs fs ks ∷ os) s h =
      elim (Option-cases (D.perform (create_table t cs fs ks) s)) [
        | inl refused ↦ rw refused refl
        | inr (s1, done) ↦ elim (Bool-cases (creates_again t os)) [
          | inl again ↦
              rw done (creates_again-none t os s1 again (L.create-adds t cs fs ks s s1 done))
          | inr once ↦ rw done (creates_twice-none os s1 (ground arith))
        ]
      ]
  creates_twice-none (drop_table u ∷ os) s h =
      run-none (drop_table u) os s (λ s1. creates_twice-none os s1 h)
  creates_twice-none (add_column u c ∷ os) s h =
      run-none (add_column u c) os s (λ s1. creates_twice-none os s1 h)
  creates_twice-none (drop_column u c ∷ os) s h =
      run-none (drop_column u c) os s (λ s1. creates_twice-none os s1 h)
  creates_twice-none (create_index u i cs ∷ os) s h =
      run-none (create_index u i cs) os s (λ s1. creates_twice-none os s1 h)
  creates_twice-none (drop_index u i ∷ os) s h =
      run-none (drop_index u i) os s (λ s1. creates_twice-none os s1 h)

-- On a lawful database that has had no migration, whatever its schema, `alembic upgrade head` fails, if Alembic follows
-- the links of the migrations: two of them create the tables of the compilations, and nothing drops these in between.
pub head_unreachable :
    (D : Database) (L : IsLawful D)
    (upgrade_path : List Migration → Option String → Option (List Migration))
    (follows : (ms : List Migration) (current : Option String)
      → upgrade_path ms current ≡ along_links ms current)
    (s : D.Schema)
    → run_migrations D upgrade_path versions none s ≡ none
head_unreachable D L upgrade_path follows s =
    rw (follows versions none)
      (creates_twice-none D L (upgrades (pending none (chain_to 8 versions "730bc015c129"))) s refl)
