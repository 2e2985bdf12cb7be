-- ===== src/Migrations/Undo.antt =====
-- Each migration's downgrade takes back its upgrade.
use video_journal_be.Prelude.{arith}
use video_journal_be.Prelude.{
  ◌≡◌, refl, subst, ◌∙◌, Option, none, some, Option-cases, Bool-cases, inl, inr, String, List, [],
  ◌∷◌, ◌++◌, All,
}
use text.Mathlib.Text.{◌==◌ as str_eq}
use video_journal_be.Migrations.{
  find_revision, Operation, Migration, undo, Database, IsLawful, run, and_then,
}
use video_journal_be.Migrations.Versions.{versions}

abbrev behind : Option (List Operation) → Option Operation → Option (List Operation)
behind (some us) (some u) = some (us ++ u ∷ [])
behind _ _ = none

-- The statements that take a script back, from its last to its first, where each can be taken back.
abbrev pub inverse : List Operation → Option (List Operation)
inverse [] = some []
inverse (o ∷ os) = behind (inverse os) (undo o)

behind-some :
    (us : Option (List Operation)) (u : Option Operation) (l : List Operation)
    → behind us u ≡ some l
    → (vs : List Operation) × (v : Operation) × (us ≡ some vs) × (u ≡ some v) × (l ≡ vs ++ v ∷ [])
behind-some (some us) (some u) l h = (us, u, refl, refl, cc)
behind-some (some us) none l h = cc
behind-some none (some u) l h = cc
behind-some none none l h = cc

module _ (D : Database) where
  and_then-some :
      (o : Option D.Schema) (f : D.Schema → Option D.Schema) (t : D.Schema)
      → and_then D o f ≡ some t
      → (s : D.Schema) × (o ≡ some s) × (f s ≡ some t)
  and_then-some none f t h = cc
  and_then-some (some s) f t h = (s, refl, h)

  pub run-append :
      (os ps : List Operation) (s : D.Schema)
      → run D (os ++ ps) s ≡ and_then D (run D os s) (run D ps)
  run-append [] ps s = refl
  run-append (o ∷ os) ps s = elim (Option-cases (D.perform o s)) [
    | inl refused ↦ rw refused refl
    | inr (s1, done) ↦ rw done (run-append os ps s1)
  ]

  run_back :
      IsLawful D
      → (os us : List Operation) (s t : D.Schema) → inverse os ≡ some us
      → run D os s ≡ some t
      → run D us t ≡ some s
  run_back L [] us s t e h =
      let none_left : us ≡ [] = cc in let same : t ≡ s = cc in rw (none_left, same) refl
  run_back L (o ∷ os) us s t e h =
      let (vs, v, back, taken, same) = behind-some (inverse os) (undo o) us e in
      let (s1, done, rest) = and_then-some (D.perform o s) (run D os) t h in
      rw same (
        run-append vs (v ∷ []) t
        ∙ rw (run_back L os vs s1 t back rest, L.perform-undo o v s s1 taken done) refl)

-- The downgrade of a migration has the inverses of its statements, in the opposite order.
abbrev pub IsReversible : Migration → Type 0
IsReversible m = inverse m.upgrade ≡ some m.downgrade

pub versions-IsReversible : All IsReversible versions
versions-IsReversible = (refl, (refl, (refl, (refl, (refl, (refl, (refl, (refl, tt))))))))

find-All :
    (P : Migration → Type 0) (r : String) (ms : List Migration) (m : Migration)
    → All P ms
    → find_revision r ms ≡ some m
    → P m
find-All P r [] m h e = absurd (cc)
find-All P r (n ∷ ms) m h e = elim (Bool-cases (str_eq n.revision r)) [
  | inl this ↦ subst P (ground arith) h.0
  | inr other ↦ find-All P r ms m h.1 (ground arith)
]

-- On a lawful database the downgrade of any migration in the repository, run on what its upgrade has made, restores
-- the schema from before.
pub downgrade-upgrade :
    (D : Database) (L : IsLawful D) (r : String) (m : Migration) (s t : D.Schema)
    → find_revision r versions ≡ some m
    → run D m.upgrade s ≡ some t
    → run D m.downgrade t ≡ some s
downgrade-upgrade D L r m s t found done =
    run_back D L m.upgrade m.downgrade s t
      (find-All IsReversible r versions m versions-IsReversible found) done
