-- ===== src/Migrations.antt =====
-- The migrations: alembic/versions (`Versions`), `run_migrations` of src/app/db/migrations.py and the start of the
-- application in src/app/core/lifespan.py. What the database does with a statement is a parameter.
pub mod Versions
pub mod Undo
pub mod Head
mod Tests
use text.Mathlib.Text.{◌==◌ as str_eq}
use video_journal_be.Prelude.{
  ◌≡◌, ℕ, zero, suc, Bool, true, false, ◌||◌, length, Option, none, some, String, List, [], ◌∷◌,
  ◌++◌, map, reverse, if◌then◌else◌,
}
use mathlib.Core.List.{flatten}

pub data ColumnType : Type 0 where
  uuid string float integer date_time boolean : ColumnType
  -- The values, and whether the database's own enum type is asked for (`native_enum`, the default), where it has one.
  enum : List String → Bool → ColumnType

pub record Column : Type 0 where
  pub name : String
  pub kind : ColumnType
  pub nullable : Bool
  pub server_default : Option String

pub record ForeignKey : Type 0 where
  pub columns : List String
  pub refers_to : List String

-- The calls of `op` and of a `batch_op`, which names its table.
pub data Operation : Type 0 where
  create_table : String → List Column → List ForeignKey → List String → Operation
  drop_table : String → Operation
  add_column : String → Column → Operation
  drop_column : String → String → Operation
  create_index : String → String → List String → Operation
  drop_index : String → String → Operation

pub record Migration : Type 0 where
  pub revision : String
  pub down_revision : Option String
  pub upgrade : List Operation
  pub downgrade : List Operation

-- The operation that takes another one back; the last three cannot be taken back without what they drop.
abbrev pub undo : Operation → Option Operation
undo (create_table t cs fs ks) = some (drop_table t)
undo (add_column t c) = some (drop_column t c.name)
undo (create_index t i cs) = some (drop_index t i)
undo (drop_table t) = none
undo (drop_column t c) = none
undo (drop_index t i) = none

-- A database, which performs one statement or raises (`none`).
pub record Database : Type 1 where
  pub Schema : Type 0
  pub has_table : String → Schema → Bool
  pub perform : Operation → Schema → Option Schema

abbrev pub drops : String → Operation → Bool
drops t (drop_table u) = str_eq t u
drops t _ = false

-- What SQLite, the database of the settings' default, documents, where an enum is a text column: CREATE TABLE refuses a table that exists and makes one that does not; no statement
-- but DROP TABLE removes a table; and the statement that takes another one back, run straight after it, restores
-- the schema.
pub record IsLawful (D : Database) : Type 1 where
  pub create-exists :
      (t : String) (cs : List Column) (fs : List ForeignKey) (ks : List String) (s : D.Schema)
      → D.has_table t s ≡ true
      → D.perform (create_table t cs fs ks) s ≡ none
  pub create-adds :
      (t : String) (cs : List Column) (fs : List ForeignKey) (ks : List String) (s s' : D.Schema)
      → D.perform (create_table t cs fs ks) s ≡ some s'
      → D.has_table t s' ≡ true
  pub perform_keeps :
      (t : String) (o : Operation) (s s' : D.Schema)
      → drops t o ≡ false
      → D.perform o s ≡ some s'
      → D.has_table t s ≡ true
      → D.has_table t s' ≡ true
  pub perform-undo :
      (o u : Operation) (s s' : D.Schema)
      → undo o ≡ some u
      → D.perform o s ≡ some s'
      → D.perform u s' ≡ some s

module _ (D : Database) where
  abbrev pub and_then : Option D.Schema → (D.Schema → Option D.Schema) → Option D.Schema
  and_then none f = none
  and_then (some s) f = f s

  -- The statements of a script, in order; the first that fails ends it.
  abbrev pub run : List Operation → D.Schema → Option D.Schema
  run [] s = some s
  run (o ∷ os) s = and_then (D.perform o s) (run os)

abbrev pub find_revision : String → List Migration → Option Migration
find_revision r [] = none
find_revision r (m ∷ ms) = if str_eq m.revision r then some m else find_revision r ms

abbrev older : (String → List Migration) → Option String → List Migration
older chain none = []
older chain (some r) = chain r

abbrev linked : (String → List Migration) → Option Migration → List Migration
linked chain none = []
linked chain (some m) = older chain m.down_revision ++ m ∷ []

-- The migrations that lead to a revision, the oldest first; the fuel bounds their number.
abbrev pub chain_to : ℕ → List Migration → String → List Migration
chain_to zero ms r = []
chain_to (suc fuel) ms r = linked (chain_to fuel ms) (find_revision r ms)

abbrev pub upgrades : List Migration → List Operation
upgrades [] = []
upgrades (m ∷ ms) = m.upgrade ++ upgrades ms

abbrev is_down : String → Option String → Bool
is_down r none = false
is_down r (some d) = str_eq d r

abbrev is_parent : String → List Migration → Bool
is_parent r [] = false
is_parent r (m ∷ ms) = is_down r m.down_revision || is_parent r ms

-- The revisions that no other migration builds on.
abbrev heads_among : List Migration → List Migration → List String
heads_among all [] = []
heads_among all (m ∷ ms) =
    if is_parent m.revision all then heads_among all ms else m.revision ∷ heads_among all ms

abbrev pub heads : List Migration → List String
heads ms = heads_among ms ms

-- The migrations after the current revision of the database; all of them where it has none.
abbrev after : String → List Migration → List Migration
after r [] = []
after r (m ∷ ms) = if str_eq m.revision r then ms else after r ms

abbrev pub pending : Option String → List Migration → List Migration
pending none ms = ms
pending (some r) ms = after r ms

-- What Alembic documents of an upgrade to `head`: it wants one head, and takes the migrations that lead to it, along
-- `down_revision`, which the database has not had.
abbrev to_head : List Migration → Option String → List String → Option (List Migration)
to_head ms current (h ∷ []) = some (pending current (chain_to (length ms) ms h))
to_head ms current _ = none

abbrev pub along_links : List Migration → Option String → Option (List Migration)
along_links ms current = to_head ms current (heads ms)

module _ (D : Database)
    (upgrade_path : List Migration → Option String → Option (List Migration)) where
  abbrev run_path : Option (List Migration) → D.Schema → Option D.Schema
  run_path none s = none
  run_path (some ms) s = run D (upgrades ms) s

  -- `command.upgrade(config, "head")`, where Alembic chooses the migrations by `upgrade_path`.
  abbrev pub run_migrations : List Migration → Option String → D.Schema → Option D.Schema
  run_migrations ms current s = run_path (upgrade_path ms current) s
