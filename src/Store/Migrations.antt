-- ===== src/Store/Migrations.antt =====
-- Migrate of internal/storage/postgres/postgres.go. What a migration does to the schema, and the embedded files
-- (internal/storage/migrations/embed.go), are parameters.
pub mod Reruns
use Prim.Native.String.{len, slice, compare as str_compare}
use Prim.Native.Nat.{Ordering}
use chronos_engine.Prelude.{
  ℕ, ◌-◌, ltb, String, Option, none, some, List, [], ◌∷◌, ◌++◌, map, select, exists, Bool, true,
  false, not, ◌&&◌, string_eq, ◌==◌, if◌then◌else◌,
}
use chronos_engine.Store.Monad.{order_by}

-- An entry of the directory.
pub record Entry : Type 0 where
  pub name : String
  pub is_dir : Bool

abbrev is_sql : String → Bool
is_sql name = ltb 4 (len name) && slice name (len name - 4) (len name) == ".sql"

abbrev goes_before : String → String → Bool
goes_before a b = elim (str_compare a b) [ Ordering.lt ↦ true | _ ↦ false ]

unfoldable pub migration_names : List Entry → List String
migration_names entries =
    order_by goes_before
      (map (λ (e : Entry). e.name) (select (λ (e : Entry). not e.is_dir && is_sql e.name) entries))

-- The schema, and the rows of schema_migrations.
pub record Versions (S : Type 0) : Type 0 where
  pub schema : S
  pub applied : List String

module _ {S : Type 0} (read_file : String → Option String) (exec_body : String → S → Option S) where
  abbrev pub record_version : String → List String → Option S → Option (Versions S)
  record_version name applied none = none
  record_version name applied (some schema) =
      some (record { schema = schema; applied = applied ++ name ∷ [] })

  abbrev pub apply_body : String → Versions S → Option String → Option (Versions S)
  apply_body name v none = none
  apply_body name v (some body) = record_version name v.applied (exec_body body v.schema)

  -- One round of the loop; `none` is an error.
  unfoldable pub migrate_one : String → Versions S → Option (Versions S)
  migrate_one name v =
      if exists (λ n. n == name) v.applied then some v else apply_body name v (read_file name)

  unfoldable pub migrate_names : List String → Versions S → Option (Versions S)
  migrate_names [] v = some v
  migrate_names (name ∷ names) v = elim (migrate_one name v) [
    | none ↦ none
    | some v' ↦ migrate_names names v'
  ]

  unfoldable pub migrate : List Entry → Versions S → Option (Versions S)
  migrate entries v = migrate_names (migration_names entries) v
