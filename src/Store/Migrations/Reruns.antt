-- ===== src/Store/Migrations/Reruns.antt =====
-- Migrations that run again, in internal/storage/postgres/postgres.go.
use chronos_engine.Prelude.{
  String, Option, none, some, List, [], ◌∷◌, ◌++◌, All, exists, Bool, true, false, string_eq, ◌==◌,
  ==_refl, if◌then◌else◌, ◌≡◌, refl, sym, ap, ◌∙◌, arith,
}
use chronos_engine.Prelude.Counting.{exists_last}
use chronos_engine.Store.Migrations.{
  Entry, Versions, migration_names, record_version, apply_body, migrate_one, migrate_names, migrate,
}

abbrev has : String → List String → Bool
has name = exists (λ n. n == name)

has-append :
    (x : String) (xs : List String) (y : String) → has x xs ≡ true → has x (xs ++ y ∷ []) ≡ true
unfolding exists
has-append x (n ∷ xs) y h = ground (arith, has-append x xs y)
has-append x [] y h = cc

module _ {S : Type 0} (read_file : String → Option String) (exec_body : String → S → Option S) where
  -- A round that goes well has its name in the table, and takes no name out.
  record Migrated (name : String) (v v' : Versions S) : Type 0 where
    there : has name v'.applied ≡ true
    stays : (x : String) → has x v.applied ≡ true → has x v'.applied ≡ true

  record_version-Migrated :
      (name : String) (v v' : Versions S) (o : Option S)
      → record_version read_file exec_body name v.applied o ≡ some v'
      → Migrated name v v'
  record_version-Migrated name v v' none h = cc
  record_version-Migrated name v v' (some schema) h =
      let same : v.applied ++ name ∷ [] ≡ v'.applied = cc in
      record {
        there =
            ap (has name) (sym same) ∙ exists_last (λ n. n == name) v.applied name (==_refl name);
        stays = λ x k. ap (has x) (sym same) ∙ has-append x v.applied name k;
      }

  apply_body-Migrated :
      (name : String) (v v' : Versions S) (o : Option String)
      → apply_body read_file exec_body name v o ≡ some v'
      → Migrated name v v'
  apply_body-Migrated name v v' none h = cc
  apply_body-Migrated name v v' (some body) h =
      record_version-Migrated name v v' (exec_body body v.schema) h

  migrate_one-Migrated :
      (name : String) (v v' : Versions S)
      → migrate_one read_file exec_body name v ≡ some v'
      → Migrated name v v'
  unfolding migrate_one
  migrate_one-Migrated name v v' h = by_test (has name v.applied) refl h
    where
      by_test :
          (b : Bool)
          → has name v.applied ≡ b
          → (if b then some v else apply_body read_file exec_body name v (read_file name)) ≡ some v'
          → Migrated name v v'
      by_test true e h =
          let same : v.applied ≡ v'.applied = cc in
          record { there = ap (has name) (sym same) ∙ e; stays = λ x k. ap (has x) (sym same) ∙ k }
      by_test false e h = apply_body-Migrated name v v' (read_file name) h

  round_names :
      (names : List String) (v v' : Versions S)
      → migrate_names read_file exec_body names v ≡ some v'
      → All (λ n. has n v'.applied ≡ true) names
        × ((x : String) → has x v.applied ≡ true → has x v'.applied ≡ true)
  unfolding migrate_names
  round_names [] v v' h =
      let same : v ≡ v' = cc in (tt, λ x k. ap (λ (w : Versions S). has x w.applied) (sym same) ∙ k)
  round_names (name ∷ names) v v' h =
      by_round (migrate_one read_file exec_body name v) (λ w k. round_names names w v' k) refl h
    where
      by_round :
          (o : Option (Versions S))
          → ((w : Versions S)
              → migrate_names read_file exec_body names w ≡ some v'
              → All (λ n. has n v'.applied ≡ true) names
                × ((x : String) → has x w.applied ≡ true → has x v'.applied ≡ true))
          → migrate_one read_file exec_body name v ≡ o
          → (elim o [ none ↦ none | some w ↦ migrate_names read_file exec_body names w ]) ≡ some v'
          → (((has name v'.applied ≡ true) × All (λ n. has n v'.applied ≡ true) names)
              × ((x : String) → has x v.applied ≡ true → has x v'.applied ≡ true))
      by_round none again e h = cc
      by_round (some w) again e h =
          let m = migrate_one-Migrated name v w e in
          let (rest, keeps) = again w h in
          ((keeps name m.there, rest), λ x k. keeps x (m.stays x k))

  nothing_left :
      (names : List String) (v : Versions S)
      → All (λ n. has n v.applied ≡ true) names
      → migrate_names read_file exec_body names v ≡ some v
  unfolding migrate_names migrate_one
  nothing_left [] v h = refl
  nothing_left (name ∷ names) v (here, h) =
      ap
        (λ b. elim (if b then some v else apply_body read_file exec_body name v (read_file name)) [
          | none ↦ none
          | some w ↦ migrate_names read_file exec_body names w
        ])
        here
      ∙ nothing_left names v h

-- Migrations run once. Whatever the migrations do: where `Migrate` goes well, every migration of the directory is
-- in schema_migrations, and a second `Migrate` goes well and changes nothing, neither the schema nor the table.
pub migrate_twice :
    {S : Type 0} (read_file : String → Option String) (exec_body : String → S → Option S)
    (entries : List Entry) (v v' : Versions S)
    → migrate read_file exec_body entries v ≡ some v'
    → All (λ name. exists (λ n. n == name) v'.applied ≡ true) (migration_names entries)
      × (migrate read_file exec_body entries v' ≡ some v')
unfolding migrate
migrate_twice read_file exec_body entries v v' h =
    let all = (round_names read_file exec_body (migration_names entries) v v' h).0 in
    (all, nothing_left read_file exec_body (migration_names entries) v' all)
