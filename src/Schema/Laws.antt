-- ===== src/Schema/Laws.antt =====
-- What the migrations do to a database behind Alembic.
use intelli_attend_smart_boa.Base.{
  ◌++◌, none, some, List, [], ◌∷◌, ◌≡◌, refl, sym, ◌∙◌, arith, same, inl, inr, Option-cases,
}
use intelli_attend_smart_boa.Schema.{Op}
use intelli_attend_smart_boa.Schema.Catalog.{Catalog, empty, perform, perform_all}
use intelli_attend_smart_boa.Schema.Initial
use intelli_attend_smart_boa.Schema.Types.{create_type-none, collides}
use intelli_attend_smart_boa.Schema.Migrations.{
  Server, add_smart_board_id, add_pending_registrations, revisions, upgrade_head, run_migrations,
  do_run_migrations,
}

perform_all_step :
    (op : Op) (ops : List Op) (c d e : Catalog)
    → perform op c ≡ some d
    → e ≡ d
    → perform_all (op ∷ ops) c ≡ perform_all ops e
unfolding perform_all
perform_all_step op ops c d e h same = rw (same, h, perform_all) refl

module _ {S : Type 0} (server : Server S) where
  -- A run of the database is a run of its catalog.
  pub run_migrations-none :
      (ops : List Op) (s : S)
      → perform_all ops (server.catalog s) ≡ none
      → run_migrations server ops s ≡ none
  unfolding run_migrations perform_all
  run_migrations-none [] s h = ground arith
  run_migrations-none (op ∷ ops) s h = elim (Option-cases (perform op (server.catalog s))) [
    | inl e ↦ rw (run_migrations, server.execute_none op s e) refl
    | inr (c, e) ↦
        let (s', (done, same)) = server.execute_some op s c e in
        let step = perform_all_step op ops (server.catalog s) c (server.catalog s') e same in
        rw (run_migrations, done) (run_migrations-none ops s' (sym step ∙ h))
  ]

  pub run_migrations-some :
      (ops : List Op) (s : S) (c : Catalog)
      → perform_all ops (server.catalog s) ≡ some c
      → (s' : S) × ((run_migrations server ops s ≡ some s') × (server.catalog s' ≡ c))
  unfolding run_migrations perform_all
  run_migrations-some [] s c h = (s, (refl, ground arith))
  run_migrations-some (op ∷ ops) s c h = elim (Option-cases (perform op (server.catalog s))) [
    | inl e ↦ absurd (ground arith)
    | inr (d, e) ↦
        let (s', (done, same)) = server.execute_some op s d e in
        let step = perform_all_step op ops (server.catalog s) d (server.catalog s') e same in
        let (s2, (rest, result)) = run_migrations-some ops s' c (sym step ∙ h) in
        (s2, (rw (run_migrations, done) rest, result))
  ]

-- The operations of the three upgrades but for the `CREATE TYPE` statements of the first.
unfoldable pub upgrade_tables : List Op
unfolding Initial.tables add_smart_board_id add_pending_registrations
upgrade_tables = Initial.tables ++ add_smart_board_id ++ add_pending_registrations

-- The catalog that they make of an empty one.
unfoldable pub schema : Catalog
unfolding perform_all upgrade_tables
schema = elim (perform_all upgrade_tables empty) [ none ↦ empty | some c ↦ c ]

-- The creation of a table creates the types of its enumerated columns without a look at whether
-- they exist, so the migration from the base to the last revision raises on every database, whatever
-- it holds, and the transaction leaves the database as it was: the table `users` would create
-- `user_role` a second time.
pub do_run_migrations-eq :
    {S : Type 0} (server : Server S) (s : S)
    → (run_migrations server (upgrade_head revisions) s ≡ none)
      × (do_run_migrations server (upgrade_head revisions) s ≡ s)
unfolding do_run_migrations upgrade_head revisions collides same
do_run_migrations-eq server s =
    let fails : run_migrations server (upgrade_head revisions) s ≡ none =
      run_migrations-none server (upgrade_head revisions) s
        (create_type-none "user_role" _ _ (server.catalog s) refl) in
    (fails, rw (do_run_migrations, fails) refl)
