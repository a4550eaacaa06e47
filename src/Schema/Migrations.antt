-- ===== src/Schema/Migrations.antt =====
-- The revisions of backend/python/alembic/versions after the first, the chain that they form, and
-- `do_run_migrations` of alembic/env.py, which runs what is pending in one transaction.
use intelli_attend_smart_boa.Base.{String, Option, none, some, List, [], ◌∷◌, ◌++◌, ◌≡◌}
use intelli_attend_smart_boa.Schema.{
  Column, column, primary, required, unique, indexed, default, Op,
}
use intelli_attend_smart_boa.Schema.Kind.{string, integer, date_time}
use intelli_attend_smart_boa.Schema.Op.{
  create_table, drop_table, add_column, drop_index, drop_column,
}
use intelli_attend_smart_boa.Schema.Catalog.{Catalog, perform}
use intelli_attend_smart_boa.Schema.Initial

-- 002_add_smart_board_id.py
unfoldable pub smart_board_id : Column
smart_board_id = indexed (unique (column "smart_board_id" (string 64)))

unfoldable pub add_smart_board_id : List Op
unfolding smart_board_id
add_smart_board_id = add_column "users" smart_board_id ∷ []

unfoldable pub drop_smart_board_id : List Op
drop_smart_board_id =
    drop_index "ix_users_smart_board_id" "users" ∷ drop_column "users" "smart_board_id" ∷ []

-- 003_add_pending_registrations.py
unfoldable pub pending_registrations : List Column
pending_registrations =
    primary (column "id" (string 32))
    ∷ indexed (unique (required (column "smart_board_id" (string 64))))
    ∷ unique (column "firebase_uid" (string 128))
    ∷ column "email" (string 255)
    ∷ required (column "otp_hash" (string 128))
    ∷ required (column "otp_expires_at" date_time)
    ∷ default "0" (column "attempts" integer)
    ∷ column "locked_until" date_time
    ∷ default "now()" (column "created_at" date_time)
    ∷ []

unfoldable pub add_pending_registrations : List Op
unfolding pending_registrations
add_pending_registrations = create_table "pending_registrations" pending_registrations ∷ []

unfoldable pub drop_pending_registrations : List Op
drop_pending_registrations = drop_table "pending_registrations" ∷ []

-- A file of alembic/versions
pub record Revision : Type 0 where
  pub revision : String
  pub down_revision : Option String
  pub upgrade : List Op
  pub downgrade : List Op

unfoldable pub revisions : List Revision
unfolding Initial.upgrade Initial.downgrade add_smart_board_id drop_smart_board_id
    add_pending_registrations drop_pending_registrations
revisions =
    record {
      revision = "001";
      down_revision = none;
      upgrade = Initial.upgrade;
      downgrade = Initial.downgrade;
    }
    ∷ record {
      revision = "002";
      down_revision = some "001";
      upgrade = add_smart_board_id;
      downgrade = drop_smart_board_id;
    }
    ∷ record {
      revision = "003";
      down_revision = some "002";
      upgrade = add_pending_registrations;
      downgrade = drop_pending_registrations;
    }
    ∷ []

-- `alembic upgrade head` from the base: the steps of every revision, in the order of the chain.
unfoldable pub upgrade_head : List Revision → List Op
upgrade_head [] = []
upgrade_head (r ∷ rs) = r.upgrade ++ upgrade_head rs

-- `alembic downgrade base`: the steps back, from the last revision on.
unfoldable pub downgrade_base : List Revision → List Op
downgrade_base [] = []
downgrade_base (r ∷ rs) = downgrade_base rs ++ r.downgrade

-- A database behind Alembic, whose state is an `S`: an operation succeeds with a new state or
-- raises, and changes the catalog as documented.
pub record Server (S : Type 0) : Type 0 where
  pub catalog : S → Catalog
  pub execute : Op → S → Option S
  pub execute_none : (op : Op) (s : S) → perform op (catalog s) ≡ none → execute op s ≡ none
  pub execute_some :
      (op : Op) (s : S) (c : Catalog)
      → perform op (catalog s) ≡ some c
      → (s' : S) × ((execute op s ≡ some s') × (catalog s' ≡ c))

module _ {S : Type 0} (server : Server S) where
  unfoldable pub run_migrations : List Op → S → Option S
  run_migrations [] s = some s
  run_migrations (op ∷ ops) s = elim (server.execute op s) [
    | none ↦ none
    | some s' ↦ run_migrations ops s'
  ]

  -- `do_run_migrations`: the transaction is rolled back when an operation raises.
  unfoldable pub do_run_migrations : List Op → S → S
  unfolding run_migrations
  do_run_migrations ops s = elim (run_migrations ops s) [ none ↦ s | some s' ↦ s' ]
