-- ===== src/Schema/Tests.antt =====
-- Runs of the migrations, on a server that does what is documented and nothing else.
use intelli_attend_smart_boa.Base.{String, true, none, List, [], ◌∷◌, ◌≡◌, refl, same}
use intelli_attend_smart_boa.Dict.{Dict}
use intelli_attend_smart_boa.Schema.{Column, Op, column, primary, unique, references}
use intelli_attend_smart_boa.Schema.Kind.{string, integer}
use intelli_attend_smart_boa.Schema.Catalog.{Catalog, perform, perform_all}
use intelli_attend_smart_boa.Schema.Migrations.{
  Server, revisions, upgrade_head, run_migrations, do_run_migrations,
}
use intelli_attend_smart_boa.Schema.Laws.{schema, upgrade_tables, do_run_migrations-eq}

abbrev catalog_server : Server Catalog
catalog_server = record {
  catalog = λ c. c;
  execute = perform;
  execute_none = λ op c h. h;
  execute_some = λ op c d h. (d, (h, refl));
}

-- A database that another program uses too.
abbrev shared : Catalog
shared = record {
  types = [];
  tables =
      ("audit_log", primary (column "id" integer) ∷ unique (column "entry" (string 64)) ∷ [])
      ∷ ("audit_notes", references "audit_log" "id" (column "log_id" integer) ∷ [])
      ∷ [];
  indexes =
      record {
        name = "audit_log_entry_key";
        table = "audit_log";
        columns = "entry" ∷ [];
        is_unique = true;
      }
      ∷ [];
}

do_run_migrations-eq_example :
    (run_migrations catalog_server (upgrade_head revisions) shared ≡ none)
    × (do_run_migrations catalog_server (upgrade_head revisions) shared ≡ shared)
do_run_migrations-eq_example = do_run_migrations-eq catalog_server shared

-- The keys of the tables that the migrations create.
table_names : Dict (List Column) → List String
table_names [] = []
table_names ((name, cols) ∷ d) = name ∷ table_names d

names_run :
    table_names schema.tables
    ≡ "institutions" ∷ "rooms" ∷ "users" ∷ "courses" ∷ "sections" ∷ "enrollments"
      ∷ "timetable_slots" ∷ "board_heartbeats" ∷ "active_sessions" ∷ "session_attendees"
      ∷ "attendance_vault" ∷ "pending_registrations" ∷ []
unfolding table_names schema same
names_run = refl

-- A table that another one refers to is not dropped.
drop_users_run : perform_all (Op.drop_table "users" ∷ []) schema ≡ none
unfolding perform_all schema same
drop_users_run = refl

-- A second creation of the tables is refused.
twice_run : perform_all upgrade_tables schema ≡ none
unfolding perform_all upgrade_tables schema same
twice_run = refl
