-- ===== src/Backup/Store.antt =====
-- internal/store/backup.go. The trigger of the migration that keeps `updated_at` is in each update.
use gamwich.Prelude.{
  ℕ, suc, ◌+◌, Bool, true, false, ◌&&◌, Option, none, some, List, [], ◌∷◌, map, ltb, ◌==◌,
  if◌then◌else◌, length, take,
}
use gamwich.Prelude.Result.{Result, ok}
use gamwich.Text.{Text, is_empty}
use gamwich.Calendar.{Time}
use gamwich.Sql.{
  DbError, insert, with_rows, statement, query, exec, pure, ◌>>=◌, ◌>>◌, select, first,
  update_where, delete_where, order_by, head,
}
use gamwich.Backup.{
  BackupStatus, pending, uploading, completed, failed, Backup, Manager, BackupAction,
}

abbrev pub set_backups : List Backup → Manager → Manager
set_backups rows m = record m {
  database = record m.database { backups = with_rows rows m.database.backups };
}

abbrev pub new_backup : ℕ → Text → Text → Time → ℕ → Backup
new_backup household_id filename s3_key now id = record {
  id = id;
  household_id = household_id;
  filename = filename;
  s3_key = s3_key;
  size_bytes = 0;
  status = pending;
  error_message = none;
  started_at = some now;
  completed_at = none;
  created_at = now;
  updated_at = now;
}

abbrev pub insert_backup : (ℕ → Backup) → Manager → Result DbError Backup × Manager
insert_backup row m = (
  ok (row (suc m.database.backups.last_id)),
  record m { database = record m.database { backups = insert row m.database.backups } },
)

unfoldable pub create : ℕ → Text → Text → Time → BackupAction Backup
create household_id filename s3_key now =
    statement (insert_backup (new_backup household_id filename s3_key now))

abbrev pub is_backup : ℕ → ℕ → Backup → Bool
is_backup id household_id b = b.id == id && b.household_id == household_id

unfoldable pub get_by_id : ℕ → ℕ → BackupAction (Option Backup)
get_by_id id household_id =
    query (λ (m : Manager). first (is_backup id household_id) m.database.backups.rows)

abbrev is_of_household : ℕ → Backup → Bool
is_of_household household_id b = b.household_id == household_id

unfoldable pub list_backups : ℕ → ℕ → BackupAction (List Backup)
list_backups household_id limit = query (λ (m : Manager). take limit (
    order_by (λ (a b : Backup). ltb b.created_at a.created_at)
      (select (is_of_household household_id) m.database.backups.rows)))

-- An empty text is stored as a null.
abbrev pub or_null : Text → Option Text
or_null s = if is_empty s then none else some s

abbrev pub has_id : ℕ → Backup → Bool
has_id id b = b.id == id

unfoldable pub update_status : ℕ → BackupStatus → Text → Time → BackupAction (Unit {0})
update_status id status error_msg now = exec (λ (m : Manager).
    set_backups
      (update_where (has_id id)
        (λ (b : Backup). record b {
          status = status;
          error_message = or_null error_msg;
          updated_at = now;
        })
        m.database.backups.rows)
      m)

unfoldable pub update_completed : ℕ → ℕ → Time → BackupAction (Unit {0})
update_completed id size_bytes now = exec (λ (m : Manager).
    set_backups
      (update_where (has_id id)
        (λ (b : Backup). record b {
          status = completed;
          size_bytes = size_bytes;
          completed_at = some now;
          updated_at = now;
        })
        m.database.backups.rows)
      m)

abbrev pub is_older : ℕ → Time → Backup → Bool
is_older household_id before b = b.household_id == household_id && ltb b.created_at before

unfoldable pub delete_older_than : ℕ → Time → BackupAction (List Text)
delete_older_than household_id before = do
  keys ← query (λ (m : Manager).
      map (λ (b : Backup). b.s3_key)
        (select (is_older household_id before) m.database.backups.rows))
  exec (λ (m : Manager).
      set_backups (delete_where (is_older household_id before) m.database.backups.rows) m)
  pure keys

abbrev is_completed : BackupStatus → Bool
is_completed pending = false
is_completed uploading = false
is_completed completed = true
is_completed failed = false

abbrev is_completed_of : ℕ → Backup → Bool
is_completed_of household_id b = b.household_id == household_id && is_completed b.status

-- A null comes last in a descending order.
abbrev completed_later : Option Time → Option Time → Bool
completed_later none u = false
completed_later (some t) none = true
completed_later (some t) (some u) = ltb u t

unfoldable pub latest_completed : ℕ → BackupAction (Option Backup)
latest_completed household_id = query (λ (m : Manager). head (
    order_by (λ (a b : Backup). completed_later a.completed_at b.completed_at)
      (select (is_completed_of household_id) m.database.backups.rows)))

unfoldable pub count_by_household : ℕ → BackupAction ℕ
count_by_household household_id =
    query (λ (m : Manager). length (select (is_of_household household_id) m.database.backups.rows))

abbrev sum_sizes : List Backup → ℕ
sum_sizes [] = 0
sum_sizes (b ∷ bs) = b.size_bytes + sum_sizes bs

unfoldable pub total_size_by_household : ℕ → BackupAction ℕ
total_size_by_household household_id =
    query
      (λ (m : Manager). sum_sizes (select (is_completed_of household_id) m.database.backups.rows))
