-- ===== src/Backup.antt =====
-- Backups: internal/model/backup.go, internal/store/backup.go and internal/backup. The object storage
-- is a list of objects. The database is its table of the backups with all else that it holds, and
-- its main file is the bytes that the last checkpoint left there.
pub mod Crypto
pub mod Store
pub mod Runs
mod Snapshot
mod Outcome
mod Tests
use gamwich.Prelude.{ℕ, Bool, List, Option}
use gamwich.Text.{Text}
use gamwich.Calendar.{Time}
use gamwich.Sql.{Table, Action}

pub data BackupStatus : Type 0 where
  pending uploading completed failed : BackupStatus

pub record Backup : Type 0 where
  pub id : ℕ
  pub household_id : ℕ
  pub filename : Text
  pub s3_key : Text
  pub size_bytes : ℕ
  pub status : BackupStatus
  pub error_message : Option Text
  pub started_at : Option Time
  pub completed_at : Option Time
  pub created_at : Time
  pub updated_at : Time

pub data State : Type 0 where
  idle in_progress disabled error_state : State

pub record Status : Type 0 where
  pub state : State
  pub last_backup : Option Time
  pub error_text : Text
  pub in_progress : Bool

pub record Object : Type 0 where
  pub key : Text
  pub body : List ℕ

pub record CachedCreds : Type 0 where
  pub household_id : ℕ
  pub passphrase : Text
  pub salt : List ℕ

-- What statements read and write: the table of the backups, and all else that the database holds.
pub record Database : Type 0 where
  pub backups : Table Backup
  pub content : List ℕ

-- The manager with what it works on: whether it has a client of the storage, its status, its cached
-- credentials, the database, its main file and the objects of the storage. Statements write to the
-- log beside the main file, and the checkpoint writes the database to the main file.
pub record Manager : Type 0 where
  pub configured : Bool
  pub status : Status
  pub cached_creds : List CachedCreds
  pub database : Database
  pub file : List ℕ
  pub objects : List Object

abbrev pub BackupAction : Type 0 → Type 0
BackupAction = Action Manager
