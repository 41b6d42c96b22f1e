-- ===== src/Backup/Runs.antt =====
-- internal/backup/backup.go. What may fail is a statement: the database's, a file's, a request to the
-- object storage. The client of the storage, `stamp` for the format of a time in a file's name,
-- `explain` for the text of an error, `encode` for the file of a database and the cipher are parameters; the times and the nonce are
-- arguments. What is logged is left out, and so are the temporary files once they are read.
use gamwich.Prelude.{
  ℕ, ◌*◌, ◌-◌, Bool, true, false, not, ◌&&◌, Option, none, some, List, [], ◌∷◌, ◌++◌, ◌==◌,
  if◌then◌else◌, length,
}
use gamwich.Prelude.Result.{Result, ok, err}
use gamwich.Text.{Text, codes, text_eq, is_empty, itoa}
use gamwich.Calendar.{Time, nanos_per_day}
use gamwich.Sql.{
  DbError, pure, raise, query, exec, attempt, otherwise, or_failed, ◌>>=◌, ◌>>◌, first,
  delete_where,
}
use gamwich.Backup.{
  Backup, uploading, failed, idle, in_progress, disabled, error_state, Status, Object, CachedCreds,
  Database, Manager, BackupAction,
}
use gamwich.Backup.Crypto.{CryptoError, encrypt_file, decrypt_file}
use gamwich.Backup.Store.{create, get_by_id, update_status, update_completed, delete_older_than}

-- `setStatus`, which does not fail.
unfoldable pub set_status : Status → BackupAction (Unit {0})
set_status s w = (ok tt, (record w.0 { status = s }, w.1))

abbrev pub running_status : Status
running_status = record {
  state = in_progress;
  last_backup = none;
  error_text = [];
  in_progress = true;
}

abbrev pub error_status : Text → Status
error_status text = record {
  state = error_state;
  last_backup = none;
  error_text = text;
  in_progress = false;
}

abbrev pub done_status : Time → Status
done_status now = record {
  state = idle;
  last_backup = some now;
  error_text = [];
  in_progress = false;
}

-- Whether a configuration names a bucket and both keys, as in `NewManager` and `UpdateS3Config`.
abbrev pub is_configured : Text → Text → Text → Bool
is_configured bucket access_key secret_key =
    not (is_empty bucket) && not (is_empty access_key) && not (is_empty secret_key)

-- `UpdateS3Config`
unfoldable pub update_s3_config : Text → Text → Text → Manager → Manager
update_s3_config bucket access_key secret_key m =
    let c = is_configured bucket access_key secret_key in
    record m { configured = c; status = record m.status { state = if c then idle else disabled } }

-- `CacheKey` and `HasCachedKey`
unfoldable pub cache_key : ℕ → Text → List ℕ → Manager → Manager
cache_key household_id passphrase salt m = record m {
  cached_creds =
      record { household_id = household_id; passphrase = passphrase; salt = salt }
      ∷ delete_where (λ (c : CachedCreds). c.household_id == household_id) m.cached_creds;
}

abbrev pub cached : ℕ → Manager → Option CachedCreds
cached household_id m = first (λ (c : CachedCreds). c.household_id == household_id) m.cached_creds

unfoldable pub has_cached_key : ℕ → Manager → Bool
has_cached_key household_id m = elim (cached household_id m) [ none ↦ false | some c ↦ true ]

abbrev pub has_key : Text → Object → Bool
has_key key o = text_eq o.key key

-- `PutObject`, `GetObject` and `DeleteObject`
abbrev pub stored : Text → List ℕ → List Object → List Object
stored key body os = record { key = key; body = body } ∷ delete_where (has_key key) os

unfoldable pub put_object : Text → List ℕ → BackupAction (Unit {0})
put_object key body = exec (λ (m : Manager). record m { objects = stored key body m.objects })

unfoldable pub get_object : Text → BackupAction Object
get_object key = query (λ (m : Manager). first (has_key key) m.objects) >>= or_failed

unfoldable pub delete_object : Text → BackupAction (Unit {0})
delete_object key =
    exec (λ (m : Manager). record m { objects = delete_where (has_key key) m.objects })

-- The loop of `Cleanup` over the keys.
unfoldable pub delete_objects : List Text → BackupAction (Unit {0})
delete_objects [] = pure tt
delete_objects (key ∷ keys) = otherwise tt (delete_object key) >> delete_objects keys

abbrev before_days : Time → ℕ → Time
before_days now days = now - days * nanos_per_day

unfoldable pub cleanup : ℕ → ℕ → Time → BackupAction (Unit {0})
cleanup household_id retention_days now w =
    if w.0.configured
    then (delete_older_than household_id (before_days now retention_days) >>= delete_objects) w
    else pure tt w

module _ (derive_key : Text → List ℕ → List ℕ) (seal : List ℕ → List ℕ → List ℕ → List ℕ)
    (unseal : List ℕ → List ℕ → List ℕ → Option (List ℕ)) (stamp : Time → Text)
    (explain : DbError → Text) (encode : Database → List ℕ) where
  abbrev pub file_name : Time → Text
  file_name now = codes "backup-" ++ stamp now ++ codes ".db.enc"

  abbrev pub object_key : ℕ → Time → Text
  object_key household_id now = itoa household_id ++ codes "/" ++ file_name now

  -- From the checkpoint to the upload, each of which may fail; the size of the upload.
  unfoldable pub upload : Text → Text → List ℕ → List ℕ → BackupAction ℕ
  upload key passphrase salt nonce = do
    exec (λ (m : Manager). record m { file = encode m.database })
    plaintext ← query (λ (m : Manager). m.file)
    data_file ←
        query (λ (m : Manager). encrypt_file derive_key seal unseal nonce passphrase salt plaintext)
    exec (λ (m : Manager). m)
    put_object key data_file
    pure (length data_file)

  -- The end of a run, with its record.
  abbrev pub finish : ℕ → Time → Result DbError ℕ → BackupAction ℕ
  finish id now (ok size) =
      otherwise tt (update_completed id size now) >> set_status (done_status now) >> pure id
  finish id now (err e) =
      otherwise tt (update_status id failed (explain e) now)
      >> set_status (error_status (explain e))
      >> raise e

  abbrev pub on_record :
      Text → Text → List ℕ → List ℕ → Time → Result DbError Backup → BackupAction ℕ
  on_record key passphrase salt nonce now (err e) = set_status (error_status (explain e)) >> raise e
  on_record key passphrase salt nonce now (ok b) =
      otherwise tt (update_status b.id uploading [] now)
      >> (attempt (upload key passphrase salt nonce) >>= finish b.id now)

  -- `runBackup`, once there is a client.
  unfoldable pub start_run : ℕ → Text → List ℕ → List ℕ → Time → BackupAction ℕ
  start_run household_id passphrase salt nonce now =
      set_status running_status
      >> (attempt (create household_id (file_name now) (object_key household_id now) now)
          >>= on_record (object_key household_id now) passphrase salt nonce now)

  -- The client is looked at without a statement.
  unfoldable pub run_backup : ℕ → Text → List ℕ → List ℕ → Time → BackupAction ℕ
  run_backup household_id passphrase salt nonce now w =
      if w.0.configured
      then start_run household_id passphrase salt nonce now w
      else raise DbError.failed w

  abbrev pub or_raise : Result CryptoError (List ℕ) → BackupAction (List ℕ)
  or_raise (ok plaintext) = pure plaintext
  or_raise (err e) = raise DbError.failed

  -- From the download to the new file; `is_intact` is the check that SQLite makes of it.
  abbrev pub restore_from : (List ℕ → Bool) → Text → Backup → BackupAction (Unit {0})
  restore_from is_intact passphrase b = do
    object ← get_object b.s3_key
    exec (λ (m : Manager). m)
    plaintext ← or_raise (decrypt_file derive_key seal unseal passphrase object.body)
    exec (λ (m : Manager). m)
    intact ← query (λ (m : Manager). is_intact plaintext)
    (if intact then exec (λ (m : Manager). record m { file = plaintext }) else raise DbError.failed)

  -- `Restore`, up to the end of the process.
  unfoldable pub restore : (List ℕ → Bool) → ℕ → ℕ → Text → BackupAction (Unit {0})
  restore is_intact backup_id household_id passphrase w =
      let start = λ (u : Unit {0}).
        get_by_id backup_id household_id >>= or_failed >>= restore_from is_intact passphrase in
      if w.0.configured then start tt w else raise DbError.failed w

  abbrev with_size : Backup → Object → List ℕ × ℕ
  with_size b o = (o.body, b.size_bytes)

  -- `Download`
  unfoldable pub download : ℕ → ℕ → BackupAction (List ℕ × ℕ)
  download backup_id household_id w =
      let start = λ (u : Unit {0}). get_by_id backup_id household_id >>= or_failed >>= λ b.
      get_object b.s3_key >>= λ o. pure (with_size b o) in
      if w.0.configured then start tt w else raise DbError.failed w
