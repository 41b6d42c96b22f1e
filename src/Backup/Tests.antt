-- ===== src/Backup/Tests.antt =====
-- Runs of a backup at concrete inputs, with a cipher that leaves its input as it is.
use gamwich.Prelude.{ℕ, ◌≡◌, refl, ◌⊎◌, true, false, Option, none, some, List, [], ◌∷◌, length}
use gamwich.Prelude.Result.{Result, ok, err}
use gamwich.Text.{Text, codes, itoa}
use gamwich.Calendar.{Time}
use gamwich.Sql.{
  DbError, World, statement, query, exec, pure, raise, attempt, otherwise, ◌>>=◌, ◌>>◌, first,
  update_where,
}
use gamwich.Backup.{idle, Object, Database, Manager}
use gamwich.Backup.Crypto.{encrypt_file, decrypt_file, decrypt_file-encrypt_file}
use gamwich.Backup.Store.{create, update_status, update_completed}
use gamwich.Backup.Runs.{
  done_status, error_status, has_key, object_key, set_status, put_object, upload, start_run,
  run_backup,
}
use gamwich.Backup.Snapshot.{IsSnapshot}
use gamwich.Backup.Outcome.{run_backup-restorable, run_backup-settles}

abbrev derive_key : Text → List ℕ → List ℕ
derive_key passphrase salt = passphrase

abbrev seal : List ℕ → List ℕ → List ℕ → List ℕ
seal key nonce plaintext = plaintext

abbrev unseal : List ℕ → List ℕ → List ℕ → Option (List ℕ)
unseal key nonce ciphertext = some ciphertext

abbrev stamp : Time → Text
stamp t = itoa t

abbrev explain : DbError → Text
explain e = codes "failed"

-- The number of the backups, and the content.
abbrev encode : Database → List ℕ
encode d = length d.backups.rows ∷ d.content

abbrev twelve : List ℕ
twelve = 1 ∷ 2 ∷ 3 ∷ 4 ∷ 5 ∷ 6 ∷ 7 ∷ 8 ∷ 9 ∷ 10 ∷ 11 ∷ 12 ∷ []

abbrev sixteen : List ℕ
sixteen = 1 ∷ 2 ∷ 3 ∷ 4 ∷ twelve

abbrev manager : Manager
manager = record {
  configured = true;
  status = record { state = idle; last_backup = none; error_text = []; in_progress = false };
  cached_creds = [];
  database = record { backups = record { rows = []; last_id = 6 }; content = 42 ∷ 43 ∷ [] };
  file = [];
  objects = [];
}

abbrev ran : Result DbError ℕ × World Manager
ran =
    run_backup derive_key seal unseal stamp explain encode 1 (codes "secret") sixteen twelve 5
      (manager, [])

reported : ran.0 ≡ ok 7
unfolding run_backup start_run set_status create upload put_object update_status update_completed
    exec query statement pure raise attempt otherwise ◌>>=◌ ◌>>◌ update_where
reported = refl

run_backup-restorable_example :
    (o : Object) × (first
        (has_key (object_key derive_key seal unseal stamp explain encode 1 5))
        ran.1.0.objects
      ≡ some o)
    × ((d : Database) × (decrypt_file derive_key seal unseal (codes "secret") o.body
          ≡ ok (encode d))
        × IsSnapshot manager (object_key derive_key seal unseal stamp explain encode 1 5) d)
    × (ran.1.0.status ≡ done_status 5)
run_backup-restorable_example =
    run_backup-restorable derive_key seal unseal stamp explain encode (λ key nonce plaintext. refl)
      1 (codes "secret") sixteen twelve 5 (manager, []) 7 refl refl reported

run_backup-settles_example :
    ((id : ℕ) × (ran.0 ≡ ok id) × (ran.1.0.status ≡ done_status 5))
    ⊎ ((e : DbError) × (ran.0 ≡ err e) × (ran.1.0.status ≡ error_status (explain e)))
run_backup-settles_example =
    run_backup-settles derive_key seal unseal stamp explain encode 1 (codes "secret") sixteen twelve
      5 (manager, []) refl

decrypt_file-encrypt_file_example :
    decrypt_file derive_key seal unseal
      (codes "secret")
      (encrypt_file derive_key seal unseal twelve (codes "secret") sixteen (42 ∷ 43 ∷ []))
    ≡ ok (42 ∷ 43 ∷ [])
decrypt_file-encrypt_file_example =
    decrypt_file-encrypt_file derive_key seal unseal (λ key nonce plaintext. refl) twelve sixteen
      (42 ∷ 43 ∷ []) (codes "secret") refl refl
