-- ===== src/Backup/Outcome.antt =====
-- `runBackup` of internal/backup/backup.go: what a run leaves.
use mathlib.Core.Path.{subst}
use gamwich.Prelude.{
  ℕ, ◌≡◌, refl, sym, ap, ◌∙◌, ◌⊎◌, inl, inr, Bool, true, false, Option, some, List, [], Bool-cases,
  if◌then◌else◌, length,
}
use gamwich.Prelude.Result.{Result, ok, err, Result-cases}
use gamwich.Text.{Text}
use gamwich.Text.Equality.{text_eq_refl}
use gamwich.Calendar.{Time}
use gamwich.Sql.{DbError, World, pure, raise, attempt, otherwise, ◌>>=◌, ◌>>◌, first}
use gamwich.Sql.Faults.{later, query-go, exec-go}
use gamwich.Sql.Keeps.{Keeps, Keeps-pure, Keeps-exec, Keeps-otherwise, Keeps->>}
use gamwich.Backup.{Backup, uploading, Status, Object, Database, Manager, BackupAction}
use gamwich.Backup.Crypto.{
  encrypt_file, decrypt_file, decrypt_file-encrypt_file, salt_size, nonce_size,
}
use gamwich.Backup.Store.{create, update_status, update_completed}
use gamwich.Backup.Runs.{
  set_status, running_status, error_status, done_status, has_key, stored, put_object, file_name,
  object_key, upload, finish, on_record, start_run, run_backup,
}
use gamwich.Backup.Snapshot.{next_id, IsSnapshot, updated-IsSnapshot, create-IsSnapshot}

module _ (derive_key : Text → List ℕ → List ℕ) (seal : List ℕ → List ℕ → List ℕ → List ℕ)
    (unseal : List ℕ → List ℕ → List ℕ → Option (List ℕ)) (stamp : Time → Text)
    (explain : DbError → Text) (encode : Database → List ℕ) where
  -- The object is in the storage under its key.
  abbrev Holds : Object → Manager → Type 0
  Holds o m = first (has_key o.key) m.objects ≡ some o

  abbrev object_of : Text → Text → List ℕ → List ℕ → List ℕ → Object
  object_of key passphrase salt nonce plaintext = record {
    key = key;
    body = encrypt_file derive_key seal unseal nonce passphrase salt plaintext;
  }

  put_object-Holds :
      (o : Object) (m : Manager) → Holds o (record m { objects = stored o.key o.body m.objects })
  unfolding first
  put_object-Holds o m = rw (text_eq_refl o.key)

  upload-Holds :
      (key passphrase : Text) (salt nonce : List ℕ) (w : World Manager) (size : ℕ)
      → (upload derive_key seal unseal stamp explain encode key passphrase salt nonce w).0 ≡ ok size
      → Holds
          (object_of key passphrase salt nonce (encode w.0.database))
          (upload derive_key seal unseal stamp explain encode key passphrase salt nonce w).1.0
  unfolding upload put_object pure
  upload-Holds key passphrase salt nonce w size e =
      let m = w.0 in
      let o = object_of key passphrase salt nonce (encode m.database) in
      let n = record m { file = encode m.database } in
      let w1 : World Manager = (n, later w) in
      let w2 : World Manager = (n, later w1) in
      let w3 : World Manager = (n, later w2) in
      let w4 : World Manager = (n, later w3) in
      let a = exec-go (λ (m : Manager). record m { file = encode m.database }) _ w size e in
      let b = a ∙ query-go (λ (m : Manager). m.file) _ w1 size (sym (ap (λ r. r.0) a) ∙ e) in
      let c = b ∙ query-go (λ (m : Manager). o.body) _ w2 size (sym (ap (λ r. r.0) b) ∙ e) in
      let d = c ∙ exec-go (λ (m : Manager). m) _ w3 size (sym (ap (λ r. r.0) c) ∙ e) in
      let f =
        d
        ∙ exec-go (λ (m : Manager). record m { objects = stored key o.body m.objects }) _ w4 size
            (sym (ap (λ r. r.0) d) ∙ e) in
      subst (Holds o) (sym (ap (λ r. r.1.0) f)) (put_object-Holds o n)

  abbrev run : ℕ → Text → List ℕ → List ℕ → Time → BackupAction ℕ
  run = run_backup derive_key seal unseal stamp explain encode

  abbrev start : ℕ → Text → List ℕ → List ℕ → Time → BackupAction ℕ
  start = start_run derive_key seal unseal stamp explain encode

  Keeps-update_status :
      (before : Manager) (key : Text) (id : ℕ) (now : Time)
      → id ≡ next_id before
      → Keeps
          (λ (m : Manager). IsSnapshot before key m.database)
          (otherwise tt (update_status id uploading [] now))
  unfolding update_status
  Keeps-update_status before key id now same =
      let P = λ (m : Manager). IsSnapshot before key m.database in
      Keeps-otherwise P tt _ (Keeps-exec P _ (λ m h. updated-IsSnapshot before key m id now same h))

  Keeps-set_status : (o : Object) (s : Status) → Keeps (Holds o) (set_status s)
  unfolding set_status
  Keeps-set_status o s = record { keeps = λ w h. h }

  Keeps-finish :
      (o : Object) (id : ℕ) (now : Time) (size : ℕ)
      → Keeps (Holds o) (finish derive_key seal unseal stamp explain encode id now (ok size))
  unfolding update_completed
  Keeps-finish o id now size =
      Keeps->> (Holds o) _ _
        (Keeps->> (Holds o) _ _ (Keeps-otherwise (Holds o) tt _ (Keeps-exec (Holds o) _ (λ m h. h)))
          (Keeps-set_status o (done_status now)))
        (Keeps-pure (Holds o) id)

  -- What a run leaves: its object, and the status of a run that is done.
  record Leaves (household_id : ℕ) (passphrase : Text) (salt nonce : List ℕ) (now : Time)
      (before after : Manager) : Type 0 where
    snapshot : Database
    taken :
        IsSnapshot before
          (object_key derive_key seal unseal stamp explain encode household_id now)
          snapshot
    object :
        Holds
          (object_of
            (object_key derive_key seal unseal stamp explain encode household_id now)
            passphrase
            salt
            nonce
            (encode snapshot))
          after
    settled : after.status ≡ done_status now

  on_record-Leaves :
      (household_id : ℕ) (passphrase : Text) (salt nonce : List ℕ) (now : Time) (before : Manager)
      (w : World Manager) (b : Backup) (id : ℕ)
      → IsSnapshot before
          (object_key derive_key seal unseal stamp explain encode household_id now)
          w.0.database
      → b.id ≡ next_id before
      → let m =
          on_record derive_key seal unseal stamp explain encode
            (object_key derive_key seal unseal stamp explain encode household_id now)
            passphrase
            salt
            nonce
            now
            (ok b) in
        (m w).0 ≡ ok id → Leaves household_id passphrase salt nonce now before (m w).1.0
  unfolding ◌>>=◌ ◌>>◌ otherwise attempt raise pure set_status
  on_record-Leaves household_id passphrase salt nonce now before w b id taken same e =
      let key = object_key derive_key seal unseal stamp explain encode household_id now in
      let v = (otherwise tt (update_status b.id uploading [] now) w).1 in
      let kept = (Keeps-update_status before key b.id now same).keeps w taken in
      elim (Result-cases
        (upload derive_key seal unseal stamp explain encode key passphrase salt nonce v).0) [
          | inl (x, p) ↦ let e' : err x ≡ ok id = rw p at e in cc
          | inr (size, p) ↦
              let o = object_of key passphrase salt nonce (encode v.0.database) in
              let held = upload-Holds key passphrase salt nonce v size p in
              rw p (record {
                snapshot = v.0.database;
                taken = kept;
                object =
                    (Keeps-finish o b.id now size).keeps
                      (upload derive_key seal unseal stamp explain encode key passphrase salt nonce
                        v).1
                      held;
                settled = refl;
              })
        ]

  start_run-Leaves :
      (household_id : ℕ) (passphrase : Text) (salt nonce : List ℕ) (now : Time) (w : World Manager)
      (id : ℕ)
      → (start household_id passphrase salt nonce now w).0 ≡ ok id
      → Leaves household_id passphrase salt nonce now w.0
          (start household_id passphrase salt nonce now w).1.0
  unfolding start_run set_status ◌>>=◌ ◌>>◌ attempt raise
  start_run-Leaves household_id passphrase salt nonce now w id e =
      let key = object_key derive_key seal unseal stamp explain encode household_id now in
      let name = file_name derive_key seal unseal stamp explain encode now in
      let v : World Manager = (record w.0 { status = running_status }, w.1) in
      let made = create household_id name key now v in
      elim (Result-cases made.0) [
        | inl (x, q) ↦ let e' : err x ≡ ok id = rw q at e in cc
        | inr (b, q) ↦
            let c = create-IsSnapshot household_id name key now v b q in
            rw q (
              on_record-Leaves household_id passphrase salt nonce now w.0 made.1 b id
                (record { same = c.1.same; own = c.1.own; kept = c.1.kept }) c.0 (rw q at e))
      ]

  -- A configured manager starts the run, another refuses it.
  run-configured :
      (household_id : ℕ) (passphrase : Text) (salt nonce : List ℕ) (now : Time) (w : World Manager)
      (b : Bool)
      → w.0.configured ≡ b
      → run household_id passphrase salt nonce now w
        ≡ (if b then start household_id passphrase salt nonce now w else raise DbError.failed w)
  unfolding run_backup
  run-configured household_id passphrase salt nonce now w b e =
      ap (λ c. if c then start household_id passphrase salt nonce now w else raise DbError.failed w)
        e

  run_backup-Leaves :
      (household_id : ℕ) (passphrase : Text) (salt nonce : List ℕ) (now : Time) (w : World Manager)
      (id : ℕ)
      → (run household_id passphrase salt nonce now w).0 ≡ ok id
      → Leaves household_id passphrase salt nonce now w.0
          (run household_id passphrase salt nonce now w).1.0
  unfolding raise
  run_backup-Leaves household_id passphrase salt nonce now w id e =
      elim (Bool-cases w.0.configured) [
        | inr p ↦
            let e' : err DbError.failed ≡ ok id =
              sym (ap (λ r. r.0) (run-configured household_id passphrase salt nonce now w false p))
              ∙ e in
            cc
        | inl p ↦
            let r = run-configured household_id passphrase salt nonce now w true p in
            subst (λ t. Leaves household_id passphrase salt nonce now w.0 t.1.0) (sym r)
              (start_run-Leaves household_id passphrase salt nonce now w id
                (sym (ap (λ t. t.0) r) ∙ e))
      ]

  -- Whatever fails, a backup that `runBackup` reports is in the storage under its key, decrypts with the
  -- passphrase to the file of a database, and leaves the manager idle, with the time of the backup. That
  -- database has the record of the run, under the next id and pending or uploading, every earlier
  -- record with another id, and all else that the database had before the run. The salt has 16 bytes,
  -- the nonce 12, and the cipher opens what it has sealed.
  pub run_backup-restorable :
      (opens : (key nonce plaintext : List ℕ)
        → unseal key nonce (seal key nonce plaintext) ≡ some plaintext)
      (household_id : ℕ) (passphrase : Text) (salt nonce : List ℕ) (now : Time) (w : World Manager)
      (id : ℕ)
      → length salt ≡ salt_size
      → length nonce ≡ nonce_size
      → (run household_id passphrase salt nonce now w).0 ≡ ok id
      → let after = (run household_id passphrase salt nonce now w).1.0 in
        (o : Object) × (first
            (has_key (object_key derive_key seal unseal stamp explain encode household_id now))
            after.objects
          ≡ some o)
        × ((d : Database) × (decrypt_file derive_key seal unseal passphrase o.body ≡ ok (encode d))
            × IsSnapshot w.0
                (object_key derive_key seal unseal stamp explain encode household_id now)
                d)
        × (after.status ≡ done_status now)
  run_backup-restorable opens household_id passphrase salt nonce now w id salted nonced e =
      let l = run_backup-Leaves household_id passphrase salt nonce now w id e in
      (
        _,
        l.object,
        (
          l.snapshot,
          decrypt_file-encrypt_file derive_key seal unseal opens nonce salt (encode l.snapshot)
              passphrase salted nonced,
          l.taken,
        ),
        l.settled,
      )

  -- How a run ends, by its outcome and the manager's status.
  abbrev Settled : Time → Result DbError ℕ × World Manager → Type 0
  Settled now r =
      ((id : ℕ) × (r.0 ≡ ok id) × (r.1.0.status ≡ done_status now))
      ⊎ ((e : DbError) × (r.0 ≡ err e) × (r.1.0.status ≡ error_status (explain e)))

  start_run-settles :
      (household_id : ℕ) (passphrase : Text) (salt nonce : List ℕ) (now : Time) (w : World Manager)
      → Settled now (start household_id passphrase salt nonce now w)
  unfolding start_run set_status ◌>>=◌ ◌>>◌ attempt raise otherwise pure
  start_run-settles household_id passphrase salt nonce now w =
      let key = object_key derive_key seal unseal stamp explain encode household_id now in
      let name = file_name derive_key seal unseal stamp explain encode now in
      let v : World Manager = (record w.0 { status = running_status }, w.1) in
      let made = create household_id name key now v in
      elim (Result-cases made.0) [
        | inl (x, q) ↦ rw q (inr (x, refl, refl))
        | inr (b, q) ↦
            let u = (otherwise tt (update_status b.id uploading [] now) made.1).1 in
            elim (Result-cases
              (upload derive_key seal unseal stamp explain encode key passphrase salt nonce u).0) [
                | inl (x, r) ↦ rw (q, r) (inr (x, refl, refl))
                | inr (size, r) ↦ rw (q, r) (inl (b.id, refl, refl))
              ]
      ]

  -- However a run of a configured manager goes, it ends with the manager idle and the time of the
  -- backup in its status, or with an error and the manager in the state of an error, never in the state
  -- of a run.
  pub run_backup-settles :
      (household_id : ℕ) (passphrase : Text) (salt nonce : List ℕ) (now : Time) (w : World Manager)
      → w.0.configured ≡ true
      → Settled now (run household_id passphrase salt nonce now w)
  run_backup-settles household_id passphrase salt nonce now w p =
      subst (Settled now) (sym (run-configured household_id passphrase salt nonce now w true p))
        (start_run-settles household_id passphrase salt nonce now w)
