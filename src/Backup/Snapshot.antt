-- ===== src/Backup/Snapshot.antt =====
-- What a copy of the database holds that a run of `runBackup` in internal/backup/backup.go takes.
use mathlib.Core.Path.{subst}
use gamwich.Prelude.{
  ℕ, suc, ◌≡◌, refl, sym, ap, ◌∙◌, inl, inr, Bool, true, false, List, [], ◌∷◌, ◌++◌, ◌==◌,
  Bool-cases, if◌then◌else◌,
}
use gamwich.Prelude.Result.{Result, ok, err}
use gamwich.Text.{Text}
use gamwich.Calendar.{Time}
use gamwich.Sql.{DbError, World, update_where}
use gamwich.Sql.Rows.{In}
use gamwich.Sql.Faults.{statement-cases}
use gamwich.Backup.{BackupStatus, pending, uploading, completed, failed, Backup, Database, Manager}
use gamwich.Backup.Store.{create, new_backup, insert_backup, has_id, or_null, set_backups}

-- The id of the next record.
abbrev pub next_id : Manager → ℕ
next_id m = suc m.database.backups.last_id

abbrev is_started : BackupStatus → Bool
is_started pending = true
is_started uploading = true
is_started completed = false
is_started failed = false

-- The database before a run with the record of the run, which has not ended.
pub record IsSnapshot (before : Manager) (key : Text) (d : Database) : Type 0 where
  pub same : d.content ≡ before.database.content
  pub own :
      (b : Backup) × In b d.backups.rows
      × (b.id ≡ next_id before)
      × (b.s3_key ≡ key)
      × (is_started b.status ≡ true)
  pub kept :
      (b : Backup)
      → In b before.database.backups.rows
      → (b.id == next_id before) ≡ false
      → In b d.backups.rows

In-before : {A : Type 0} (xs ys : List A) (a : A) → In a xs → In a (xs ++ ys)
In-before [] ys a m = elim m [ ]
In-before (x ∷ xs) ys a (inl e) = inl e
In-before (x ∷ xs) ys a (inr m) = inr (In-before xs ys a m)

In-last : {A : Type 0} (xs : List A) (a : A) → In a (xs ++ a ∷ [])
In-last [] a = inl refl
In-last (x ∷ xs) a = inr (In-last xs a)

In-update_where :
    {A : Type 0} (p : A → Bool) (f : A → A) (xs : List A) (a : A)
    → In a xs
    → In (if p a then f a else a) (update_where p f xs)
unfolding update_where
In-update_where p f [] a m = elim m [ ]
In-update_where p f (x ∷ xs) a (inl e) = inl (ap (λ y. if p y then f y else y) e)
In-update_where p f (x ∷ xs) a (inr m) = inr (In-update_where p f xs a m)

abbrev set_uploading : Time → Backup → Backup
set_uploading now b = record b { status = uploading; error_message = or_null []; updated_at = now }

pub updated-IsSnapshot :
    (before : Manager) (key : Text) (m : Manager) (id : ℕ) (now : Time)
    → id ≡ next_id before
    → IsSnapshot before key m.database
    → IsSnapshot before key
        (set_backups
          (update_where (has_id id) (set_uploading now) m.database.backups.rows)
          m).database
updated-IsSnapshot before key m id now e h =
    let p = has_id id in
    let rows = m.database.backups.rows in
    record {
      same = h.same;
      own =
          let b = h.own.0 in
          let i = In-update_where p (set_uploading now) rows b h.own.1 in
          elim (Bool-cases (p b)) [
            | inl q ↦ (
              set_uploading now b,
              subst
                  (λ t.
                    In (if t then set_uploading now b else b)
                      (update_where p (set_uploading now) rows))
                  q i,
              h.own.2,
              h.own.3,
              refl,
            )
            | inr q ↦ (
              b,
              subst
                  (λ t.
                    In (if t then set_uploading now b else b)
                      (update_where p (set_uploading now) rows))
                  q i,
              h.own.2,
              h.own.3,
              h.own.4,
            )
          ];
      kept = λ b i ne.
          let q : p b ≡ false = ap (λ n. b.id == n) e ∙ ne in
          subst
            (λ t.
              In (if t then set_uploading now b else b) (update_where p (set_uploading now) rows))
            q (In-update_where p (set_uploading now) rows b (h.kept b i ne));
    }

-- `Create` records the run under the next id.
pub create-IsSnapshot :
    (household_id : ℕ) (name key : Text) (now : Time) (w : World Manager) (b : Backup)
    → (create household_id name key now w).0 ≡ ok b
    → (b.id ≡ next_id w.0) × IsSnapshot w.0 key (create household_id name key now w).1.0.database
unfolding create
create-IsSnapshot household_id name key now w b e =
    let row = new_backup household_id name key now in
    let rows = w.0.database.backups.rows in
    elim (statement-cases (insert_backup row) w) [
      | inl x ↦
          let e' : ◌≡◌ {A = Result DbError Backup} (err DbError.failed) (ok b) = rw x at e in cc
      | inr x ↦
          let e' : ◌≡◌ {A = Result DbError Backup} (ok (row (next_id w.0))) (ok b) = rw x at e in
          let g : row (next_id w.0) ≡ b = cc in
          (
            sym (ap (λ (r : Backup). r.id) g),
            subst (λ r. IsSnapshot w.0 key r.1.0.database) (sym x)
                (record {
                  same = refl;
                  own = (row (next_id w.0), In-last rows (row (next_id w.0)), refl, refl, refl);
                  kept = λ c i ne. In-before rows (row (next_id w.0) ∷ []) c i;
                }),
          )
    ]
