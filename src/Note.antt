-- ===== src/Note.antt =====
-- internal/store/note.go and internal/model/note.go: the notes of the board.
mod Shown
use gamwich.Prelude.{
  ℕ, suc, Bool, true, false, not, ◌&&◌, ◌||◌, Option, none, some, List, [], ◌∷◌, ltb, leb, ◌==◌,
  if◌then◌else◌, length,
}
use gamwich.Prelude.Result.{Result, ok, err}
use gamwich.Text.{Text, codes, text_eq}
use gamwich.Calendar.{Time}
use gamwich.Sql.{
  DbError, Table, Action, insert, with_rows, pure, statement, query, exec, otherwise, ◌>>=◌, ◌>>◌,
  select, first, update_where, delete_where, order_by,
}

pub record Note : Type 0 where
  pub id : ℕ
  pub title : Text
  pub body : Text
  pub author_id : Option ℕ
  pub pinned : Bool
  pub priority : Text
  pub expires_at : Option Time
  pub created_at : Time
  pub updated_at : Time

abbrev pub NoteAction : Type 0 → Type 0
NoteAction = Action (Table Note)

abbrev has_id : ℕ → Note → Bool
has_id id n = n.id == id

abbrev new_note : Text → Text → Option ℕ → Bool → Text → Option Time → Time → ℕ → Note
new_note title body author_id pinned priority expires_at now id = record {
  id = id;
  title = title;
  body = body;
  author_id = author_id;
  pinned = pinned;
  priority = priority;
  expires_at = expires_at;
  created_at = now;
  updated_at = now;
}

abbrev insert_note : (ℕ → Note) → Table Note → Result DbError ℕ × Table Note
insert_note row t = (ok (suc t.last_id), insert row t)

unfoldable pub get_by_id : ℕ → NoteAction (Option Note)
get_by_id id = query (λ (t : Table Note). first (has_id id) t.rows)

unfoldable pub create :
    Text → Text → Option ℕ → Bool → Text → Option Time → Time → NoteAction (Option Note)
create title body author_id pinned priority expires_at now =
    statement (insert_note (new_note title body author_id pinned priority expires_at now))
    >>= get_by_id

-- `expires_at IS NOT NULL AND expires_at <= datetime('now')`
abbrev pub is_expired : Time → Note → Bool
is_expired now n = elim n.expires_at [ none ↦ false | some t ↦ leb t now ]

-- `expires_at IS NULL OR expires_at > datetime('now')`
abbrev pub is_live : Time → Note → Bool
is_live now n = elim n.expires_at [ none ↦ true | some t ↦ ltb now t ]

unfoldable pub delete_expired : Time → NoteAction ℕ
delete_expired now = statement (λ (t : Table Note). (
  ok (length (select (is_expired now) t.rows)),
  with_rows (delete_where (is_expired now) t.rows) t,
))

abbrev rank : Text → ℕ
rank priority =
    if text_eq priority (codes "urgent")
    then 0
    else if text_eq priority (codes "normal")
    then 1
    else if text_eq priority (codes "fun")
    then 2
    else 3

abbrev pub more_urgent : Note → Note → Bool
more_urgent n m =
    ltb (rank n.priority) (rank m.priority)
    || (rank n.priority == rank m.priority && ltb m.created_at n.created_at)

abbrev pub listed_before : Note → Note → Bool
listed_before n m =
    (n.pinned && not m.pinned) || (not (m.pinned && not n.pinned) && more_urgent n m)

-- `List`; an error of the deletion is passed over.
unfoldable pub list_notes : Time → NoteAction (List Note)
list_notes now =
    otherwise 0 (delete_expired now)
    >> query (λ (t : Table Note). order_by listed_before (select (is_live now) t.rows))

unfoldable pub list_pinned : Time → NoteAction (List Note)
list_pinned now = query (λ (t : Table Note).
    order_by more_urgent (select (λ (n : Note). n.pinned && is_live now n) t.rows))

-- The trigger of the table keeps the time of an update.
unfoldable pub update :
    ℕ → Text → Text → Option ℕ → Bool → Text → Option Time → Time → NoteAction (Option Note)
update id title body author_id pinned priority expires_at now =
    exec (λ (t : Table Note).
      with_rows
        (update_where (has_id id)
          (λ (n : Note). record n {
            title = title;
            body = body;
            author_id = author_id;
            pinned = pinned;
            priority = priority;
            expires_at = expires_at;
            updated_at = now;
          })
          t.rows)
        t)
    >> get_by_id id

abbrev toggle : ℕ → Time → Option Note → NoteAction (Option Note)
toggle id now none = pure none
toggle id now (some note) =
    exec (λ (t : Table Note).
      with_rows
        (update_where (has_id id)
          (λ (n : Note). record n { pinned = not note.pinned; updated_at = now }) t.rows)
        t)
    >> get_by_id id

unfoldable pub toggle_pinned : ℕ → Time → NoteAction (Option Note)
toggle_pinned id now = get_by_id id >>= toggle id now

unfoldable pub delete : ℕ → NoteAction (Unit {0})
delete id = exec (λ (t : Table Note). with_rows (delete_where (has_id id) t.rows) t)
