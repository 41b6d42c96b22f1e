-- ===== src/Note/Shown.antt =====
-- internal/store/note.go: which notes are listed.
use gamwich.Prelude.{◌≡◌, inl, inr, true, List, [], All}
use gamwich.Prelude.Result.{Result, ok, err}
use gamwich.Calendar.{Time}
use mathlib.Core.Path.{subst}
use gamwich.Sql.{DbError, failed, or_value, Table, World, otherwise, query, select, order_by}
use gamwich.Sql.Faults.{query-cases}
use gamwich.Sql.Rows.{All-select, All-order_by}
use gamwich.Sql.Yields.{Yields, Yields->>}
use gamwich.Note.{Note, is_live, delete_expired, listed_before, list_notes}

query-Yields :
    (now : Time)
    → Yields
        (λ (ns : List Note). All (λ n. is_live now n ≡ true) ns)
        (query (λ (t : Table Note). order_by listed_before (select (is_live now) t.rows)))
query-Yields now =
    let f = λ (t : Table Note). order_by listed_before (select (is_live now) t.rows) in
    let Live = λ (n : Note). is_live now n ≡ true in
    record {
      yields = λ w ns e. elim (query-cases f w) [
        | inl x ↦
            let e' : ◌≡◌ {A = Result DbError (List Note)} (err failed) (ok ns) = rw x at e in cc
        | inr x ↦
            let e' : ◌≡◌ {A = Result DbError (List Note)} (ok (f w.0)) (ok ns) = rw x at e in
            subst (λ (r : Result DbError (List Note)). All Live (or_value [] r)) e'
              (All-order_by Live _ _ (All-select Live _ w.0.rows (λ n m h. h)))
      ];
    }

-- Whichever statements fail, the deletion of the expired notes included, a list that is returned has no
-- expired note.
pub list_notes-live :
    (now : Time) (w : World (Table Note)) (ns : List Note)
    → (list_notes now w).0 ≡ ok ns
    → All (λ (n : Note). is_live now n ≡ true) ns
unfolding list_notes
list_notes-live now w ns e =
    let P = λ (ns : List Note). All (λ n. is_live now n ≡ true) ns in
    (Yields->> P (otherwise 0 (delete_expired now)) _ (query-Yields now)).yields w ns e
