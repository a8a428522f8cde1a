-- ===== src/Database.antt =====
-- loginServer/lib/mysql connector/mysqlConnector.cpp and dbQuery.cpp: how the rows of an answer become
-- the fields of a `dbResult`, and the loop that connects and asks. The MySQL client is another library:
-- what it answers is an argument. A text is the list of its bytes.
pub mod Rows
pub mod Connect
use login_server.Base.{
  ℕ, zero, suc, ◌+◌, Bool, true, false, Option, none, some, List, [], ◌∷◌, ◌>>=◌,
}

abbrev pub Text : Type 0
Text = List ℕ

-- `MYSQL_ROW`: an array of pointers, of which `none` is a null pointer.
abbrev pub Row : Type 0
Row = List (Option Text)

-- `sql_row[index]`; the outer `none` is an access behind the end of the row.
unfoldable pub column : Row → ℕ → Option (Option Text)
column [] i = none
column (c ∷ row) zero = some c
column (c ∷ row) (suc i) = column row i

-- The loop over the fields of the result, in the order of its map, from `index` on.
unfoldable pub read_fields : Row → ℕ → List Text → Option (ℕ × List Text)
read_fields row index [] = some (index, [])
read_fields row index (field ∷ fields) = column row index >>= λ c. elim c [
  | none ↦ read_fields row index fields >>= λ (j, texts). some (j, [] ∷ texts)
  | some text ↦ read_fields row (index + 1) fields >>= λ (j, texts). some (j, text ∷ texts)
]

-- The loop over the rows in `query`, which sets `index` only before the first one.
unfoldable pub query_rows : List Row → ℕ → List Text → Option (List Text)
query_rows [] index fields = some fields
query_rows (row ∷ rows) index fields =
    read_fields row index fields >>= λ (j, texts). query_rows rows j texts

-- The loop over the rows in `testFunc`, which sets it before each row.
unfoldable pub test_rows : List Row → List Text → Option (List Text)
test_rows [] fields = some fields
test_rows (row ∷ rows) fields = read_fields row 0 fields >>= λ (j, texts). test_rows rows texts
