-- ===== src/Tests/DatabaseTests.antt =====
-- Answers of the database with one field, for loginServer/lib/mysql connector/mysqlConnector.cpp.
use login_server.Base.{◌≡◌, refl, arith, none, some, [], ◌∷◌}
use login_server.Database.{Text, query_rows, test_rows, read_fields, column}
use login_server.Database.Rows.{full, query_rows-test_rows}

abbrev first_key : Text
first_key = 97 ∷ 98 ∷ []

abbrev second_key : Text
second_key = 99 ∷ []

-- A null in the first column is read again for the second field.
reads_null : query_rows ((none ∷ some first_key ∷ []) ∷ []) 0 ([] ∷ [] ∷ []) ≡ some ([] ∷ [] ∷ [])
unfolding query_rows read_fields column
reads_null = refl

query_rows-test_rows_example :
    (query_rows (full (first_key ∷ []) ∷ []) 0 ([] ∷ []) ≡ some (first_key ∷ []))
    × (test_rows (full (first_key ∷ []) ∷ []) ([] ∷ []) ≡ some (first_key ∷ []))
    × (test_rows (full (first_key ∷ []) ∷ full (second_key ∷ []) ∷ []) ([] ∷ [])
        ≡ some (second_key ∷ []))
    × (query_rows (full (first_key ∷ []) ∷ full (second_key ∷ []) ∷ []) 0 ([] ∷ []) ≡ none)
query_rows-test_rows_example =
    query_rows-test_rows (first_key ∷ []) (second_key ∷ []) ([] ∷ []) [] (omega arith) refl refl
