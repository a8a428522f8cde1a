-- ===== src/Database/Rows.antt =====
-- One row is read as it is; of two, `query` loses its place.
use login_server.Base.{
  ◌+◌, ◌<◌, ◌≡◌, refl, ap, ◌∙◌, none, some, List, [], ◌∷◌, ◌++◌, length, map, arith, append_assoc,
  append-nil, ap₂, length-append, sym,
}
use login_server.Database.{Text, Row, column, read_fields, query_rows, test_rows}

-- A row with a text in each column.
abbrev pub full : List Text → Row
full = map some

column-last :
    (before : List Text) (text : Text) (after : List Text)
    → column (full (before ++ (text ∷ after))) (length before) ≡ some (some text)
unfolding column
column-last [] text after = refl
column-last (b ∷ before) text after = column-last before text after

column-end : (row : List Text) → column (full row) (length row) ≡ none
unfolding column
column-end [] = refl
column-end (b ∷ row) = column-end row

read_fields_lem :
    (before texts fields : List Text)
    → length texts ≡ length fields
    → read_fields (full (before ++ texts)) (length before) fields
      ≡ some (length (before ++ texts), texts)
unfolding read_fields
read_fields_lem before [] [] h = ap (λ b. some (length b, [])) (sym (append-nil before))
read_fields_lem before [] (f ∷ fields) h = absurd (omega arith)
read_fields_lem before (t ∷ texts) [] h = absurd (omega arith)
read_fields_lem before (t ∷ texts) (f ∷ fields) h =
    let whole : (before ++ (t ∷ [])) ++ texts ≡ before ++ (t ∷ texts) =
      append_assoc before (t ∷ []) texts in
    let next : read_fields (full (before ++ (t ∷ texts))) (length before + 1) fields
        ≡ some (length (before ++ (t ∷ texts)), texts) =
      ap₂ (λ row n. read_fields (full row) n fields) (sym whole)
        (sym (length-append before (t ∷ [])))
      ∙ read_fields_lem (before ++ (t ∷ [])) texts fields (omega arith)
      ∙ ap (λ row. some (length row, texts)) whole in
    rw (column-last before t texts, next) refl

-- From the end of a row on, nothing can be read into a field.
read_fields-end :
    (row fields : List Text) → 0 < length fields → read_fields (full row) (length row) fields ≡ none
unfolding read_fields
read_fields-end row [] h = absurd (omega arith)
read_fields-end row (f ∷ fields) h = rw (column-end row) refl

-- For at least one field and rows with a text in as many columns: of an answer of one row, `query` and
-- `testFunc` both put its texts into the fields in order; of an answer of two rows `testFunc` keeps
-- the second, and `query`, whatever follows, reads behind the end of the second.
pub query_rows-test_rows :
    (texts next fields : List Text) (rows : List Row)
    → 0 < length fields
    → length texts ≡ length fields
    → length next ≡ length fields
    → (query_rows (full texts ∷ []) 0 fields ≡ some texts)
      × (test_rows (full texts ∷ []) fields ≡ some texts)
      × (test_rows (full texts ∷ full next ∷ []) fields ≡ some next)
      × (query_rows (full texts ∷ full next ∷ rows) 0 fields ≡ none)
unfolding query_rows test_rows
query_rows-test_rows texts next fields rows some_fields h k =
    let one = read_fields_lem [] texts fields h in
    let two = read_fields_lem [] next texts (k ∙ sym h) in
    let behind : read_fields (full next) (length texts) texts ≡ none =
      ap (λ n. read_fields (full next) n texts) (h ∙ sym k)
      ∙ read_fields-end next texts (omega arith) in
    (rw one refl, rw one refl, rw (one, two) refl, rw (one, behind) refl)
