-- ===== src/Db/Rows/Bounds.antt =====
-- Reading a result of db/core/Result.cpp by its indices and by its names of columns.
use rtl.Base.{
  ℕ, ◌≡◌, ◌<◌, ◌⊎◌, refl, inl, inr, String, ◌<>◌, Option, none, some, Outcome, throws, leb, arith,
  if◌then◌else◌,
}
use rtl.Db.Errors.{Exception, query_exception, out_of_range}
use rtl.Db.Pqxx.{PqxxException, Reply, got, failed}
use rtl.Db.Rows.{PqxxResult, converted, convert_field, column_at, column_named, row_at, ◌then_call◌}

-- What reading a field is to give, by the table alone.
abbrev pub due :
    {T : Type 0} → (Option String → Reply T) → String → PqxxResult → ℕ → ℕ → Outcome Exception T
due conversion target r i j =
    if leb r.size i
    then throws (out_of_range "Row index out of bounds")
    else if leb r.columns j
    then throws (out_of_range "Column index out of bounds")
    else converted target (conversion (r.field i j))

convert_field-at :
    {T : Type 0} (conversion : Option String → Reply T) (target : String) (r : PqxxResult)
    → (i j : ℕ)
    → (row_at record { state = some r } i
        then_call (λ row. column_at row j)
        then_call convert_field conversion target)
      ≡ due conversion target r i j
unfolding row_at column_at convert_field
convert_field-at conversion target r i j = ground arith

-- The same of a column's name.
abbrev pub due_of_name :
    {T : Type 0}
    → (Option String → Reply T)
    → String
    → PqxxResult
    → ℕ
    → String
    → Reply ℕ
    → Outcome Exception T
due_of_name conversion target r i column_name (got j) = due conversion target r i j
due_of_name conversion target r i column_name (failed ex) =
    if leb r.size i
    then throws (out_of_range "Row index out of bounds")
    else throws (query_exception ((("Column not found: " <> column_name) <> ": ") <> ex.what) none)

Reply-cases :
    {A : Type 0} (o : Reply A) → ((a : A) × (o ≡ got a)) ⊎ ((ex : PqxxException) × (o ≡ failed ex))
Reply-cases (got a) = inl (a, refl)
Reply-cases (failed ex) = inr (ex, refl)

convert_field-named :
    {T : Type 0} (conversion : Option String → Reply T) (target : String) (r : PqxxResult)
    → (i : ℕ) (column_name : String)
    → ((n : String) (j : ℕ) → r.column_number n ≡ got j → j < r.columns)
    → (row_at record { state = some r } i
        then_call (λ row. column_named row column_name)
        then_call convert_field conversion target)
      ≡ due_of_name conversion target r i column_name (r.column_number column_name)
unfolding row_at column_named convert_field
convert_field-named conversion target r i column_name bounded =
    elim (Reply-cases (r.column_number column_name)) [
      | inl (j, e) ↦ let within = bounded column_name j e in ground arith
      | inr (ex, e) ↦ ground arith
    ]

-- A field that is read of a result by its row's index, and by its column's index or name, is the
-- one of the table, converted. An index that is out of bounds throws out_of_range, a name that no
-- column has a query error, and a conversion that fails a mapping error: libpqxx is never asked for
-- a field that is not there, if the number that it gives for a name is one of a column.
pub convert_field-due :
    {T : Type 0} (conversion : Option String → Reply T) (target : String) (r : PqxxResult)
    → (i j : ℕ) (column_name : String)
    → ((n : String) (k : ℕ) → r.column_number n ≡ got k → k < r.columns)
    → let row = row_at record { state = some r } i in
      ((row then_call (λ w. column_at w j) then_call convert_field conversion target)
        ≡ due conversion target r i j)
      × ((row then_call (λ w. column_named w column_name) then_call convert_field conversion target)
          ≡ due_of_name conversion target r i column_name (r.column_number column_name))
convert_field-due conversion target r i j column_name bounded = (
  convert_field-at conversion target r i j,
  convert_field-named conversion target r i column_name bounded,
)
