-- ===== src/Db/Rows.antt =====
-- db/core/Result.cpp: the rows and fields of a result. Results, rows and fields share one
-- state through shared pointers, which are empty in a default object or after a move.
mod Bounds
mod Examples
use rtl.Base.{
  ℕ, Bool, true, false, String, ◌<>◌, Option, none, some, Outcome, returns, throws, sleeps,
  undefined, ltb, leb, ◌&&◌, ◌==◌, if◌then◌else◌,
}
use rtl.Db.Errors.{Exception, query_exception, mapping_exception, out_of_range}
use rtl.Db.Pqxx.{Reply, got, failed}

-- A pqxx::result: its size, and what its functions say of a column or a field. A field is null or
-- has a text. Libpqxx does not check the indices of a field.
pub record PqxxResult : Type 0 where
  pub size : ℕ
  pub columns : ℕ
  pub column_name : ℕ → String
  pub column_number : String → Reply ℕ
  pub field : ℕ → ℕ → Option String

pub record Field : Type 0 where
  pub state : Option PqxxResult
  pub row_index : ℕ
  pub column_index : ℕ

pub record Row : Type 0 where
  pub state : Option PqxxResult
  pub row_index : ℕ

pub record Result : Type 0 where
  pub state : Option PqxxResult

abbrev pub throw_invalid_state : {A : Type 0} → String → Outcome Exception A
throw_invalid_state object_name =
    throws (query_exception (("Invalid " <> object_name) <> " state") none)

abbrev pub on_state :
    {A : Type 0}
    → String
    → Option PqxxResult
    → (PqxxResult → Outcome Exception A)
    → Outcome Exception A
on_state object_name none use_it = throw_invalid_state object_name
on_state object_name (some state) use_it = use_it state

-- Reads `result[row][column]`.
abbrev pub field_at :
    {A : Type 0} → Field → (PqxxResult → Outcome Exception A) → PqxxResult → Outcome Exception A
field_at f read r =
    if ltb f.row_index r.size && ltb f.column_index r.columns then read r else undefined

abbrev pub is_none : Option String → Bool
is_none none = true
is_none (some text) = false

-- The text of a field, empty for null.
abbrev pub text_of : Option String → String
text_of none = ""
text_of (some text) = text

abbrev pub value_of : Field → PqxxResult → Option String
value_of f r = r.field f.row_index f.column_index

unfoldable pub is_null : Field → Outcome Exception Bool
is_null f = on_state "field" f.state (field_at f λ r. returns (is_none (value_of f r)))

unfoldable pub name : Field → Outcome Exception String
name f = on_state "field" f.state (field_at f λ r. returns (r.column_name f.column_index))

unfoldable pub view : Field → Outcome Exception String
view f = on_state "field" f.state (field_at f λ r. returns (text_of (value_of f r)))

abbrev pub converted : {T : Type 0} → String → Reply T → Outcome Exception T
converted target_type (got x) = returns x
converted target_type (failed ex) =
    throws (mapping_exception ((("Failed to convert field to " <> target_type) <> ": ") <> ex.what))

-- `as_int64`, `as_double`, `as_string` and `as_bool`: `as` is the conversion of libpqxx.
unfoldable pub convert_field :
    {T : Type 0} → (Option String → Reply T) → String → Field → Outcome Exception T
convert_field conversion target_type f =
    on_state "field" f.state (field_at f λ r. converted target_type (conversion (value_of f r)))

unfoldable pub row_size : Row → Outcome Exception ℕ
row_size row = on_state "row" row.state λ r. returns r.columns

abbrev pub is_got : {A : Type 0} → Reply A → Bool
is_got (got a) = true
is_got (failed ex) = false

unfoldable pub contains : Row → String → Outcome Exception Bool
contains row column = on_state "row" row.state λ r. returns (is_got (r.column_number column))

abbrev pub field_of : PqxxResult → ℕ → ℕ → Field
field_of r i j = record { state = some r; row_index = i; column_index = j }

-- `Row::operator[]` of an index.
unfoldable pub column_at : Row → ℕ → Outcome Exception Field
column_at row index = on_state "row" row.state λ r.
    if leb r.columns index
    then throws (out_of_range "Column index out of bounds")
    else returns (field_of r row.row_index index)

abbrev pub numbered : PqxxResult → ℕ → String → Reply ℕ → Outcome Exception Field
numbered r i column_name (got j) = returns (field_of r i j)
numbered r i column_name (failed ex) =
    throws (query_exception ((("Column not found: " <> column_name) <> ": ") <> ex.what) none)

-- `Row::operator[]` of a name.
unfoldable pub column_named : Row → String → Outcome Exception Field
column_named row column_name =
    on_state "row" row.state λ r. numbered r row.row_index column_name (r.column_number column_name)

unfoldable pub valid : Result → Bool
valid result = elim result.state [ none ↦ false | some r ↦ true ]

unfoldable pub size : Result → Outcome Exception ℕ
size result = on_state "result" result.state λ r. returns r.size

unfoldable pub empty : Result → Outcome Exception Bool
empty result = on_state "result" result.state λ r. returns (r.size == 0)

-- `Result::operator[]`.
unfoldable pub row_at : Result → ℕ → Outcome Exception Row
row_at result index = on_state "result" result.state λ r.
    if leb r.size index
    then throws (out_of_range "Row index out of bounds")
    else returns record { state = some r; row_index = index }

-- Copies share the state; a move leaves the source without one. First the target, then the source.
unfoldable pub copy : Result → Result × Result
copy rhs = (rhs, rhs)

unfoldable pub move : Result → Result × Result
move rhs = (rhs, record { state = none })

-- The assignments, whose argument may be the object itself.
unfoldable pub copy_assign : Bool → Result → Result → Result × Result
copy_assign is_self lhs rhs = if is_self then (lhs, lhs) else (rhs, rhs)

unfoldable pub move_assign : Bool → Result → Result → Result × Result
move_assign is_self lhs rhs = if is_self then (lhs, lhs) else (rhs, record { state = none })

-- One call after another.
infixl 5 ◌then_call◌
abbrev pub ◌then_call◌ :
    {A B : Type 0} → Outcome Exception A → (A → Outcome Exception B) → Outcome Exception B
returns a then_call f = f a
throws e then_call f = throws e
sleeps then_call f = sleeps
undefined then_call f = undefined
