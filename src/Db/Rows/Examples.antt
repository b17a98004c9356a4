-- ===== src/Db/Rows/Examples.antt =====
-- A result on concrete inputs.
use text.Mathlib.Text.{◌==◌ as str_eq}
use rtl.Base.{
  ℕ, zero, suc, ◌≡◌, ◌<◌, Bool, true, false, String, Option, none, some, returns, throws, arith,
}
use rtl.Db.Errors.{out_of_range}
use rtl.Db.Pqxx.{PqxxException, Reply, got, failed}
use rtl.Db.Rows.{PqxxResult, row_at, column_at, column_named, convert_field, ◌then_call◌}
use rtl.Db.Rows.Bounds.{convert_field-due}

abbrev no_column : PqxxException
no_column = record { what = "no such column"; sqlstate = ""; is_a = λ c. false }

abbrev number_of : Bool → Reply ℕ
number_of true = got 0
number_of false = failed no_column

-- One column, id, with two rows; the second is null.
abbrev ids : PqxxResult
ids = record {
  size = 2;
  columns = 1;
  column_name = λ j. "id";
  column_number = λ n. number_of (str_eq n "id");
  field = λ i j. elim i [ zero ↦ some "7" | suc k ↦ none ];
}

number_of-lt : (b : Bool) (k : ℕ) → number_of b ≡ got k → k < 1
number_of-lt true k h = ground arith
number_of-lt false k h = ground arith

-- `as_string`, which refuses null.
abbrev as_string : Option String → Reply String
as_string none = failed (record no_column { what = "null" })
as_string (some text) = got text

convert_field-due_example :
    let row = row_at record { state = some ids } 0 in
    ((row then_call (λ w. column_at w 1) then_call convert_field as_string "string")
      ≡ throws (out_of_range "Column index out of bounds"))
    × ((row then_call (λ w. column_named w "id") then_call convert_field as_string "string")
        ≡ returns "7")
convert_field-due_example =
    convert_field-due as_string "string" ids 0 1 "id" (λ n k h. number_of-lt (str_eq n "id") k h)
