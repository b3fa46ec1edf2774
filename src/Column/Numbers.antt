-- ===== src/Column/Numbers.antt =====
-- A column of numbers, each of which is a byte of its wire, for the tests of the columns over columns.
use clickhouse_go.Common.{
  ℕ, zero, suc, List, [], ◌∷◌, ◌++◌, none, inl, false, length, ◌≡◌, refl, ap,
}
use clickhouse_go.Block.{Bytes, Read, Reader, done, failed, ColumnOps}

abbrev pub cons_read : ℕ → Read ℕ Bytes → Read ℕ Bytes
cons_read c (done s rest) = done (c ∷ s) rest
cons_read c (failed e) = failed e

abbrev pub some_numbers : ℕ → Reader ℕ Bytes
some_numbers zero input = done [] input
some_numbers (suc n) [] = failed 1
some_numbers (suc n) (c ∷ input) = cons_read c (some_numbers n input)

pub some_numbers_lem : (ns rest : Bytes) → some_numbers (length ns) (ns ++ rest) ≡ done ns rest
some_numbers_lem [] rest = refl
some_numbers_lem (n ∷ ns) rest = ap (cons_read n) (some_numbers_lem ns rest)

abbrev pub numbers : ColumnOps (List ℕ) ℕ ℕ
numbers = record {
  make = λ name kind. inl [];
  name_of = λ c. [];
  type_of = λ c. [];
  rows = λ c. length c;
  append_row = λ v c. (c ++ v ∷ [], none);
  is_custom = λ c. false;
  write_state_prefix = λ c. ([], none);
  read_state_prefix = λ c. done c;
  encode = λ c. (c, c);
  decode = λ n c. some_numbers n;
  reset = λ c. [];
}
