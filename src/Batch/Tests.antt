-- ===== src/Batch/Tests.antt =====
-- A batch of numbers at small inputs: 0 is refused by the block.
use clickhouse_go.Common.{
  ℕ, false, List, [], ◌∷◌, ◌++◌, none, some, ◌≡◌, inl, length, ◌==◌, if◌then◌else◌,
}
use clickhouse_go.Batch.{BlockOps, Wire, new_batch, abort, close, send}
use clickhouse_go.Batch.Held.{given_back}
use clickhouse_go.Batch.Calls.{Call, call_append, call_flush, run, run-settled}

abbrev numbers : BlockOps (List ℕ) ℕ ℕ
numbers = record {
  append = λ block v. if v == 0 then (block, some v) else (block ++ v ∷ [], none);
  rows = λ block. length block;
  reset = λ block. [];
  columns = λ block. 1;
  append_column = λ block idx v. (block ++ v ∷ [], none);
}

-- The connection breaks when data is sent; another one, 8, would be given.
abbrev broken : Wire ℕ
broken = record {
  acquire = inl 8;
  send_query = none;
  first_block = none;
  send_data = some 32;
  send_empty = none;
  process = none;
  ctx_err = none;
  is_broken = λ e. e == 32;
}

abbrev calls : List (Call ℕ ℕ)
calls = call_append 5 ∷ call_flush broken ∷ call_flush broken ∷ []

settled_broken :
    let b = run numbers (new_batch 7 [] false) calls in
    ((close broken b).0.acquired ≡ given_back (close broken b).0)
    × ((send numbers broken b).0.acquired ≡ given_back (send numbers broken b).0)
    × ((abort b).0.acquired ≡ given_back (abort b).0)
settled_broken = run-settled numbers 7 [] false calls broken
