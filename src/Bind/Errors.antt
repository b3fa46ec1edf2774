-- ===== src/Bind/Errors.antt =====
-- bind.go: how binding ends. `E` is the type of the errors of format, Valuer included.
use clickhouse_go.Common.{ℕ, List}
use clickhouse_go.Bind.Quote.{Bytes}

pub data BindError (E : Type 0) : Type 0 where
  mixed_params_formats : BindError E
  bad_value : E → BindError E
  no_arg_at : ℕ → BindError E
  no_arg_for : List Bytes → BindError E

pub data Result (E A : Type 0) : Type 0 where
  ok : A → Result E A
  err : BindError E → Result E A

module _ {E : Type 0} where
  -- What follows a step that went well.
  abbrev pub after : {A B : Type 0} → Result E A → (A → Result E B) → Result E B
  after (ok a) f = f a
  after (err e) f = err e

  abbrev pub map_ok : {A B : Type 0} → (A → B) → Result E A → Result E B
  map_ok f (ok a) = ok (f a)
  map_ok f (err e) = err e
