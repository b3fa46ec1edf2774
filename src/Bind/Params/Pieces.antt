-- ===== src/Bind/Params/Pieces.antt =====
-- A query cut into what is copied and the placeholders, with no buffer: the reference for bindNumeric
-- and bindNamed.
use clickhouse_go.Common.{
  ℕ, zero, suc, Bool, not, ◌&&◌, List, [], ◌∷◌, ◌++◌, Option, none, some, ◌==◌, if◌then◌else◌,
  length,
}
use clickhouse_go.Bind.Quote.{Bytes, QuoteState, in_protected_context, update}
use clickhouse_go.Bind.Params.{
  Ahead, second, name_left, ahead_of, ParamMap, lookup, take_name, starts_name,
}

pub data Piece : Type 0 where
  lit : ℕ → Piece
  param : Bytes → Piece

unfoldable pub pieces : ℕ → (ℕ → Bool) → Ahead → Bytes → QuoteState → Bytes → List Piece
pieces mark is_char ahead before s [] = []
pieces mark is_char second before s (c ∷ rest) =
    lit c ∷ pieces mark is_char (name_left 0) (c ∷ before) s rest
pieces mark is_char (name_left (suc k)) before s (c ∷ rest) =
    pieces mark is_char (name_left k) (c ∷ before) s rest
pieces mark is_char (name_left zero) before s (c ∷ rest) =
    let name = take_name is_char rest in
    let here =
      param (c ∷ name) ∷ pieces mark is_char (name_left (length name)) (c ∷ before) s rest in
    let (s', two) = update s before c rest in
    let there = lit c ∷ pieces mark is_char (ahead_of two) (c ∷ before) s' rest in
    if not (in_protected_context s) && c == mark && starts_name is_char rest then here else there

abbrev pub unless_found : Option Bytes → Bytes → List Bytes → List Bytes
unless_found none name names = name ∷ names
unless_found (some v) name names = names

-- The names that the map lacks, in order.
abbrev pub missing : ParamMap → List Piece → List Bytes
missing m [] = []
missing m (lit c ∷ ps) = missing m ps
missing m (param name ∷ ps) = unless_found (lookup name m) name (missing m ps)

abbrev pub value_or_nothing : Option Bytes → Bytes → Bytes
value_or_nothing none out = out
value_or_nothing (some v) out = v ++ out

-- The text with the values put in, and nothing for a name that the map lacks.
abbrev pub splice : ParamMap → List Piece → Bytes
splice m [] = []
splice m (lit c ∷ ps) = c ∷ splice m ps
splice m (param name ∷ ps) = value_or_nothing (lookup name m) (splice m ps)
