-- ===== src/Bind/Positional/Pieces.antt =====
-- A query cut into what is copied and where an argument goes, with no buffer: the reference for
-- bindPositional.
use clickhouse_go.Common.{
  ℕ, ◌+◌, Bool, true, false, not, ◌&&◌, List, [], ◌∷◌, ◌++◌, ltb, ◌==◌, if◌then◌else◌,
}
use clickhouse_go.Bind.Quote.{Bytes, QuoteState, in_identifier_or_comment, next_is, last_is, update}
use clickhouse_go.Bind.Errors.{no_arg_at, Result, ok, err, after, map_ok}

pub data Piece : Type 0 where
  lit : ℕ → Piece
  hole : Piece

-- A backslash that stands for the '?' behind it: raw text or a string literal.
abbrev pub escapes : QuoteState → ℕ → Bytes → Bool
escapes s c rest = c == b'\\' && next_is b'?' rest && not (in_identifier_or_comment s)

abbrev pub cut_question : Bytes → QuoteState → Piece
cut_question before s =
    if in_identifier_or_comment s
    then lit b'?'
    else if last_is b'\\' before
    then lit b'?'
    else if s.in_single
    then lit b'?'
    else hole

unfoldable pub pieces : (skip : Bool) → Bytes → QuoteState → Bytes → List Piece
pieces skip before s [] = []
pieces true before s (c ∷ rest) =
    let tail = pieces false (c ∷ before) s rest in if escapes s c rest then tail else lit c ∷ tail
pieces false before s (c ∷ rest) =
    let here = cut_question before s ∷ pieces false (c ∷ before) s rest in
    let (s', two) = update s before c rest in
    let tail = pieces two (c ∷ before) s' rest in
    if c == b'?' then here else (if escapes s' c rest then tail else lit c ∷ tail)

module _ {Arg E : Type 0} (format_arg : Arg → Result E Bytes) where
  -- The pieces with the arguments put in, and `missing` holes before them left empty.
  unfoldable pub fill : List Piece → List Arg → ℕ → Result E Bytes
  fill [] args missing = if ltb 0 missing then err (no_arg_at missing) else ok []
  fill (lit c ∷ ps) args missing = map_ok (λ out. c ∷ out) (fill ps args missing)
  fill (hole ∷ ps) [] missing = fill ps [] (missing + 1)
  fill (hole ∷ ps) (a ∷ as_) missing =
      after (format_arg a) λ value. map_ok (λ out. value ++ out) (fill ps as_ missing)
