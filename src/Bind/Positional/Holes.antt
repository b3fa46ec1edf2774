-- ===== src/Bind/Positional/Holes.antt =====
-- bindPositional: the query cut by modes, which is the cut of its pieces by the scanner's flags.
use clickhouse_go.Common.{
  ℕ, Bool, true, false, not, ◌&&◌, List, [], ◌∷◌, ◌==◌, ◌≡◌, refl, arith, if◌then◌else◌,
}
use clickhouse_go.Bind.Quote.{Bytes, in_identifier_or_comment, next_is, last_is}
use clickhouse_go.Bind.Modes.{
  Mode, plain, backtick, single, double, line, block, is_plain, scan, state_of, update-scan,
}
use clickhouse_go.Bind.Positional.Pieces.{Piece, lit, hole, escapes, cut_question, pieces}

-- Plain text, or a string literal.
abbrev is_text : Mode → Bool
is_text plain = true
is_text single = true
is_text backtick = false
is_text double = false
is_text line = false
is_text (block n) = false

-- A `?` in plain text with no backslash before it is a hole, and in plain text and in strings a
-- backslash just before a `?` is not copied.
abbrev pub holes : (skip : Bool) → Bytes → Mode → Bytes → List Piece
holes skip before m [] = []
holes true before m (c ∷ rest) =
    let tail = holes false (c ∷ before) m rest in
    if c == b'\\' && next_is b'?' rest && is_text m then tail else lit c ∷ tail
holes false before m (c ∷ rest) =
    let mark = if is_plain m && not (last_is b'\\' before) then hole else lit b'?' in
    let here = mark ∷ holes false (c ∷ before) m rest in
    let r = scan m before c rest in
    let tail = holes r.1 (c ∷ before) r.0 rest in
    if c == b'?'
    then here
    else (if c == b'\\' && next_is b'?' rest && is_text r.0 then tail else lit c ∷ tail)

escapes-text :
    (m : Mode) (c : ℕ) (rest : Bytes)
    → escapes (state_of m) c rest ≡ (c == b'\\' && next_is b'?' rest && is_text m)
unfolding in_identifier_or_comment
escapes-text plain c rest = refl
escapes-text backtick c rest = refl
escapes-text single c rest = refl
escapes-text double c rest = refl
escapes-text line c rest = refl
escapes-text (block n) c rest = ground arith

cut_question-mark :
    (m : Mode) (before : Bytes)
    → cut_question before (state_of m)
      ≡ (if is_plain m && not (last_is b'\\' before) then hole else lit b'?')
unfolding in_identifier_or_comment
cut_question-mark plain before = ground arith
cut_question-mark backtick before = refl
cut_question-mark single before = ground arith
cut_question-mark double before = refl
cut_question-mark line before = refl
cut_question-mark (block n) before = ground arith

pub pieces-holes :
    (skip : Bool) (before : Bytes) (m : Mode) (q : Bytes)
    → pieces skip before (state_of m) q ≡ holes skip before m q
unfolding pieces
pieces-holes true before m [] = refl
pieces-holes false before m [] = refl
pieces-holes true before m (c ∷ rest) =
    rw (escapes-text m c rest, pieces-holes false (c ∷ before) m rest) refl
pieces-holes false before m (c ∷ rest) =
    let r = scan m before c rest in
    rw
      (
        update-scan m before c rest,
        cut_question-mark m before,
        escapes-text r.0 c rest,
        pieces-holes false (c ∷ before) m rest,
        pieces-holes r.1 (c ∷ before) r.0 rest,
      )
      refl
