-- ===== src/Bind/Modes.antt =====
-- bind.go: what bindQuoteState tracks, said once more without its flags: a text is plain, or inside
-- one kind of quotes or comment at a time. The references for binding read a query in this way.
use clickhouse_go.Common.{
  ℕ, zero, suc, ◌+◌, Bool, true, false, not, ◌&&◌, ◌||◌, [], ◌∷◌, ltb, ◌==◌, ◌≡◌, refl, arith,
  if◌then◌else◌,
}
use clickhouse_go.Bind.Quote.{
  Bytes, QuoteState, raw, in_protected_context, is_escaped, next_is, update, backslashes, is_digit,
  is_name_char,
}

-- `block n` is inside n + 1 nested block comments.
pub data Mode : Type 0 where
  plain : Mode
  backtick : Mode
  single : Mode
  double : Mode
  line : Mode
  block : ℕ → Mode

abbrev pub is_plain : Mode → Bool
is_plain plain = true
is_plain backtick = false
is_plain single = false
is_plain double = false
is_plain line = false
is_plain (block n) = false

-- An odd number of backslashes stands just before.
abbrev odd_slashes : Bytes → Bool
odd_slashes [] = false
odd_slashes (c ∷ before) = c == b'\\' && not (odd_slashes before)

-- The mode behind a byte, and whether the byte behind it belongs to it.
abbrev opening : ℕ → Bytes → Mode × Bool
opening c rest =
    if c == b'`'
    then (backtick, false)
    else if c == b'\''
    then (single, false)
    else if c == b'"'
    then (double, false)
    else if c == b'#'
    then (line, false)
    else if c == b'-' && next_is b'-' rest
    then (line, true)
    else if c == b'/' && next_is b'*' rest
    then (block 0, true)
    else (plain, false)

-- A quote that is not escaped closes, and two of them are one that does not.
abbrev inside_quotes : ℕ → Mode → Bytes → ℕ → Bytes → Mode × Bool
inside_quotes quote m before c rest =
    if c == quote && not (odd_slashes before)
    then if next_is quote rest then (m, true) else (plain, false)
    else (m, false)

abbrev pub closing : ℕ → Mode
closing zero = plain
closing (suc n) = block n

abbrev pub scan : Mode → Bytes → ℕ → Bytes → Mode × Bool
scan plain before c rest = if odd_slashes before then (plain, false) else opening c rest
scan backtick before c rest = inside_quotes b'`' backtick before c rest
scan single before c rest = inside_quotes b'\'' single before c rest
scan double before c rest = inside_quotes b'"' double before c rest
scan line before c rest = ((if c == b'\n' then plain else line), false)
scan (block n) before c rest =
    if c == b'/' && next_is b'*' rest
    then (block (n + 1), true)
    else if c == b'*' && next_is b'/' rest
    then (closing n, true)
    else (block n, false)

-- The flags of a mode.
abbrev pub state_of : Mode → QuoteState
state_of plain = raw
state_of backtick = record raw { in_backtick = true }
state_of single = record raw { in_single = true }
state_of double = record raw { in_double = true }
state_of line = record raw { in_line_comment = true }
state_of (block n) = record raw { block_comment = n + 1 }

is_escaped-odd : (before : Bytes) → is_escaped before ≡ odd_slashes before
unfolding is_escaped backslashes
is_escaped-odd [] = refl
is_escaped-odd (c ∷ before) = ground (arith, is_escaped-odd before)

pub update-scan :
    (m : Mode) (before : Bytes) (c : ℕ) (rest : Bytes)
    → update (state_of m) before c rest
      ≡ (state_of (scan m before c rest).0, (scan m before c rest).1)
unfolding update
update-scan plain before c rest = rw (is_escaped-odd before) ground arith
update-scan backtick before c rest = rw (is_escaped-odd before) ground arith
update-scan single before c rest = rw (is_escaped-odd before) ground arith
update-scan double before c rest = rw (is_escaped-odd before) ground arith
update-scan line before c rest = ground arith
update-scan (block zero) before c rest = ground arith
update-scan (block (suc n)) before c rest = ground arith

pub protected-plain : (m : Mode) → not (in_protected_context (state_of m)) ≡ is_plain m
unfolding in_protected_context
protected-plain plain = refl
protected-plain backtick = refl
protected-plain single = refl
protected-plain double = refl
protected-plain line = refl
protected-plain (block n) = ground arith

-- The characters of the names of placeholders.
abbrev pub digit : ℕ → Bool
digit c = ltb 47 c && ltb c 58

abbrev pub word : ℕ → Bool
word c = digit c || (ltb 64 c && ltb c 91) || (ltb 96 c && ltb c 123) || c == 95

pub is_digit-digit : (c : ℕ) → is_digit c ≡ digit c
unfolding is_digit
is_digit-digit c = ground arith

pub is_name_char-word : (c : ℕ) → is_name_char c ≡ word c
unfolding is_name_char
is_name_char-word c = ground arith
