-- ===== src/Bind/Quote.antt =====
-- bind.go: bindQuoteState, isEscaped and the byte classes. `update` answers the new state and
-- whether the byte behind the one at `pos` is consumed too, where the source returns pos + 1.
use clickhouse_go.Common.{
  ℕ, ◌+◌, ◌-◌, ◌%◌, Bool, true, false, not, ◌&&◌, ◌||◌, List, [], ◌∷◌, ltb, leb, ◌==◌,
  if◌then◌else◌,
}

abbrev pub Bytes : Type 0
Bytes = List ℕ

-- The fields of bindQuoteState; the depth is an int that never goes below 0.
pub record QuoteState : Type 0 where
  pub in_backtick : Bool
  pub in_single : Bool
  pub in_double : Bool
  pub in_line_comment : Bool
  pub block_comment : ℕ

abbrev pub raw : QuoteState
raw = record {
  in_backtick = false;
  in_single = false;
  in_double = false;
  in_line_comment = false;
  block_comment = 0;
}

unfoldable pub in_protected_context : QuoteState → Bool
in_protected_context s =
    s.in_backtick || s.in_single || s.in_double || s.in_line_comment || ltb 0 s.block_comment

unfoldable pub in_identifier_or_comment : QuoteState → Bool
in_identifier_or_comment s =
    s.in_backtick || s.in_double || s.in_line_comment || ltb 0 s.block_comment

-- The backslashes just before a position.
unfoldable pub backslashes : Bytes → ℕ
backslashes [] = 0
backslashes (c ∷ before) = if c == b'\\' then backslashes before + 1 else 0

unfoldable pub is_escaped : Bytes → Bool
unfolding backslashes
is_escaped before = backslashes before % 2 == 1

-- pos+1 < len(query) && query[pos+1] == ch
abbrev pub next_is : ℕ → Bytes → Bool
next_is ch [] = false
next_is ch (c ∷ rest) = c == ch

-- pos > 0 && query[pos-1] == ch
abbrev pub last_is : ℕ → Bytes → Bool
last_is ch [] = false
last_is ch (c ∷ before) = c == ch

unfoldable pub is_digit : ℕ → Bool
is_digit ch = leb b'0' ch && leb ch b'9'

unfoldable pub is_name_char : ℕ → Bool
is_name_char ch =
    ch == b'_'
    || leb b'0' ch && leb ch b'9'
    || leb b'a' ch && leb ch b'z'
    || leb b'A' ch && leb ch b'Z'

-- A byte inside quotes: `closed` is the state without them.
unfoldable pub update_quoted : ℕ → QuoteState → QuoteState → Bytes → ℕ → Bytes → QuoteState × Bool
unfolding is_escaped
update_quoted quote s closed before c rest =
    if c == quote && not (is_escaped before)
    then if next_is quote rest then (s, true) else (closed, false)
    else (s, false)

unfoldable pub update_block : QuoteState → ℕ → Bytes → QuoteState × Bool
update_block s c rest =
    if c == b'/' && next_is b'*' rest
    then (record s { block_comment = s.block_comment + 1 }, true)
    else if c == b'*' && next_is b'/' rest
    then (record s { block_comment = s.block_comment - 1 }, true)
    else (s, false)

unfoldable pub update_raw : QuoteState → ℕ → Bytes → QuoteState × Bool
update_raw s c rest =
    if c == b'`'
    then (record s { in_backtick = true }, false)
    else if c == b'\''
    then (record s { in_single = true }, false)
    else if c == b'"'
    then (record s { in_double = true }, false)
    else if c == b'#'
    then (record s { in_line_comment = true }, false)
    else if c == b'-' && next_is b'-' rest
    then (record s { in_line_comment = true }, true)
    else if c == b'/' && next_is b'*' rest
    then (record s { block_comment = s.block_comment + 1 }, true)
    else (s, false)

unfoldable pub update : QuoteState → Bytes → ℕ → Bytes → QuoteState × Bool
unfolding update_quoted update_block update_raw is_escaped
update s before c rest =
    if s.in_line_comment
    then ((if c == b'\n' then record s { in_line_comment = false } else s), false)
    else if ltb 0 s.block_comment
    then update_block s c rest
    else if s.in_backtick
    then update_quoted b'`' s (record s { in_backtick = false }) before c rest
    else if s.in_single
    then update_quoted b'\'' s (record s { in_single = false }) before c rest
    else if s.in_double
    then update_quoted b'"' s (record s { in_double = false }) before c rest
    else if is_escaped before
    then (s, false)
    else update_raw s c rest
