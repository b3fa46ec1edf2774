-- ===== src/Column/Enum.antt =====
-- lib/column/enum.go and enum8.go: the names and indexes in the text of an enum type, and the column
-- of an Enum8. The reading of an index, strconv.Atoi behind bytes.TrimSpace, is a parameter.
pub mod Steps
pub mod Extract
pub mod Escapes
mod Tests
use clickhouse_go.Common.{
  ℕ, zero, suc, ◌+◌, ◌-◌, ◌*◌, ◌/◌, ◌%◌, Bool, true, false, not, ◌&&◌, ◌||◌, List, [], ◌∷◌, ◌++◌,
  Option, none, some, ltb, leb, ◌==◌, if◌then◌else◌, length,
}
use clickhouse_go.QueryParameters.{ℤ, pos, negsuc}
pub use clickhouse_go.Common.Bytes.{Bytes, same_bytes}

abbrev pub succ : ℤ → ℤ
succ (pos n) = pos (n + 1)
succ (negsuc zero) = pos 0
succ (negsuc (suc n)) = negsuc n

-- `z > bound`
abbrev pub above : ℕ → ℤ → Bool
above bound (pos n) = ltb bound n
above bound (negsuc n) = false

pub data EnumType : Type 0 where
  enum8 : EnumType
  enum16 : EnumType

-- "Enum" before the width
abbrev pub enum_word : Bytes
enum_word = 69 ∷ 110 ∷ 117 ∷ 109 ∷ []

unfoldable pub type_of : Bytes → Option EnumType
type_of word =
    if same_bytes word (enum_word ++ b'8' ∷ [])
    then some enum8
    else if same_bytes word (enum_word ++ b'1' ∷ b'6' ∷ [])
    then some enum16
    else none

-- The variables of the loop. `seen` is the text before the token; `value` is the text behind the
-- last quote that opened, up to where it closed; `passing` says that the loop over an index has run
-- over the tokens up to a comma or a bracket, and `escaped` that the next token is skipped.
pub record Scan : Type 0 where
  pub typ : Option EnumType
  pub seen : Bytes
  pub bracket_open : Bool
  pub string_open : Bool
  pub value : Bytes
  pub skipped : List ℕ
  pub index_found : Bool
  pub value_found : Bool
  pub value_index : ℤ
  pub pairs : List (Bytes × ℤ)
  pub passing : Bool
  pub escaped : Bool

abbrev pub start : Scan
start = record {
  typ = none;
  seen = [];
  bracket_open = false;
  string_open = false;
  value = [];
  skipped = [];
  index_found = false;
  value_found = false;
  value_index = pos 0;
  pairs = [];
  passing = false;
  escaped = false;
}

-- What a round does: it goes on, returns a type that is not valid, or slices out of bounds.
pub data Round : Type 0 where
  goes : Scan → Round
  returns : Round
  panics : Round

pub data Extracted : Type 0 where
  valid : Option EnumType → List (Bytes × ℤ) → Extracted
  invalid : Extracted
  panicked : Extracted

-- append(name[:i], name[i+1:]...), which wants i+1 within the length.
unfoldable pub cut_at : ℕ → Bytes → Option Bytes
cut_at i [] = none
cut_at zero (c ∷ cs) = some cs
cut_at (suc i) (c ∷ cs) = elim (cut_at i cs) [ none ↦ none | some r ↦ some (c ∷ r) ]

unfoldable pub cut_all : List ℕ → Bytes → Option Bytes
unfolding cut_at
cut_all [] name = some name
cut_all (i ∷ is) name = elim (cut_at i name) [ none ↦ none | some r ↦ cut_all is r ]

abbrev pub ends_index : ℕ → Bool
ends_index token = token == b',' || token == b')'

-- The text of an index: the tokens before a comma or a bracket.
unfoldable pub index_text : Bytes → Bytes
index_text [] = []
index_text (c ∷ cs) = if ends_index c then [] else c ∷ index_text cs

abbrev pub out_of_range : Option EnumType → ℤ → Bool
out_of_range none i = false
out_of_range (some enum8) i = above 255 i
out_of_range (some enum16) i = above 65535 i

abbrev pub captured : Scan → ℤ → Option Bytes → Round
captured s index none = panics
captured s index (some name) = goes (record s {
  value_index = index;
  pairs = s.pairs ++ (name, index) ∷ [];
  index_found = false;
  value_found = false;
})

-- A comma or a closing bracket.
unfoldable pub capture : Scan → Round
unfolding cut_all
capture s =
    let index = if s.index_found then s.value_index else succ s.value_index in
    if not s.value_found
    then returns
    else if out_of_range s.typ index
    then returns
    else captured s index (cut_all s.skipped s.value)

abbrev pub read_index : Scan → Option ℤ → Round
read_index s none = returns
read_index s (some i) = goes (record s { value_index = i; index_found = true; passing = true })

abbrev pub open_bracket : Scan → Option EnumType → Round
open_bracket s none = returns
open_bracket s (some t) = goes (record s { typ = some t; bracket_open = true })

module _ (atoi : Bytes → Option ℤ) where
  -- The switch over a token that is not skipped, with the text behind it.
  unfoldable pub switch : Scan → ℕ → Bytes → Round
  unfolding type_of index_text capture
  switch s token rest =
      if token == b'(' && not s.string_open
      then open_bracket s (type_of s.seen)
      else if s.bracket_open && (token == b'\'' && not s.string_open)
      then goes (record s { value = []; string_open = true })
      else if token == b'\'' && s.string_open
      then goes (record s { string_open = false; value_found = true })
      else if token == b'\\' && s.string_open
      then goes (record s {
        skipped = s.skipped ++ length s.value ∷ [];
        value = s.value ++ token ∷ [];
        escaped = true;
      })
      else if token == b'=' && not s.string_open
      then if s.value_found then read_index s (atoi (index_text rest)) else returns
      else if ends_index token && not s.string_open
      then capture s
      else if s.string_open
      then goes (record s { value = s.value ++ token ∷ [] })
      else goes s

  unfoldable pub round : Scan → ℕ → Bytes → Round
  unfolding switch
  round s token rest =
      if s.escaped
      then goes (record s { escaped = false; value = s.value ++ token ∷ [] })
      else if s.passing && not (ends_index token)
      then goes s
      else switch (record s { passing = false }) token rest

  -- Behind the loop: at least one index.
  abbrev pub finished : Scan → Extracted
  finished s = if length s.pairs == 0 then invalid else valid s.typ s.pairs

  abbrev pub seen_also : ℕ → Scan → Scan
  seen_also token s = record s { seen = s.seen ++ token ∷ [] }

  abbrev pub next : ℕ → Round → (Scan → Extracted) → Extracted
  next token returns f = invalid
  next token panics f = panicked
  next token (goes s) f = f (seen_also token s)

  unfoldable pub extract_loop : Bytes → Scan → Extracted
  unfolding round
  extract_loop [] s = finished s
  extract_loop (token ∷ rest) s = next token (round s token rest) (extract_loop rest)

  unfoldable pub extract_enum_named_values : Bytes → Extracted
  unfolding extract_loop
  extract_enum_named_values src = extract_loop src start
