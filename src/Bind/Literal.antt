-- ===== src/Bind/Literal.antt =====
-- bind.go: stringQuoteReplacer and the string literals that formatValue makes with it.
use clickhouse_go.Common.{
  ℕ, Bool, true, false, not, ◌&&◌, [], ◌∷◌, ◌++◌, ◌==◌, ◌≡◌, refl, ap, ◌∙◌, inl, inr, arith,
  if◌then◌else◌, Bool-cases, ==_iff,
}
use clickhouse_go.Bind.Quote.{Bytes, QuoteState, raw, is_escaped, next_is, update}

-- What the replacer writes for a byte.
unfoldable pub replace_byte : ℕ → Bytes
replace_byte c =
    if c == b'\\' then b'\\' ∷ b'\\' ∷ [] else if c == b'\'' then b'\\' ∷ b'\'' ∷ [] else c ∷ []

unfoldable pub replace : Bytes → Bytes
unfolding replace_byte
replace [] = []
replace (c ∷ cs) = replace_byte c ++ replace cs

-- "'" + stringQuoteReplacer.Replace(v) + "'"
unfoldable pub quote : Bytes → Bytes
unfolding replace
quote v = b'\'' ∷ (replace v ++ b'\'' ∷ [])

-- How a reader of literals undoes the replacer: a backslash stands for the byte behind it.
abbrev pub unquote : Bytes → Bytes
unquote [] = []
unquote (c ∷ []) = c ∷ []
unquote (c ∷ d ∷ cs) = if c == b'\\' then d ∷ unquote cs else c ∷ unquote (d ∷ cs)

-- The scanner's state after the bytes `q`, in front of `rest`, and whether `update` consumed one
-- byte more.
unfoldable pub walk : (skip : Bool) → Bytes → QuoteState → Bytes → Bytes → Bool × QuoteState
walk skip before s [] rest = (skip, s)
walk true before s (c ∷ q) rest = walk false (c ∷ before) s q rest
walk false before s (c ∷ q) rest =
    let (s', two) = update s before c (q ++ rest) in walk two (c ∷ before) s' q rest

unquote-plain : (c : ℕ) (cs : Bytes) → (c == b'\\') ≡ false → unquote (c ∷ cs) ≡ c ∷ unquote cs
unquote-plain c [] h = refl
unquote-plain c (d ∷ cs) h = rw h

-- The replacer loses nothing: a reader of literals gets the string back.
pub unquote-replace : (v : Bytes) → unquote (replace v) ≡ v
unfolding replace
unquote-replace [] = refl
unquote-replace (c ∷ cs) = elim (Bool-cases (c == b'\\')) [
  | inl slash ↦ rw slash (rw ((==_iff c b'\\').0 slash) (ap (◌∷◌ b'\\') (unquote-replace cs)))
  | inr plain ↦ elim (Bool-cases (c == b'\'')) [
    | inl mark ↦
        rw (plain, mark) (rw ((==_iff c b'\'').0 mark) (ap (◌∷◌ b'\'') (unquote-replace cs)))
    | inr other ↦
        rw (plain, other) (unquote-plain c (replace cs) plain ∙ ap (◌∷◌ c) (unquote-replace cs))
  ]
]

-- In a string literal.
abbrev single : QuoteState
single = record {
  in_backtick = false;
  in_single = true;
  in_double = false;
  in_line_comment = false;
  block_comment = 0;
}

is_escaped-backslash : (before : Bytes) → is_escaped (b'\\' ∷ before) ≡ not (is_escaped before)
unfolding is_escaped
is_escaped-backslash before = ground arith

pub is_escaped-other :
    (c : ℕ) (before : Bytes) → (c == b'\\') ≡ false → is_escaped (c ∷ before) ≡ false
unfolding is_escaped
is_escaped-other c before h = ground arith

update-inside :
    (before : Bytes) (c : ℕ) (rest : Bytes)
    → (c == b'\'' && not (is_escaped before)) ≡ false
    → update single before c rest ≡ (single, false)
unfolding update
update-inside before c rest h = ground arith

update-close :
    (before rest : Bytes)
    → is_escaped before ≡ false
    → next_is b'\'' rest ≡ false
    → update single before b'\'' rest ≡ (raw, false)
unfolding update
update-close before rest h n = rw (h, n)

update-open :
    (before rest : Bytes)
    → is_escaped before ≡ false
    → update raw before b'\'' rest ≡ (single, false)
unfolding update
update-open before rest h = rw h

walk-inside :
    (before : Bytes) (c : ℕ) (q rest : Bytes)
    → (c == b'\'' && not (is_escaped before)) ≡ false
    → walk false before single (c ∷ q) rest ≡ walk false (c ∷ before) single q rest
unfolding walk
walk-inside before c q rest h = rw (update-inside before c (q ++ rest) h)

walk-replace :
    (v before rest : Bytes)
    → is_escaped before ≡ false
    → next_is b'\'' rest ≡ false
    → walk false before single (replace v ++ b'\'' ∷ []) rest ≡ (false, raw)
unfolding replace
walk-replace [] before rest h n = unfold walk in rw (update-close before rest h n)
walk-replace (c ∷ cs) before rest h n =
    let slashed = is_escaped-backslash before ∙ ap not h in
    elim (Bool-cases (c == b'\\')) [
      | inl slash ↦ rw slash (
          walk-inside before b'\\' _ rest refl
          ∙ walk-inside (b'\\' ∷ before) b'\\' _ rest refl
          ∙ walk-replace cs (b'\\' ∷ b'\\' ∷ before) rest
              (is_escaped-backslash (b'\\' ∷ before) ∙ ap not slashed) n)
      | inr plain ↦ elim (Bool-cases (c == b'\'')) [
        | inl mark ↦
            rw (plain, mark)
              (walk-inside before b'\\' _ rest refl
                ∙ walk-inside (b'\\' ∷ before) b'\'' _ rest (rw slashed)
                ∙ walk-replace cs (b'\'' ∷ b'\\' ∷ before) rest
                    (is_escaped-other b'\'' (b'\\' ∷ before) refl) n)
        | inr other ↦
            rw (plain, other)
              (walk-inside before c _ rest (rw other)
                ∙ walk-replace cs (c ∷ before) rest (is_escaped-other c before plain) n)
      ]
    ]

walk-open :
    (before q rest : Bytes)
    → is_escaped before ≡ false
    → walk false before raw (b'\'' ∷ q) rest ≡ walk false (b'\'' ∷ before) single q rest
unfolding walk
walk-open before q rest h = rw (update-open before (q ++ rest) h)

-- A quoted string is one closed literal to the scanner, whatever bytes it holds: from raw text,
-- behind no backslash that escapes, the scanner comes out of it in raw text, with nothing skipped,
-- unless a quote follows directly.
pub walk-quote :
    (v before rest : Bytes)
    → is_escaped before ≡ false
    → next_is b'\'' rest ≡ false
    → walk false before raw (quote v) rest ≡ (false, raw)
unfolding quote
walk-quote v before rest h n =
    walk-open before (replace v ++ b'\'' ∷ []) rest h
    ∙ (walk-replace v (b'\'' ∷ before) rest (is_escaped-other b'\'' before refl) n)
