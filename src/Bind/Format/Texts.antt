-- ===== src/Bind/Format/Texts.antt =====
-- bind.go: maps, floats, numbers and literals as formatValue writes them.
use Prim.Native.String.{String}
use mathlib.Core.List.{append_assoc}
use mathlib.Core.Path.{subst}
use clickhouse_go.Common.{
  ℕ, ◌+◌, ◌<◌, length, true, false, List, [], ◌∷◌, ◌++◌, ◌≡◌, refl, ap, ◌∙◌, arith,
}
use clickhouse_go.Common.Decimal.{decimal, AllDigits, AllDigits-decimal, length-decimal_pos}
use clickhouse_go.Bind.Quote.{Bytes, next_is}
use clickhouse_go.Bind.Literal.{quote, replace, replace_byte}
use clickhouse_go.Bind.Format.{
  codes, FormatMode, format_sql, format_param_text, Float, not_a_number, infinity, minus_infinity,
  finite, join_strings, pair_texts, format_map, format_float,
}
use clickhouse_go.Bind.Format.Closed.{
  Closed, Walks-append, Closed-append, Walks-Closed, is_plain, is_special, Walks-plain,
  Closed-quote,
}
use clickhouse_go.QueryParameters.{ℤ, pos, negsuc, format_int}

abbrev pub AllClosed : List Bytes → Type 0
AllClosed [] = Unit
AllClosed (x ∷ xs) = Closed x × AllClosed xs

abbrev pub PairsClosed : List (Bytes × Bytes) → Type 0
PairsClosed [] = Unit
PairsClosed ((k, v) ∷ es) = (Closed k × Closed v) × PairsClosed es

pub plain-Closed : (q : Bytes) → is_plain q ≡ true → Closed q
plain-Closed q p = Walks-Closed q (Walks-plain q p)

-- A separator is plain, is not empty and does not begin with a single quote.
abbrev pub Separates : Bytes → Type 0
Separates sep = (is_plain sep ≡ true) × ((b : Bytes) → next_is b'\'' (sep ++ b) ≡ false)

Closed-between : (x sep y : Bytes) → Separates sep → Closed x → Closed y → Closed (x ++ (sep ++ y))
Closed-between x sep y (p, next) cx cy =
    Closed-append x (sep ++ y) cx (Walks-append sep y (Walks-plain sep p) cy) (next y)

pub Closed-join :
    (sep : Bytes) (xs : List Bytes) → Separates sep → AllClosed xs → Closed (join_strings sep xs)
unfolding join_strings
Closed-join sep [] s h = plain-Closed [] (unfold is_plain in refl)
Closed-join sep (x ∷ []) s (cx, h) = cx
Closed-join sep (x ∷ y ∷ xs) s (cx, h) =
    Closed-between x sep (join_strings sep (y ∷ xs)) s cx (Closed-join sep (y ∷ xs) s h)

pub Closed-around :
    (left m right : Bytes)
    → is_plain left ≡ true
    → is_plain right ≡ true
    → next_is b'\'' right ≡ false
    → Closed m
    → Closed (left ++ (m ++ right))
Closed-around left m right p q n cm =
    Walks-append left (m ++ right) (Walks-plain left p)
      (Closed-append m right cm (plain-Closed right q) n)

Closed-pairs :
    (sep : Bytes) (es : List (Bytes × Bytes))
    → Separates sep
    → PairsClosed es
    → AllClosed (pair_texts sep es)
unfolding pair_texts
Closed-pairs sep [] s h = tt
Closed-pairs sep ((k, v) ∷ es) s ((ck, cv), h) =
    (Closed-between k sep v s ck cv, Closed-pairs sep es s h)

pub format_map-Closed :
    (mode : FormatMode) (es : List (Bytes × Bytes)) → PairsClosed es → Closed (format_map mode es)
unfolding format_map is_plain
format_map-Closed format_param_text es h =
    Closed-around (codes "{") _ (codes "}") refl refl refl (
      Closed-join (codes ",") _ (refl, λ b. refl) (Closed-pairs (codes ":") es (refl, λ b. refl) h))
format_map-Closed format_sql es h = Closed-around (codes "map(") _ (codes ")") refl refl refl (
    Closed-join (codes ", ") _ (refl, λ b. refl) (Closed-pairs (codes ", ") es (refl, λ b. refl) h))

-- A literal whose text the replacer would leave as it is.
pub Closed-literal :
    (left t right : Bytes)
    → is_plain left ≡ true
    → replace t ≡ t
    → Closed right
    → next_is b'\'' right ≡ false
    → Closed (left ++ b'\'' ∷ (t ++ b'\'' ∷ right))
Closed-literal left t right p same cr n =
    let text : quote t ++ right ≡ b'\'' ∷ (t ++ b'\'' ∷ right) =
      unfold quote in
      ap (λ r. b'\'' ∷ ((r ++ b'\'' ∷ []) ++ right)) same
      ∙ ap (◌∷◌ b'\'') (append_assoc t (b'\'' ∷ []) right) in
    Walks-append left _ (Walks-plain left p)
      (subst Closed text (Closed-append (quote t) right (Closed-quote t) cr n))

abbrev pub RegularFloat : Float → Type 0
RegularFloat not_a_number = Unit
RegularFloat infinity = Unit
RegularFloat minus_infinity = Unit
RegularFloat (finite text) = is_plain text ≡ true

Closed-cast :
    (ch_type text : Bytes)
    → replace text ≡ text
    → replace ch_type ≡ ch_type
    → Closed (
        codes "cast("
        ++ b'\'' ∷ (text ++ b'\'' ∷ (codes ", " ++ b'\'' ∷ (ch_type ++ b'\'' ∷ codes ")"))))
unfolding is_plain
Closed-cast ch_type text h k =
    Closed-literal (codes "cast(") text _ refl h
      (Closed-literal (codes ", ") ch_type (codes ")") refl k (plain-Closed (codes ")") refl) refl)
      refl

pub format_float-Closed :
    (ch_type : String) (mode : FormatMode) (f : Float)
    → replace (codes ch_type) ≡ codes ch_type
    → RegularFloat f
    → Closed (format_float ch_type mode f)
unfolding format_float is_plain
format_float-Closed ch_type format_param_text not_a_number h r = plain-Closed (codes "nan") refl
format_float-Closed ch_type format_param_text infinity h r = plain-Closed (codes "inf") refl
format_float-Closed ch_type format_param_text minus_infinity h r = plain-Closed (codes "-inf") refl
format_float-Closed ch_type format_param_text (finite text) h r = plain-Closed text r
format_float-Closed ch_type format_sql not_a_number h r =
    Closed-cast (codes ch_type) (codes "nan") (unfold replace replace_byte in refl) h
format_float-Closed ch_type format_sql infinity h r =
    Closed-cast (codes ch_type) (codes "inf") (unfold replace replace_byte in refl) h
format_float-Closed ch_type format_sql minus_infinity h r =
    Closed-cast (codes ch_type) (codes "-inf") (unfold replace replace_byte in refl) h
format_float-Closed ch_type format_sql (finite text) h r =
    Walks-append (codes "cast(") _ (Walks-plain (codes "cast(") refl) (
      Closed-append text _ (plain-Closed text r)
        (Closed-literal (codes ", ") (codes ch_type) (codes ")") refl h
          (plain-Closed (codes ")") refl) refl)
        refl)

-- Digits are plain, and so is a number with its sign.
digits-plain : (xs : Bytes) → AllDigits xs → is_plain xs ≡ true
unfolding is_plain
digits-plain [] h = refl
digits-plain (c ∷ []) (l, g, h) = ground (arith, l, g)
digits-plain (c ∷ d ∷ xs) (l, g, h) =
    let rest = digits-plain (d ∷ xs) h in ground (arith, l, g, rest)

signed-plain : (c : ℕ) (xs : Bytes) → AllDigits (c ∷ xs) → is_plain (b'-' ∷ c ∷ xs) ≡ true
unfolding is_plain
signed-plain c xs (l, g, h) =
    let rest = digits-plain (c ∷ xs) (l, g, h) in ground (arith, l, g, rest)

signed_digits : (xs : Bytes) → AllDigits xs → 0 < length xs → is_plain (b'-' ∷ xs) ≡ true
signed_digits [] h n = absurd (omega (arith, n))
signed_digits (c ∷ xs) h n = signed-plain c xs h

pub format_int-plain : (n : ℤ) → is_plain (format_int n) ≡ true
unfolding format_int
format_int-plain (pos n) = digits-plain (decimal n) (AllDigits-decimal n)
format_int-plain (negsuc n) =
    signed_digits (decimal (n + 1)) (AllDigits-decimal (n + 1)) (length-decimal_pos (n + 1))

pub decimal-plain : (n : ℕ) → is_plain (decimal n) ≡ true
decimal-plain n = digits-plain (decimal n) (AllDigits-decimal n)

replace_plain_byte : (c : ℕ) → is_special c ≡ false → replace_byte c ≡ c ∷ []
unfolding replace_byte
replace_plain_byte c h = ground (arith, h)

-- The replacer leaves plain texts alone.
pub replace-plain : (q : Bytes) → is_plain q ≡ true → replace q ≡ q
unfolding is_plain replace
replace-plain [] p = refl
replace-plain (c ∷ []) p = rw (replace_plain_byte c (ground (arith, p)))
replace-plain (c ∷ d ∷ q) p =
    let rest = replace-plain (d ∷ q) (ground (arith, p)) in
    ap (λ r. replace_byte c ++ r) rest
    ∙ ap (λ r. r ++ d ∷ q) (replace_plain_byte c (ground (arith, p)))
