-- ===== src/Column/Enum/Escapes.antt =====
-- extractEnumNamedValues of lib/column/enum.go on a name with an escaped quote: the position of the
-- escape is kept for the names behind it.
use mathlib.Core.List.{append_assoc}
use clickhouse_go.Common.{
  ℕ, ◌≤◌, true, false, List, [], ◌∷◌, ◌++◌, Option, none, some, length, ◌≡◌, refl, sym, ap, ◌∙◌,
  arith,
}
use clickhouse_go.QueryParameters.{ℤ, pos}
use clickhouse_go.Column.Enum.{
  Bytes, EnumType, valid, panicked, enum_word, switch, round, extract_loop,
  extract_enum_named_values, out_of_range, index_text, capture, cut_all, cut_at,
}
use clickhouse_go.Column.Enum.Steps.{
  Plain, Inner, Item, Fits, inside, outside, item_text, rest_text, width_text, some_pairs,
  index_text-append, extract_loop-Plain, extract_loop-passing, extract_loop-equals,
  extract_loop-opens, extract_loop-closes,
}
use clickhouse_go.Column.Enum.Extract.{extract_loop-item, extract-opened}

cut_at-append : (a : Bytes) (c : ℕ) (b : Bytes) → cut_at (length a) (a ++ c ∷ b) ≡ some (a ++ b)
unfolding cut_at
cut_at-append [] c b = refl
cut_at-append (d ∷ a) c b = rw (cut_at-append a c b) refl

cut_at_short : (a c : Bytes) → length c ≤ length a → cut_at (length a) c ≡ none
unfolding cut_at
cut_at_short a [] h = none_at a
  where
    none_at : (xs : Bytes) → cut_at (length xs) [] ≡ none
    none_at [] = refl
    none_at (x ∷ xs) = refl
cut_at_short [] (d ∷ c) h = absurd (omega (arith, h))
cut_at_short (x ∷ a) (d ∷ c) h = rw (cut_at_short a c (omega (arith, h))) refl

cut_all-append :
    (a : Bytes) (c : ℕ) (b : Bytes) → cut_all (length a ∷ []) (a ++ c ∷ b) ≡ some (a ++ b)
unfolding cut_all
cut_all-append a c b = rw (cut_all, cut_at-append a c b) refl

cut_all_short : (a c : Bytes) → length c ≤ length a → cut_all (length a ∷ []) c ≡ none
unfolding cut_all
cut_all_short a c h = rw (cut_all, cut_at_short a c h) refl

-- The text of the two names `a'b`, with its quote escaped, and that of `it`.
abbrev pub escaped_text : EnumType → (a b text : Bytes) → Item → Bytes
escaped_text t a b text it =
    enum_word
    ++ (width_text t
        ++ b'('
          ∷ b'\''
          ∷ (a ++ b'\\' ∷ b'\'' ∷ (b ++ b'\'' ∷ b' ' ∷ b'=' ∷ (text ++ rest_text (it ∷ [])))))

module _ (atoi : Bytes → Option ℤ) where
  extract_loop-escape :
      (t : Option EnumType) (seen value : Bytes) (i : ℤ) (ps : List (Bytes × ℤ)) (rest : Bytes)
      → extract_loop atoi (b'\\' ∷ b'\'' ∷ rest) (inside t seen value [] false false i ps)
        ≡ extract_loop atoi rest (
            inside t
              ((seen ++ b'\\' ∷ []) ++ b'\'' ∷ [])
              ((value ++ b'\\' ∷ []) ++ b'\'' ∷ [])
              (length value ∷ [])
              false
              false
              i
              ps)
  unfolding extract_loop round switch
  extract_loop-escape t seen value i ps rest = refl

  extract_loop-cut :
      (t : EnumType) (seen value name : Bytes) (sk : List ℕ) (i : ℤ) (ps : List (Bytes × ℤ))
      (rest : Bytes)
      → out_of_range (some t) i ≡ false
      → cut_all sk value ≡ some name
      → extract_loop atoi (b',' ∷ b' ' ∷ rest) (outside (some t) seen value sk true true i ps true)
        ≡ extract_loop atoi rest (
            outside
              (some t)
              ((seen ++ b',' ∷ []) ++ b' ' ∷ [])
              value
              sk
              false
              false
              i
              (ps ++ (name, i) ∷ [])
              false)
  unfolding extract_loop round switch capture
  extract_loop-cut t seen value name sk i ps rest h e = rw (h, e) refl

  extract_loop-last :
      (t : EnumType) (seen value name : Bytes) (sk : List ℕ) (i : ℤ) (ps : List (Bytes × ℤ))
      → out_of_range (some t) i ≡ false
      → cut_all sk value ≡ some name
      → extract_loop atoi (b')' ∷ []) (outside (some t) seen value sk true true i ps true)
        ≡ valid (some t) (ps ++ (name, i) ∷ [])
  unfolding extract_loop round switch capture
  extract_loop-last t seen value name sk i ps h e = rw (h, e, some_pairs ps (name, i)) refl

  extract_loop-crash :
      (t : EnumType) (seen value : Bytes) (sk : List ℕ) (i : ℤ) (ps : List (Bytes × ℤ))
      → out_of_range (some t) i ≡ false
      → cut_all sk value ≡ none
      → extract_loop atoi (b')' ∷ []) (outside (some t) seen value sk true true i ps true)
        ≡ panicked
  unfolding extract_loop round switch capture
  extract_loop-crash t seen value sk i ps h e = rw (h, e) refl

  module _ (t : EnumType) (a b text : Bytes) (i : ℤ) (it : Item) (plain_a : Plain a)
      (plain_b : Plain b) (inner : Inner text) (reads : atoi text ≡ some i)
      (range : out_of_range (some t) i ≡ false) (fits : Fits atoi t it) where
    -- The name of the first value, with its quote.
    abbrev pub quoted : Bytes
    quoted = a ++ b'\'' ∷ b

    extract-first :
        (seen : Bytes) × (extract_enum_named_values atoi (escaped_text t a b text it)
          ≡ extract_loop atoi (b')' ∷ []) (
              outside
                (some t)
                seen
                it.name
                (length a ∷ [])
                true
                true
                it.index
                ((quoted, i) ∷ [])
                true))
    extract-first =
        let after = rest_text (it ∷ []) in
        let sk = length a ∷ [] in
        let value = ((a ++ b'\\' ∷ []) ++ b'\'' ∷ []) ++ b in
        let read : atoi (index_text (text ++ after)) ≡ some i =
          ap atoi (index_text-append text b',' (b' ' ∷ (item_text it ++ rest_text [])) inner refl)
          ∙ reads in
        let named : cut_all sk value ≡ some quoted =
          ap (cut_all sk) (
            append_assoc (a ++ b'\\' ∷ []) (b'\'' ∷ []) b ∙ append_assoc a (b'\\' ∷ []) (b'\'' ∷ b))
          ∙ cut_all-append a b'\\' (b'\'' ∷ b) in
        let last = extract_loop-item atoi t _ value sk i ((quoted, i) ∷ []) it [] fits in
        (
          last.0,
          extract-opened atoi t
                (b'\'' ∷ (a ++ b'\\' ∷ b'\'' ∷ (b ++ b'\'' ∷ b' ' ∷ b'=' ∷ (text ++ after))))
              ∙ extract_loop-opens atoi (some t) _ [] [] (pos 0) []
                  (a ++ b'\\' ∷ b'\'' ∷ (b ++ b'\'' ∷ b' ' ∷ b'=' ∷ (text ++ after)))
              ∙ extract_loop-Plain atoi (some t) _ [] [] false false (pos 0) [] a
                  (b'\\' ∷ b'\'' ∷ (b ++ b'\'' ∷ b' ' ∷ b'=' ∷ (text ++ after))) plain_a
              ∙ extract_loop-escape (some t) _ a (pos 0) []
                  (b ++ b'\'' ∷ b' ' ∷ b'=' ∷ (text ++ after))
              ∙ extract_loop-Plain atoi (some t) _ ((a ++ b'\\' ∷ []) ++ b'\'' ∷ []) sk false false
                  (pos 0) [] b (b'\'' ∷ b' ' ∷ b'=' ∷ (text ++ after)) plain_b
              ∙ extract_loop-closes atoi (some t) _ value sk (pos 0) [] (b'=' ∷ (text ++ after))
              ∙ extract_loop-equals atoi (some t) _ value sk (pos 0) i [] (text ++ after) read
              ∙ extract_loop-passing atoi (some t) _ value sk true true i [] text after inner
              ∙ extract_loop-cut t _ value quoted sk i [] (item_text it ++ rest_text []) range named
              ∙ last.1,
        )

    -- A type of two values, the first `a'b` with its quote escaped, the second with neither quote nor
    -- backslash: if the second name is no longer than `a`, extractEnumNamedValues slices out of
    -- bounds.
    pub extract-panics :
        length it.name ≤ length a
        → extract_enum_named_values atoi (escaped_text t a b text it) ≡ panicked
    extract-panics short =
        extract-first.1
        ∙ extract_loop-crash t extract-first.0 it.name (length a ∷ []) it.index ((quoted, i) ∷ [])
            fits.range_lem (cut_all_short a it.name short)

    -- If it is longer, it comes out without the byte behind as many as `a` has.
    pub extract-drops :
        (x : Bytes) (c : ℕ) (y : Bytes)
        → it.name ≡ x ++ c ∷ y
        → length x ≡ length a
        → extract_enum_named_values atoi (escaped_text t a b text it)
          ≡ valid (some t) ((quoted, i) ∷ (x ++ y, it.index) ∷ [])
    extract-drops x c y name len =
        extract-first.1
        ∙ extract_loop-last t extract-first.0 it.name (x ++ y) (length a ∷ []) it.index
            ((quoted, i) ∷ []) fits.range_lem
            (ap (λ n. cut_all (n ∷ []) it.name) (sym len)
              ∙ ap (cut_all (length x ∷ [])) name
              ∙ cut_all-append x c y)
