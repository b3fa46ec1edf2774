-- ===== src/Column/Enum/Steps.antt =====
-- The rounds of extractEnumNamedValues of lib/column/enum.go over the pieces of an item that the
-- server prints.
use mathlib.Core.List.{append_assoc, append-nil}
use clickhouse_go.Common.{
  length-append, ℕ, Bool, true, false, List, [], ◌∷◌, ◌++◌, Option, some, length, ◌==◌, ◌≡◌, ◌≢◌,
  refl, ap, ◌∙◌, arith,
}
use clickhouse_go.QueryParameters.{ℤ}
use clickhouse_go.Column.Enum.{
  Bytes, EnumType, enum8, enum16, Scan, goes, enum_word, switch, round, extract_loop, out_of_range,
  index_text, ends_index,
}

-- A name with no quote and no backslash.
abbrev pub Plain : Bytes → Type 0
Plain [] = Unit {0}
Plain (c ∷ cs) = (c ≢ b'\'') × (c ≢ b'\\') × Plain cs

-- A text with no comma and no closing bracket.
abbrev pub Inner : Bytes → Type 0
Inner [] = Unit {0}
Inner (c ∷ cs) = (ends_index c ≡ false) × Inner cs

-- Inside a string.
abbrev pub inside :
    Option EnumType → Bytes → Bytes → List ℕ → Bool → Bool → ℤ → List (Bytes × ℤ) → Scan
inside t seen value skipped ifound vfound i ps = record {
  typ = t;
  seen = seen;
  bracket_open = true;
  string_open = true;
  value = value;
  skipped = skipped;
  index_found = ifound;
  value_found = vfound;
  value_index = i;
  pairs = ps;
  passing = false;
  escaped = false;
}

-- Outside of a string; `passing` over an index.
abbrev pub outside :
    Option EnumType
    → Bytes
    → Bytes
    → List ℕ
    → Bool
    → Bool
    → ℤ
    → List (Bytes × ℤ)
    → (passing : Bool) → Scan
outside t seen value sk ifound vfound i ps passing = record {
  typ = t;
  seen = seen;
  bracket_open = true;
  string_open = false;
  value = value;
  skipped = sk;
  index_found = ifound;
  value_found = vfound;
  value_index = i;
  pairs = ps;
  passing = passing;
  escaped = false;
}

pub index_text-append :
    (text : Bytes) (c : ℕ) (rest : Bytes)
    → Inner text
    → ends_index c ≡ true
    → index_text (text ++ c ∷ rest) ≡ text
unfolding index_text
index_text-append [] c rest h e = rw e refl
index_text-append (d ∷ text) c rest (g, h) e = rw g (ap (◌∷◌ d) (index_text-append text c rest h e))

-- A name with its index and the text that the index has behind the equals sign.
pub record Item : Type 0 where
  pub name : Bytes
  pub text : Bytes
  pub index : ℤ

-- As the server prints: 'name' = 1
abbrev pub item_text : Item → Bytes
item_text it = b'\'' ∷ (it.name ++ b'\'' ∷ b' ' ∷ b'=' ∷ it.text)

abbrev pub rest_text : List Item → Bytes
rest_text [] = b')' ∷ []
rest_text (it ∷ its) = b',' ∷ b' ' ∷ (item_text it ++ rest_text its)

abbrev pub pair_of : Item → Bytes × ℤ
pair_of it = (it.name, it.index)

pub ends_rest :
    (its : List Item)
    → (c : ℕ) × (more : Bytes) × (rest_text its ≡ c ∷ more) × (ends_index c ≡ true)
ends_rest [] = (b')', [], refl, refl)
ends_rest (it ∷ its) = (b',', b' ' ∷ (item_text it ++ rest_text its), refl, refl)

pub some_pairs : (ps : List (Bytes × ℤ)) (p : Bytes × ℤ) → (length (ps ++ p ∷ []) == 0) ≡ false
some_pairs ps p = ground (arith, length-append ps (p ∷ []))

abbrev pub width_text : EnumType → Bytes
width_text enum8 = b'8' ∷ []
width_text enum16 = b'1' ∷ b'6' ∷ []

-- The text of an enum type, as the server prints it.
abbrev pub enum_text : EnumType → Item → List Item → Bytes
enum_text t it its = enum_word ++ (width_text t ++ b'(' ∷ (item_text it ++ rest_text its))

module _ (atoi : Bytes → Option ℤ) where
  round-inside :
      (t : Option EnumType) (seen value : Bytes) (skipped : List ℕ) (ifound vfound : Bool) (i : ℤ)
      (ps : List (Bytes × ℤ)) (c : ℕ) (rest : Bytes)
      → c ≢ b'\''
      → c ≢ b'\\'
      → round atoi (inside t seen value skipped ifound vfound i ps) c rest
        ≡ goes (inside t seen (value ++ c ∷ []) skipped ifound vfound i ps)
  unfolding round
  round-inside t seen value skipped ifound vfound i ps c rest q b = ground (arith, q, b)

  pub extract_loop-Plain :
      (t : Option EnumType) (seen value : Bytes) (skipped : List ℕ) (ifound vfound : Bool) (i : ℤ)
      (ps : List (Bytes × ℤ)) (name rest : Bytes)
      → Plain name
      → extract_loop atoi (name ++ rest) (inside t seen value skipped ifound vfound i ps)
        ≡ extract_loop atoi rest
            (inside t (seen ++ name) (value ++ name) skipped ifound vfound i ps)
  unfolding extract_loop
  extract_loop-Plain t seen value skipped ifound vfound i ps [] rest h = simp append-nil
  extract_loop-Plain t seen value skipped ifound vfound i ps (c ∷ name) rest (q, b, h) =
      rw (round-inside t seen value skipped ifound vfound i ps c (name ++ rest) q b) (
        extract_loop-Plain t (seen ++ c ∷ []) (value ++ c ∷ []) skipped ifound vfound i ps name rest
          h
        ∙ simp append_assoc)

  -- An item that an enum of the type may have.
  pub record Fits (t : EnumType) (it : Item) : Type 0 where
    pub plain_lem : Plain it.name
    pub inner_lem : Inner it.text
    pub atoi_lem : atoi it.text ≡ some it.index
    pub range_lem : out_of_range (some t) it.index ≡ false

  abbrev pub AllFit : EnumType → List Item → Type 0
  AllFit t [] = Unit {0}
  AllFit t (it ∷ its) = Fits t it × AllFit t its

  pub extract_loop-passing :
      (t : Option EnumType) (seen value : Bytes) (sk : List ℕ) (ifound vfound : Bool) (i : ℤ)
      (ps : List (Bytes × ℤ)) (text rest : Bytes)
      → Inner text
      → extract_loop atoi (text ++ rest) (outside t seen value sk ifound vfound i ps true)
        ≡ extract_loop atoi rest (outside t (seen ++ text) value sk ifound vfound i ps true)
  unfolding extract_loop round
  extract_loop-passing t seen value sk ifound vfound i ps [] rest h = simp append-nil
  extract_loop-passing t seen value sk ifound vfound i ps (c ∷ text) rest (g, h) = rw g (
      extract_loop-passing t (seen ++ c ∷ []) value sk ifound vfound i ps text rest h
      ∙ simp append_assoc)

  pub extract_loop-equals :
      (t : Option EnumType) (seen value : Bytes) (sk : List ℕ) (i j : ℤ) (ps : List (Bytes × ℤ))
      (rest : Bytes)
      → atoi (index_text rest) ≡ some j
      → extract_loop atoi (b'=' ∷ rest) (outside t seen value sk false true i ps false)
        ≡ extract_loop atoi rest (outside t (seen ++ b'=' ∷ []) value sk true true j ps true)
  unfolding extract_loop round switch
  extract_loop-equals t seen value sk i j ps rest h = rw h refl

  pub extract_loop-opens :
      (t : Option EnumType) (seen value : Bytes) (sk : List ℕ) (i : ℤ) (ps : List (Bytes × ℤ))
      (rest : Bytes)
      → extract_loop atoi (b'\'' ∷ rest) (outside t seen value sk false false i ps false)
        ≡ extract_loop atoi rest (inside t (seen ++ b'\'' ∷ []) [] sk false false i ps)
  unfolding extract_loop round switch
  extract_loop-opens t seen value sk i ps rest = refl

  pub extract_loop-closes :
      (t : Option EnumType) (seen value : Bytes) (sk : List ℕ) (i : ℤ) (ps : List (Bytes × ℤ))
      (rest : Bytes)
      → extract_loop atoi (b'\'' ∷ b' ' ∷ rest) (inside t seen value sk false false i ps)
        ≡ extract_loop atoi rest
            (outside t ((seen ++ b'\'' ∷ []) ++ b' ' ∷ []) value sk false true i ps false)
  unfolding extract_loop round switch
  extract_loop-closes t seen value sk i ps rest = refl
