-- ===== src/Column/LowCardinality/Good.antt =====
-- lib/column/lowcardinality.go: the dictionary, its map and the keys while Append goes on.
use mathlib.Core.Option.{some-injective}
use clickhouse_go.Common.{
  ℕ, zero, suc, ◌+◌, ◌≤◌, ◌<◌, Bool, true, List, [], ◌∷◌, ◌++◌, Option, none, some, inl, inr, ◌≡◌,
  refl, sym, ap, ◌∙◌, arith, if◌then◌else◌, length, length-append, get_elem?,
  get_elem?-append_middle, Bool-cases,
}
use clickhouse_go.Column.LowCardinality.{find}

module _ {A : Type 0} where
  get_elem?-append_some :
      (xs ys : List A) (k : ℕ) (a : A) → get_elem? xs k ≡ some a → get_elem? (xs ++ ys) k ≡ some a
  get_elem?-append_some [] ys k a h = absurd (ground (arith, h))
  get_elem?-append_some (x ∷ xs) ys zero a h = h
  get_elem?-append_some (x ∷ xs) ys (suc k) a h = get_elem?-append_some xs ys k a h

  pub get_elem?-some_lt : (xs : List A) (k : ℕ) (a : A) → get_elem? xs k ≡ some a → k < length xs
  get_elem?-some_lt [] k a h = absurd (ground (arith, h))
  get_elem?-some_lt (x ∷ xs) zero a h = omega arith
  get_elem?-some_lt (x ∷ xs) (suc k) a h = omega (arith, get_elem?-some_lt xs k a h)

-- What the dictionary holds before a value: the default, twice if there are nulls.
abbrev pub base : Bool → ℕ
base nullable = if nullable then 2 else 1

module _ {A : Type 0} (same : A → A → Bool) (default : A) (accepts : A → Bool) (normal : A → A)
    (sound : (a b : A) → same a b ≡ true → a ≡ b) where
  -- A key points to the value of its row, and 0 to a null.
  abbrev pub Points : List A → ℕ → Option A → Type 0
  Points index k none = k ≡ 0
  Points index k (some v) = (1 ≤ k) × (get_elem? index k ≡ some (normal v))

  abbrev pub AllPoint : List A → List ℕ → List (Option A) → Type 0
  AllPoint index [] [] = Unit
  AllPoint index (k ∷ ks) (v ∷ vs) = Points index k v × AllPoint index ks vs
  AllPoint index [] (v ∷ vs) = ⊥
  AllPoint index (k ∷ ks) [] = ⊥

  -- The map of the values that the dictionary has.
  abbrev AllFound : List A → List (A × ℕ) → Type 0
  AllFound index [] = Unit
  AllFound index ((a, k) ∷ es) = (1 ≤ k) × (get_elem? index k ≡ some a) × AllFound index es

  pub record Good (nullable : Bool) (index : List A) (ks : List ℕ) (m : List (A × ℕ))
      (vs : List (Option A)) : Type 0 where
    pub points : AllPoint index ks vs
    pub found : AllFound index m
    pub first : get_elem? index 0 ≡ some default
    pub sized : length index ≡ base nullable + length m
    pub few : length m ≤ length vs

  Points-append :
      (index more : List A) (k : ℕ) (v : Option A) → Points index k v → Points (index ++ more) k v
  Points-append index more k none h = h
  Points-append index more k (some v) (h, e) = (h, get_elem?-append_some index more k (normal v) e)

  AllPoint-append :
      (index more : List A) (ks : List ℕ) (vs : List (Option A))
      → AllPoint index ks vs
      → AllPoint (index ++ more) ks vs
  AllPoint-append index more [] [] h = tt
  AllPoint-append index more (k ∷ ks) (v ∷ vs) (p, h) =
      (Points-append index more k v p, AllPoint-append index more ks vs h)
  AllPoint-append index more [] (v ∷ vs) h = h
  AllPoint-append index more (k ∷ ks) [] h = h

  AllPoint-snoc :
      (index : List A) (ks : List ℕ) (vs : List (Option A)) (k : ℕ) (v : Option A)
      → AllPoint index ks vs
      → Points index k v
      → AllPoint index (ks ++ k ∷ []) (vs ++ v ∷ [])
  AllPoint-snoc index [] [] k v h p = (p, tt)
  AllPoint-snoc index (j ∷ ks) (u ∷ vs) k v (q, h) p = (q, AllPoint-snoc index ks vs k v h p)
  AllPoint-snoc index [] (u ∷ vs) k v h p = absurd h
  AllPoint-snoc index (j ∷ ks) [] k v h p = absurd h

  AllFound-append :
      (index more : List A) (es : List (A × ℕ)) → AllFound index es → AllFound (index ++ more) es
  AllFound-append index more [] h = tt
  AllFound-append index more ((a, k) ∷ es) (l, e, h) =
      (l, get_elem?-append_some index more k a e, AllFound-append index more es h)

  find-found :
      (index : List A) (a : A) (es : List (A × ℕ)) (k : ℕ)
      → AllFound index es
      → find same default accepts normal a es ≡ some k
      → (1 ≤ k) × (get_elem? index k ≡ some a)
  find-found index a [] k h e = absurd (ground (arith, e))
  find-found index a ((b, j) ∷ es) k (l, g, h) e = elim (Bool-cases (same a b)) [
    | inl yes_same ↦
        let here : j ≡ k = some-injective _ _ (rw yes_same at e) in
        (rw here at l, ap (get_elem? index) (sym here) ∙ g ∙ ap some (sym (sound a b yes_same)))
    | inr other ↦ find-found index a es k h (rw other at e)
  ]

  pub Good-null :
      {nullable : Bool} {index : List A} {ks : List ℕ} {m : List (A × ℕ)} {vs : List (Option A)}
      → Good nullable index ks m vs
      → Good nullable index (ks ++ 0 ∷ []) m (vs ++ none ∷ [])
  Good-null {index = index} {ks = ks} {vs = vs} g = record {
    points = AllPoint-snoc index ks vs 0 none g.points refl;
    found = g.found;
    first = g.first;
    sized = g.sized;
    few = omega (arith, g.few, length-append vs (none ∷ []));
  }

  pub Good-old :
      {nullable : Bool} {index : List A} {ks : List ℕ} {m : List (A × ℕ)} {vs : List (Option A)}
      (v : A) (k : ℕ)
      → Good nullable index ks m vs
      → find same default accepts normal (normal v) m ≡ some k
      → Good nullable index (ks ++ k ∷ []) m (vs ++ some v ∷ [])
  Good-old {index = index} {ks = ks} {m = m} {vs = vs} v k g e = record {
    points =
        AllPoint-snoc index ks vs k (some v) g.points (find-found index (normal v) m k g.found e);
    found = g.found;
    first = g.first;
    sized = g.sized;
    few = omega (arith, g.few, length-append vs (some v ∷ []));
  }

  pub Good-new :
      {nullable : Bool} {index : List A} {ks : List ℕ} {m : List (A × ℕ)} {vs : List (Option A)}
      (v : A)
      → Good nullable index ks m vs
      → Good nullable
          (index ++ normal v ∷ [])
          (ks ++ length index ∷ [])
          ((normal v, length index) ∷ m)
          (vs ++ some v ∷ [])
  Good-new {nullable = nullable} {index = index} {ks = ks} {m = m} {vs = vs} v g =
      let some_base : 1 ≤ base nullable = ground arith in
      let late : 1 ≤ length index = omega (arith, g.sized, some_base) in
      let there = get_elem?-append_middle index (normal v) [] in
      record {
        points =
            AllPoint-snoc (index ++ normal v ∷ []) ks vs (length index) (some v)
              (AllPoint-append index (normal v ∷ []) ks vs g.points) (late, there);
        found = (late, there, AllFound-append index (normal v ∷ []) m g.found);
        first = get_elem?-append_some index (normal v ∷ []) 0 default g.first;
        sized = omega (arith, length-append index (normal v ∷ []), g.sized);
        few = omega (arith, g.few, length-append vs (some v ∷ []));
      }
