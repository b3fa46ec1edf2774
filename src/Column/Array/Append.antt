-- ===== src/Column/Array/Append.antt =====
-- AppendRow of lib/column/array.go: what the offsets and the values hold together.
use mathlib.Core.Path.{subst, ap₂}
use mathlib.Core.List.{map, append_assoc, append-nil}
use clickhouse_go.Common.{
  ℕ, zero, suc, ◌+◌, ◌%◌, ◌^◌, ◌<◌, List, [], ◌∷◌, ◌++◌, Option, none, some, length, length-append,
  ◌≡◌, refl, sym, ap, ◌∙◌, arith,
}
use native.Mathlib.Nat.{mod-eq_of_lt}
use clickhouse_go.Block.{ColumnOps}
use clickhouse_go.Column.Array.{
  Nested, Offsets, State, append, append_each, append_offset, last_or_0, then_next,
}

last_behind : ℕ → List ℕ → ℕ
last_behind n [] = n
last_behind n (m ∷ ms) = last_behind m ms

last_or_0_lem : (ns : List ℕ) → last_or_0 ns ≡ last_behind 0 ns
unfolding last_behind
last_or_0_lem [] = refl
last_or_0_lem (n ∷ []) = refl
last_or_0_lem (n ∷ m ∷ ns) = last_or_0_lem (m ∷ ns)

module _ {A : Type 0} where
  abbrev pub concat : List (List A) → List A
  concat [] = []
  concat (xs ∷ rows) = xs ++ concat rows

  -- Where the rows end, behind `n` elements.
  abbrev pub ends_from : ℕ → List (List A) → List ℕ
  ends_from n [] = []
  ends_from n (xs ∷ rows) = (n + length xs) ∷ ends_from (n + length xs) rows

  concat-append : (a b : List (List A)) → concat (a ++ b) ≡ concat a ++ concat b
  concat-append [] b = refl
  concat-append (x ∷ a) b =
      ap (λ l. x ++ l) (concat-append a b) ∙ sym (append_assoc x (concat a) (concat b))

  pub concat_last : (rows : List (List A)) (x : List A) → concat (rows ++ x ∷ []) ≡ concat rows ++ x
  concat_last rows x = concat-append rows (x ∷ []) ∙ ap (λ l. concat rows ++ l) (append-nil x)

  ends_from-append :
      (n : ℕ) (rows : List (List A)) (x : List A)
      → ends_from n (rows ++ x ∷ [])
        ≡ ends_from n rows ++ ((n + length (concat rows)) + length x) ∷ []
  ends_from-append n [] x = ap (λ k. (k + length x) ∷ []) (omega arith)
  ends_from-append n (y ∷ rows) x = ap (◌∷◌ (n + length y)) (
      ends_from-append (n + length y) rows x
      ∙ ap (λ k. ends_from (n + length y) rows ++ (k + length x) ∷ [])
          (omega (arith, length-append y (concat rows))))

  last_behind-ends_from :
      (n : ℕ) (rows : List (List A)) → last_behind n (ends_from n rows) ≡ n + length (concat rows)
  unfolding last_behind
  last_behind-ends_from n [] = omega arith
  last_behind-ends_from n (x ∷ rows) =
      last_behind-ends_from (n + length x) rows ∙ omega (arith, length-append x (concat rows))

  pub last_or_0-ends_from :
      (rows : List (List A)) → last_or_0 (ends_from 0 rows) ≡ length (concat rows)
  last_or_0-ends_from rows =
      last_or_0_lem (ends_from 0 rows) ∙ last_behind-ends_from 0 rows ∙ omega arith

  pub length-ends_from : (n : ℕ) (rows : List (List A)) → length (ends_from n rows) ≡ length rows
  length-ends_from n [] = refl
  length-ends_from n (x ∷ rows) = ap suc (length-ends_from (n + length x) rows)

  append_offset-ends_from :
      (rows : List (List A)) (x : List A)
      → length (concat (rows ++ x ∷ [])) < 2 ^ 64
      → append_offset (ends_from 0 rows) (length x) ≡ ends_from 0 (rows ++ x ∷ [])
  unfolding append_offset
  append_offset-ends_from rows x small =
      let total = ap length (concat_last rows x) ∙ length-append (concat rows) x in
      let sum : length x + last_or_0 (ends_from 0 rows) ≡ (0 + length (concat rows)) + length x =
        omega (arith, last_or_0-ends_from rows) in
      let fits : (length x + last_or_0 (ends_from 0 rows)) % 2 ^ 64
          ≡ length x + last_or_0 (ends_from 0 rows) =
        mod-eq_of_lt (omega (arith, sum, total, small)) in
      ap (λ k. ends_from 0 rows ++ k ∷ []) (fits ∙ sum) ∙ sym (ends_from-append 0 rows x)

-- The offsets of `d` levels over the values `items` stand for `rows`.
abbrev pub Represents : {X : Type 0} (d : ℕ) → Offsets d → List X → List (Nested X d) → Type 0
Represents zero o items rows = items ≡ rows
Represents (suc d) o items rows = (o.0 ≡ ends_from 0 rows) × Represents d o.1 items (concat rows)

-- No level has 2^64 elements.
abbrev pub IsSmall : (X : Type 0) (d : ℕ) → List (Nested X d) → Type 0
IsSmall X zero rows = Unit {0}
IsSmall X (suc d) rows = (length (concat rows) < 2 ^ 64) × IsSmall X d (concat rows)

IsSmall-append :
    (X : Type 0) (d : ℕ) (a b : List (Nested X d)) → IsSmall X d (a ++ b) → IsSmall X d a
IsSmall-append X zero a b h = tt
IsSmall-append X (suc d) a b (h, hs) = (
  omega (arith, h, ap length (concat-append a b), length-append (concat a) (concat b)),
  IsSmall-append X d (concat a) (concat b) (subst (IsSmall X d) (concat-append a b) hs),
)

abbrev pub shown_nested : {V X : Type 0} → (V → X) → (d : ℕ) → Nested V d → Nested X d
shown_nested shown zero v = shown v
shown_nested shown (suc d) xs = map (shown_nested shown d) xs

module _ {Col V E X : Type 0} (ops : ColumnOps Col V E) (items : Col → List X) (shown : V → X) where
  -- A column of values that AppendRow extends by what is shown of the value.
  abbrev pub Extends : Type 0
  Extends =
      (v : V) (c : Col)
      → (ops.append_row v c).1 ≡ none
      → items (ops.append_row v c).0 ≡ items c ++ shown v ∷ []

  abbrev pub Stands : (d : ℕ) → State ops d → List (Nested X d) → Type 0
  Stands d s rows = Represents d s.0 (items s.1) rows

  module _ (extends : Extends) where
    then_next-none :
        {S : Type 0} (r : S × Option E) (f : S → S × Option E)
        → (then_next ops r f).1 ≡ none
        → (r.1 ≡ none) × (then_next ops r f ≡ f r.0)
    then_next-none (s, none) f h = (refl, refl)
    then_next-none (s, some e) f h = absurd (ground (arith, h))

    pub append_each-Stands :
        (d : ℕ)
        → ((x : Nested V d) (s : State ops d) (rows : List (Nested X d))
            → Stands d s rows
            → IsSmall X d (rows ++ shown_nested shown d x ∷ [])
            → (append ops d x s).1 ≡ none
            → Stands d (append ops d x s).0 (rows ++ shown_nested shown d x ∷ []))
        → (xs : List (Nested V d)) (s : State ops d) (rows : List (Nested X d)) → Stands d s rows
        → IsSmall X d (rows ++ map (shown_nested shown d) xs)
        → (append_each ops (append ops d) xs s).1 ≡ none
        → Stands d (append_each ops (append ops d) xs s).0 (rows ++ map (shown_nested shown d) xs)
    unfolding append_each
    append_each-Stands d one [] s rows h small ok = subst (Stands d s) (sym (append-nil rows)) h
    append_each-Stands d one (x ∷ xs) s rows h small ok =
        let y = shown_nested shown d x in
        let r = append ops d x s in
        let (first, same) = then_next-none r (append_each ops (append ops d) xs) ok in
        let moved = append_assoc rows (y ∷ []) (map (shown_nested shown d) xs) in
        let small' = subst (IsSmall X d) (sym moved) small in
        let held =
          one x s rows h
            (IsSmall-append X d (rows ++ y ∷ []) (map (shown_nested shown d) xs) small') first in
        let rest =
          append_each-Stands d one xs r.0 (rows ++ y ∷ []) held small'
            (ap (λ z. z.1) (sym same) ∙ ok) in
        subst
          (λ (z : State ops d × Option E).
            Stands d z.0 (rows ++ map (shown_nested shown d) (x ∷ xs)))
          (sym same) (subst (Stands d (append_each ops (append ops d) xs r.0).0) moved rest)

    -- AppendRow of a nested slice that gives no error, to offsets and values that stand for `rows`,
    -- makes them stand for `rows` with that slice behind, at every depth.
    pub append-Stands :
        (d : ℕ) (x : Nested V d) (s : State ops d) (rows : List (Nested X d))
        → Stands d s rows
        → IsSmall X d (rows ++ shown_nested shown d x ∷ [])
        → (append ops d x s).1 ≡ none
        → Stands d (append ops d x s).0 (rows ++ shown_nested shown d x ∷ [])
    unfolding append
    append-Stands zero v s rows h small ok = extends v s.1 ok ∙ ap (λ l. l ++ shown v ∷ []) h
    append-Stands (suc d) xs s rows (o, h) (small, smalls) ok =
        let ys = map (shown_nested shown d) xs in
        let joined = concat_last rows ys in
        (
          ap₂ append_offset o (sym (length-map_shown xs)) ∙ append_offset-ends_from rows ys small,
          subst (Stands d (append_each ops (append ops d) xs (s.0.1, s.1)).0) (sym joined) (
              append_each-Stands d (append-Stands d) xs (s.0.1, s.1) (concat rows) h
                (subst (IsSmall X d) joined smalls) ok),
        )
      where
        length-map_shown :
            (xs : List (Nested V d)) → length (map (shown_nested shown d) xs) ≡ length xs
        length-map_shown [] = refl
        length-map_shown (x ∷ xs) = ap suc (length-map_shown xs)
