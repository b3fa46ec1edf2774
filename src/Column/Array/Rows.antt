-- ===== src/Column/Array/Rows.antt =====
-- Row of lib/column/array.go gives the rows that the offsets and the values stand for.
use mathlib.Core.List.{map, append_assoc}
use clickhouse_go.Common.{
  false, ℕ, zero, suc, ◌+◌, List, [], ◌∷◌, ◌++◌, Option, some, length, length-append, get_elem?,
  get_elem?-append_middle, ltb, ◌≡◌, refl, sym, ap, ◌∙◌, arith,
}
use clickhouse_go.Column.Array.{Nested, Offsets, scan_slice, slice, start_of, all_some, count_from}
use clickhouse_go.Column.Array.Append.{Represents, concat, ends_from}

-- The start of row `i`, where the rows start behind `n` elements.
abbrev start_behind : ℕ → List ℕ → ℕ → Option ℕ
start_behind n offsets zero = some n
start_behind n offsets (suc i) = get_elem? offsets i

start_behind-suc :
    (n m : ℕ) (offsets : List ℕ) (i : ℕ)
    → start_behind n (m ∷ offsets) (suc i) ≡ start_behind m offsets i
start_behind-suc n m offsets zero = refl
start_behind-suc n m offsets (suc i) = refl

not_below : (n k : ℕ) → ltb (n + k) n ≡ false
not_below n k = ground arith

module _ {A : Type 0} where
  -- Reads of consecutive elements give the elements.
  all_some-count_from :
      (f : ℕ → Option A) (before xs after : List A) (n : ℕ)
      → length before ≡ n
      → ((j : ℕ) → f j ≡ get_elem? (before ++ (xs ++ after)) j)
      → all_some (map f (count_from n (length xs))) ≡ some xs
  all_some-count_from f before [] after n l h = refl
  all_some-count_from f before (x ∷ xs) after n l h =
      let first : f n ≡ some x =
        ap f (sym l) ∙ h (length before) ∙ get_elem?-append_middle before x (xs ++ after) in
      let rest =
        all_some-count_from f (before ++ x ∷ []) xs after (suc n)
          (length-append before (x ∷ []) ∙ omega (arith, l))
          (λ j. h j ∙ ap (λ l. get_elem? l j) (sym (append_assoc before (x ∷ []) (xs ++ after)))) in
      rw (first, rest) refl

  slice-ends_from :
      (f : ℕ → Option A) (before : List A) (rows : List (List A)) (n i : ℕ)
      → length before ≡ n
      → ((j : ℕ) → f j ≡ get_elem? (before ++ concat rows) j)
      → slice f (start_behind n (ends_from n rows) i) (get_elem? (ends_from n rows) i)
        ≡ get_elem? rows i
  slice-ends_from f before [] n zero l h = refl
  slice-ends_from f before [] n (suc i) l h = refl
  slice-ends_from f before (x ∷ rows) n zero l h = rw (not_below n (length x)) (
      ap (λ k. all_some (map f (count_from n k))) (omega arith)
      ∙ all_some-count_from f before x (concat rows) n l h)
  slice-ends_from f before (x ∷ rows) n (suc i) l h =
      ap (λ b. slice f b (get_elem? (ends_from (n + length x) rows) i))
        (start_behind-suc n (n + length x) (ends_from (n + length x) rows) i)
      ∙ slice-ends_from f (before ++ x) rows (n + length x) i
          (length-append before x ∙ ap (λ k. k + length x) l)
          (λ j. h j ∙ ap (λ l. get_elem? l j) (sym (append_assoc before x (concat rows))))

start_of_lem : (offsets : List ℕ) (i : ℕ) → start_of offsets i ≡ start_behind 0 offsets i
start_of_lem offsets zero = refl
start_of_lem offsets (suc i) = refl

-- A scan of row `i`, at every depth, gives that row of those that the offsets and the values stand
-- for, and reads out of range exactly if there is no such row.
pub scan_slice-Represents :
    {X : Type 0} (value : ℕ → Option X) (d : ℕ) (o : Offsets d) (items : List X)
    (rows : List (Nested X d)) (i : ℕ)
    → ((j : ℕ) → value j ≡ get_elem? items j)
    → Represents d o items rows
    → scan_slice value d o i ≡ get_elem? rows i
unfolding scan_slice
scan_slice-Represents value zero o items rows i reads h = reads i ∙ ap (λ l. get_elem? l i) h
scan_slice-Represents value (suc d) o items rows i reads (ends, h) =
    let inner = λ (j : ℕ). scan_slice-Represents value d o.1 items (concat rows) j reads h in
    ap (λ os. slice (scan_slice value d o.1) (start_of os i) (get_elem? os i)) ends
    ∙ ap (λ b. slice (scan_slice value d o.1) b (get_elem? (ends_from 0 rows) i))
        (start_of_lem (ends_from 0 rows) i)
    ∙ slice-ends_from (scan_slice value d o.1) [] rows 0 i refl inner
