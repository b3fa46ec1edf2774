-- ===== src/Column/BigInt/Swap.antt =====
-- lib/column/bigint.go: endianSwap on an even number of bytes.
use mathlib.Core.List.{map, append_assoc, append-nil}
use clickhouse_go.Common.{
  ℕ, zero, suc, ◌+◌, ◌-◌, ◌/◌, Bool, List, [], ◌∷◌, ◌++◌, some, ◌>>=◌, ◌≡◌, refl, sym, ap, ◌∙◌,
  arith, length, length-append, get_elem?, get_elem?-append_middle, set, set-append_middle,
}
use clickhouse_go.Column.BigInt.{swap_byte, swap_loop, endian_swap}
use clickhouse_go.Column.BigInt.Bytes.{map-append_last}

-- The other way round.
abbrev pub flip : List ℕ → List ℕ
flip [] = []
flip (x ∷ xs) = flip xs ++ x ∷ []

flip-append_last : (xs : List ℕ) (b : ℕ) → flip (xs ++ b ∷ []) ≡ b ∷ flip xs
flip-append_last [] b = refl
flip-append_last (x ∷ xs) b = ap (λ r. r ++ x ∷ []) (flip-append_last xs b)

pub flip-flip : (xs : List ℕ) → flip (flip xs) ≡ xs
flip-flip [] = refl
flip-flip (x ∷ xs) = flip-append_last (flip xs) x ∙ ap (◌∷◌ x) (flip-flip xs)

pub length-flip : (xs : List ℕ) → length (flip xs) ≡ length xs
length-flip [] = refl
length-flip (x ∷ xs) = omega (arith, length-append (flip xs) (x ∷ []), length-flip xs)

pub map-flip : (f : ℕ → ℕ) (xs : List ℕ) → map f (flip xs) ≡ flip (map f xs)
map-flip f [] = refl
map-flip f (x ∷ xs) = map-append_last f (flip xs) x ∙ ap (λ r. r ++ f x ∷ []) (map-flip f xs)

-- A list that is not empty has a last item.
split_last :
    (n : ℕ) (xs : List ℕ)
    → length xs ≡ suc n
    → (ys : List ℕ) × (b : ℕ) × (xs ≡ ys ++ b ∷ []) × (length ys ≡ n)
split_last n [] h = absurd (omega (arith, h))
split_last zero (x ∷ []) h = ([], x, refl, refl)
split_last (suc n) (x ∷ []) h = absurd (omega (arith, h))
split_last zero (x ∷ y ∷ xs) h = absurd (omega (arith, h))
split_last (suc n) (x ∷ y ∷ xs) h =
    let (ys, b, e, k) = split_last n (y ∷ xs) (omega (arith, h)) in
    (x ∷ ys, b, ap (◌∷◌ x) e, ap suc k)

module _ (negate : Bool) where
  -- One round: the outer two of the bytes that are left change places.
  swap_round :
      (k i : ℕ) (p mid s : List ℕ) (a b : ℕ)
      → length p ≡ i
      → length s ≡ i
      → swap_loop negate (suc k) i (p ++ a ∷ (mid ++ b ∷ s))
        ≡ swap_loop negate k
            (i + 1)
            ((p ++ swap_byte negate b ∷ []) ++ (mid ++ swap_byte negate a ∷ s))
  unfolding swap_loop
  swap_round k i p mid s a b hp hs =
      let f = swap_byte negate in
      let src = p ++ a ∷ (mid ++ b ∷ s) in
      let far = length src - i - 1 in
      let front = p ++ a ∷ mid in
      let split : src ≡ front ++ b ∷ s = sym (append_assoc p (a ∷ mid) (b ∷ s)) in
      let far_is : far ≡ length front = omega (
        arith,
        length-append p (a ∷ (mid ++ b ∷ s)),
        length-append mid (b ∷ s),
        length-append p (a ∷ mid),
        hp,
        hs,
      ) in
      let got_a : get_elem? src i ≡ some a =
        ap (get_elem? src) (sym hp) ∙ get_elem?-append_middle p a (mid ++ b ∷ s) in
      let got_b : get_elem? src far ≡ some b =
        ap (get_elem? src) far_is
        ∙ ap (λ l. get_elem? l (length front)) split
        ∙ get_elem?-append_middle front b s in
      let front' = p ++ f b ∷ mid in
      let far_is' : far ≡ length front' =
        far_is ∙ omega (arith, length-append p (a ∷ mid), length-append p (f b ∷ mid)) in
      let near_set : set src i (f b) ≡ front' ++ b ∷ s =
        ap (λ j. set src j (f b)) (sym hp)
        ∙ set-append_middle p a (f b) (mid ++ b ∷ s)
        ∙ sym (append_assoc p (f b ∷ mid) (b ∷ s)) in
      let both_set : set (set src i (f b)) far (f a) ≡ (p ++ f b ∷ []) ++ (mid ++ f a ∷ s) =
        ap (λ l. set l far (f a)) near_set
        ∙ ap (λ j. set (front' ++ b ∷ s) j (f a)) far_is'
        ∙ set-append_middle front' b (f a) s
        ∙ append_assoc p (f b ∷ mid) (f a ∷ s)
        ∙ sym (append_assoc p (f b ∷ []) (mid ++ f a ∷ s)) in
      ap
        (λ o. o >>= λ x.
          get_elem? src far >>= λ y. swap_loop negate k (i + 1) (set (set src i (f y)) far (f x)))
        got_a
      ∙ ap (λ o. o >>= λ y. swap_loop negate k (i + 1) (set (set src i (f y)) far (f a))) got_b
      ∙ ap (swap_loop negate k (i + 1)) both_set

  swap_loop-flip :
      (k i : ℕ) (p m s : List ℕ)
      → length m ≡ k + k
      → length p ≡ i
      → length s ≡ i
      → swap_loop negate k i (p ++ (m ++ s)) ≡ some (p ++ (flip (map (swap_byte negate) m) ++ s))
  swap_loop-flip zero i p [] s h hp hs = unfold swap_loop in refl
  swap_loop-flip zero i p (a ∷ m) s h hp hs = absurd (omega (arith, h))
  swap_loop-flip (suc k) i p [] s h hp hs = absurd (omega (arith, h))
  swap_loop-flip (suc k) i p (a ∷ m) s h hp hs =
      let f = swap_byte negate in
      let (mid, b, e, n) = split_last (k + k) m (omega (arith, h)) in
      ap (λ l. swap_loop negate (suc k) i (p ++ a ∷ l))
        (ap (λ l. l ++ s) e ∙ append_assoc mid (b ∷ []) s)
      ∙ swap_round k i p mid s a b hp hs
      ∙ swap_loop-flip k (i + 1) (p ++ f b ∷ []) mid (f a ∷ s) n
          (omega (arith, length-append p (f b ∷ []), hp)) (omega (arith, hs))
      ∙ ap some (
          append_assoc p (f b ∷ []) (flip (map f mid) ++ f a ∷ s)
          ∙ ap (λ l. p ++ f b ∷ l) (sym (append_assoc (flip (map f mid)) (f a ∷ []) s))
          ∙ ap (λ l. p ++ ((l ++ f a ∷ []) ++ s))
              (sym (
                ap (λ x. flip (map f x)) e
                ∙ ap flip (map-append_last f mid b)
                ∙ flip-append_last (map f mid) (f b))))

-- endianSwap of an even number of bytes turns them round, and complements each if it is to.
pub endian_swap-flip :
    (half : ℕ) (src : List ℕ) (negate : Bool)
    → length src ≡ half + half
    → endian_swap src negate ≡ some (flip (map (swap_byte negate) src))
unfolding endian_swap
endian_swap-flip half src negate h =
    let halves : length src / 2 ≡ half = omega (arith, h) in
    ap (λ k. swap_loop negate k 0 src) halves
    ∙ ap (swap_loop negate half 0) (sym (append-nil src))
    ∙ swap_loop-flip negate half 0 [] src [] h refl refl
    ∙ ap some (append-nil (flip (map (swap_byte negate) src)))
