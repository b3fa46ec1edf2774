-- ===== src/Client/Dialing.antt =====
-- clickhouse.go: DefaultDialStrategy. Addresses are numbered as in opt.Addr; `dial_addr` dials one,
-- and `random k` is what rand.Int() answers in round k.
use clickhouse_go.Common.{
  ℕ, zero, suc, ◌+◌, ◌-◌, ◌%◌, ◌≤◌, ◌<◌, List, [], ◌∷◌, ◌++◌, Option, some, ◌≡◌, ◌⊎◌, inl, inr,
  refl, sym, ◌∙◌, ap, arith, ◌>>=◌, length, get_elem?, ltb, Bool-cases, sum-cases,
  get_elem?-append_left, get_elem?-append_right, length-append,
}
use mathlib.Core.Path.{subst}
use mathlib.Core.List.{map}
use native.Mathlib.Nat.{mod-lt, mod-eq_of_lt, mod-eq-sub-mod, mod-add-mod, zero-add}

pub data ConnOpenStrategy : Type 0 where
  conn_open_in_order : ConnOpenStrategy
  conn_open_round_robin : ConnOpenStrategy
  conn_open_random : ConnOpenStrategy

pub data DialOutcome {ℓ κ} (Conn : Type ℓ) (E : Type κ) : Type (ℓ ⊔ κ) where
  dialed : Conn → DialOutcome Conn E
  failed : E → DialOutcome Conn E
  no_address : DialOutcome Conn E

-- The index into opt.Addr of round i.
unfoldable pub dial_index : ConnOpenStrategy → (conn_id : ℕ) → (random : ℕ → ℕ) → ℕ → ℕ → ℕ
dial_index conn_open_in_order conn_id random n i = i
dial_index conn_open_round_robin conn_id random n i = (conn_id + i) % n
dial_index conn_open_random conn_id random n i = (random i + i) % n

module _ {ℓ κ μ} {Addr : Type ℓ} {Conn : Type κ} {E : Type μ} (dial_addr : Addr → Conn ⊎ E) where
  -- The loop, with the last error; an index out of range is a panic, `none`.
  unfoldable pub dial_loop :
      (index : ℕ → ℕ) → List Addr → ℕ → ℕ → DialOutcome Conn E → Option (DialOutcome Conn E)
  dial_loop index addrs zero i last = some last
  dial_loop index addrs (suc rounds) i last = do
    addr ← get_elem? addrs (index i)
    elim (dial_addr addr) [
      | inl c ↦ some (dialed c)
      | inr e ↦ dial_loop index addrs rounds (i + 1) (failed e)
    ]

  unfoldable pub default_dial_strategy :
      ConnOpenStrategy → ℕ → (ℕ → ℕ) → List Addr → Option (DialOutcome Conn E)
  unfolding dial_index dial_loop
  default_dial_strategy strategy conn_id random addrs =
      dial_loop (dial_index strategy conn_id random (length addrs)) addrs (length addrs) 0
        no_address

-- The first address of a list that can be dialled, or the last error; the outcomes are those of
-- the addresses in turn.
abbrev pub first_dialed {κ μ} :
    {Conn : Type κ} {E : Type μ} → List (Conn ⊎ E) → DialOutcome Conn E → DialOutcome Conn E
first_dialed [] last = last
first_dialed (inl c ∷ rs) last = dialed c
first_dialed (inr e ∷ rs) last = first_dialed rs (failed e)

get_elem?-rotate {ℓ} :
    {A : Type ℓ} (ys xs : List A) (k : ℕ)
    → k < length ys + length xs
    → get_elem? (ys ++ xs) ((length ys + k) % (length ys + length xs)) ≡ get_elem? (xs ++ ys) k
get_elem?-rotate ys xs k h = elim (Bool-cases (ltb k (length xs))) [
  | inl e ↦
      let near : length ys + k < length ys + length xs = ground arith in
      rw (mod-eq_of_lt near)
        (get_elem?-append_right ys xs k ∙ sym (get_elem?-append_left xs ys k (ground arith)))
  | inr e ↦
      let over : length ys + length xs ≤ length ys + k = ground arith in
      let j = k - length xs in
      let back : length ys + k - (length ys + length xs) ≡ j = ground arith in
      let near : j < length ys + length xs = ground arith in
      let there : j < length ys = ground arith in
      rw (mod-eq-sub-mod over, back, mod-eq_of_lt near)
        (get_elem?-append_left ys xs j there
          ∙ sym (get_elem?-append_right xs ys j)
          ∙ ap (get_elem? (xs ++ ys)) (ground arith))
]

mod-below : (n m : ℕ) → 1 ≤ m → n % m ≤ m
mod-below n m h = omega (arith, mod-lt n (positive h))
  where
    positive : 1 ≤ m → 0 < m
    positive h = h

split {ℓ} :
    {A : Type ℓ} (m : ℕ) (zs : List A)
    → m ≤ length zs
    → (ys xs : List A) × (ys ++ xs ≡ zs) × (length ys ≡ m)
split zero zs h = ([], zs, refl, refl)
split (suc m) [] h = absurd (omega arith)
split (suc m) (z ∷ zs) h =
    let (ys, xs, e, l) = split m zs (omega arith) in (z ∷ ys, xs, ap (◌∷◌ z) e, ap suc l)

module _ {ℓ κ μ} {Addr : Type ℓ} {Conn : Type κ} {E : Type μ} (dial_addr : Addr → Conn ⊎ E) where
  dial_loop-first :
      (index : ℕ → ℕ) (addrs order : List Addr) (i : ℕ) (last : DialOutcome Conn E)
      → ((k : ℕ) → k < length order → get_elem? addrs (index (i + k)) ≡ get_elem? order k)
      → dial_loop dial_addr index addrs (length order) i last
        ≡ some (first_dialed (map dial_addr order) last)
  unfolding dial_loop
  dial_loop-first index addrs [] i last h = refl
  dial_loop-first index addrs (a ∷ as_) i last h =
      let here : get_elem? addrs (index i) ≡ some a =
        ap (λ j. get_elem? addrs (index j)) (omega arith) ∙ h 0 (omega arith) in
      elim (sum-cases (dial_addr a)) [
        | inl (c, e) ↦ rw (here, e)
        | inr (err, e) ↦
            rw (here, e)
              (dial_loop-first index addrs as_ (i + 1) (failed err)
                λ k lt. ap (λ j. get_elem? addrs (index j)) (omega arith) ∙ h (suc k) (omega arith))
      ]

  -- The round-robin strategy never panics on a list of addresses: it answers with the first one
  -- that can be dialled, from the address that the connID picks and once round the list, or, if
  -- there is none, with the last error.
  pub round_robin-first :
      (conn_id : ℕ) (random : ℕ → ℕ) (addrs : List Addr)
      → 1 ≤ length addrs
      → (ys xs : List Addr) × (ys ++ xs ≡ addrs)
        × (length ys ≡ conn_id % length addrs)
        × (default_dial_strategy dial_addr conn_open_round_robin conn_id random addrs
            ≡ some (first_dialed (map dial_addr (xs ++ ys)) no_address))
  unfolding default_dial_strategy dial_index
  round_robin-first conn_id random addrs h =
      let (ys, xs, e, l) =
        split (conn_id % length addrs) addrs (mod-below conn_id (length addrs) h) in
      let n = length addrs in
      let whole : length (xs ++ ys) ≡ n =
        omega (arith, length-append xs ys, length-append ys xs, ap length e) in
      let both : length ys + length xs ≡ n = omega (arith, length-append ys xs, ap length e) in
      let index_is : (k : ℕ) → (conn_id + (0 + k)) % n ≡ (length ys + k) % (length ys + length xs) =
        λ k. rw (both, l, zero-add) (sym (mod-add-mod conn_id n k)) in
      (
        ys,
        xs,
        e,
        l,
        subst
            (λ r.
              dial_loop dial_addr (λ i. (conn_id + i) % n) addrs r 0 no_address
              ≡ some (first_dialed (map dial_addr (xs ++ ys)) no_address))
            whole
            (dial_loop-first (λ i. (conn_id + i) % n) addrs (xs ++ ys) 0 no_address
              λ k lt.
                ap (get_elem? addrs) (index_is k)
                ∙ ap (λ zs. get_elem? zs ((length ys + k) % (length ys + length xs))) (sym e)
                ∙ get_elem?-rotate ys xs k (omega (arith, lt, whole, both))),
      )

  -- The in-order strategy never panics: it answers with the first address in the options' order that
  -- can be dialled, or the last error, or that there is no address.
  pub in_order-first :
      (conn_id : ℕ) (random : ℕ → ℕ) (addrs : List Addr)
      → default_dial_strategy dial_addr conn_open_in_order conn_id random addrs
        ≡ some (first_dialed (map dial_addr addrs) no_address)
  unfolding default_dial_strategy dial_index
  in_order-first conn_id random addrs =
      dial_loop-first (λ i. i) addrs addrs 0 no_address λ k lt. rw zero-add

  -- The random strategy draws a number in each round: for two addresses, numbers exist with which
  -- it dials the first one twice, and fails though the second could be dialled.
  pub random-misses :
      (a b : Addr) (c : Conn) (e : E) (conn_id : ℕ)
      → dial_addr a ≡ inr e
      → dial_addr b ≡ inl c
      → (random : ℕ → ℕ) × (default_dial_strategy dial_addr conn_open_random conn_id random
            (a ∷ b ∷ [])
          ≡ some (failed e))
  unfolding default_dial_strategy dial_index dial_loop
  random-misses a b c e conn_id ha hb = (λ k. k, simp ha)
