-- ===== src/Column/LowCardinality/Kept.antt =====
-- lib/column/lowcardinality.go: what Append keeps true of the dictionary and the keys.
use mathlib.Core.List.{append-nil, append_assoc}
use mathlib.Core.Option.{some-injective}
use clickhouse_go.Common.{
  ℕ, suc, ◌+◌, Bool, true, false, List, [], ◌∷◌, ◌++◌, Option, none, some, ◌⊎◌, inl, inr, ◌≡◌, refl,
  sym, ap, ◌∙◌, arith, ◌==◌, length, length-append,
}
use clickhouse_go.Column.LowCardinality.{
  LowCardinality, reset, find, init_index, append_value, append_row, append,
}
use clickhouse_go.Column.LowCardinality.Good.{Good, Good-null, Good-old, Good-new}

module _ {A : Type 0} (same : A → A → Bool) (default : A) (accepts : A → Bool) (normal : A → A)
    (sound : (a b : A) → same a b ≡ true → a ≡ b) where
  -- A column that has taken `vs`.
  pub record Kept (nullable : Bool) (c : LowCardinality A) (vs : List (Option A)) : Type 0 where
    pub rows : c.rows ≡ length vs
    pub null : c.nullable ≡ nullable
    pub no8 : c.keys8 ≡ []
    pub no16 : c.keys16 ≡ []
    pub no32 : c.keys32 ≡ []
    pub no64 : c.keys64 ≡ []
    pub state :
        ((c.index ≡ []) × (c.append_keys ≡ []) × (c.append_index ≡ []) × (vs ≡ []))
        ⊎ Good same default accepts normal sound nullable c.index c.append_keys c.append_index vs

  Good-start :
      (nullable : Bool)
      → Good same default accepts normal sound nullable
          (init_index same default accepts normal nullable [])
          []
          []
          []
  Good-start true = record {
    points = tt;
    found = tt;
    first = refl;
    sized = omega arith;
    few = omega arith;
  }
  Good-start false = record {
    points = tt;
    found = tt;
    first = refl;
    sized = omega arith;
    few = omega arith;
  }

  Good-init :
      (nullable : Bool) (index : List A) (ks : List ℕ) (m : List (A × ℕ)) (vs : List (Option A))
      → ((index ≡ []) × (ks ≡ []) × (m ≡ []) × (vs ≡ []))
        ⊎ Good same default accepts normal sound nullable index ks m vs
      → Good same default accepts normal sound nullable
          (init_index same default accepts normal nullable index)
          ks
          m
          vs
  Good-init nullable [] [] [] [] (inl e) = Good-start nullable
  Good-init nullable [] (k ∷ ks) m vs (inl (_, e, _, _)) = absurd (ground (arith, e))
  Good-init nullable [] [] (x ∷ m) vs (inl (_, _, e, _)) = absurd (ground (arith, e))
  Good-init nullable [] [] [] (v ∷ vs) (inl (_, _, _, e)) = absurd (ground (arith, e))
  Good-init nullable [] ks m vs (inr g) = absurd (ground (arith, g.first))
  Good-init nullable (a ∷ index) ks m vs (inl (e, _, _, _)) = absurd (ground (arith, e))
  Good-init nullable (a ∷ index) ks m vs (inr g) =
      let e : (suc (length index) == 0) ≡ false = ground arith in rw e g

  with_row :
      {nullable : Bool} {c : LowCardinality A} {vs : List (Option A)} (v : Option A)
      (index : List A) (ks : List ℕ) (m : List (A × ℕ))
      → Kept nullable c vs
      → Good same default accepts normal sound nullable index ks m (vs ++ v ∷ [])
      → Kept nullable
          (record c { rows = c.rows + 1; index = index; append_keys = ks; append_index = m })
          (vs ++ v ∷ [])
  with_row {vs = vs} v index ks m kept g = record {
    rows = omega (arith, kept.rows, length-append vs (v ∷ []));
    null = kept.null;
    no8 = kept.no8;
    no16 = kept.no16;
    no32 = kept.no32;
    no64 = kept.no64;
    state = inr g;
  }

  Kept-init :
      {nullable : Bool} {c : LowCardinality A} {vs : List (Option A)}
      → Kept nullable c vs
      → Good same default accepts normal sound nullable
          (init_index same default accepts normal c.nullable c.index)
          c.append_keys
          c.append_index
          vs
  Kept-init {nullable = nullable} {c = c} {vs = vs} kept =
      rw kept.null (Good-init nullable c.index c.append_keys c.append_index vs kept.state)

  append_value-Kept :
      {nullable : Bool} (c : LowCardinality A) (vs : List (Option A)) (v : A) (r : Option ℕ)
      → Kept nullable c vs
      → accepts (normal v) ≡ true
      → same (normal v) (normal v) ≡ true
      → find same default accepts normal (normal v) c.append_index ≡ r
      → let c1 : LowCardinality A = record c {
        rows = c.rows + 1;
        index = init_index same default accepts normal c.nullable c.index;
      } in
        let out = append_value same default accepts normal c1 (normal v) r in
        Kept nullable out.0 (vs ++ some v ∷ []) × (out.1 ≡ false)
  unfolding append_value
  append_value-Kept c vs v (some k) kept ok self e = (
    with_row (some v) _ _ _ kept
        (Good-old same default accepts normal sound v k (Kept-init kept) e),
    refl,
  )
  append_value-Kept c vs v none kept ok self e =
      rw (ok, self)
        (
          with_row (some v) _ _ _ kept
              (Good-new same default accepts normal sound v (Kept-init kept)),
          refl,
        )

  append_row-Kept :
      {nullable : Bool} (c : LowCardinality A) (vs : List (Option A)) (v : Option A)
      → Kept nullable c vs
      → ((a : A) → v ≡ some a → (accepts (normal a) ≡ true) × (same (normal a) (normal a) ≡ true))
      → let r = append_row same default accepts normal c v in
        Kept nullable r.0 (vs ++ v ∷ []) × (r.1 ≡ false)
  unfolding append_row
  append_row-Kept c vs none kept ok = (
    with_row none _ _ _ kept (Good-null same default accepts normal sound (Kept-init kept)),
    refl,
  )
  append_row-Kept c vs (some v) kept ok =
      append_value-Kept c vs v _ kept (ok v refl).0 (ok v refl).1 refl

  -- The dictionary takes each value, which as a key of the map is the same as itself.
  abbrev pub AllAccepted : List (Option A) → Type 0
  AllAccepted [] = Unit
  AllAccepted (none ∷ vs) = AllAccepted vs
  AllAccepted (some v ∷ vs) =
      ((accepts (normal v) ≡ true) × (same (normal v) (normal v) ≡ true)) × AllAccepted vs

  accepted_head :
      (v : Option A) (vs : List (Option A))
      → AllAccepted (v ∷ vs)
      → ((a : A) → v ≡ some a → (accepts (normal a) ≡ true) × (same (normal a) (normal a) ≡ true))
        × AllAccepted vs
  accepted_head none vs h = (λ a e. absurd (ground (arith, e)), h)
  accepted_head (some v) vs ((k, self), h) = (
    λ a e.
        let x = sym (some-injective _ _ e) in
        (ap (λ b. accepts (normal b)) x ∙ k, ap (λ b. same (normal b) (normal b)) x ∙ self),
    h,
  )

  pub append-Kept :
      {nullable : Bool} (c : LowCardinality A) (vs us : List (Option A))
      → Kept nullable c vs
      → AllAccepted us
      → let r = append same default accepts normal c us in
        Kept nullable r.0 (vs ++ us) × (r.1 ≡ false)
  unfolding append
  append-Kept c vs [] kept h = (rw (append-nil vs) kept, refl)
  append-Kept c vs (u ∷ us) kept h =
      let (ok, all) = accepted_head u us h in
      let (kept', done) = append_row-Kept c vs u kept ok in
      let rest =
        append-Kept (append_row same default accepts normal c u).0 (vs ++ u ∷ []) us kept' all in
      rw done (rw (append_assoc vs (u ∷ []) us) at rest)

  pub reset-Kept : (c : LowCardinality A) → Kept c.nullable (reset c) []
  unfolding reset
  reset-Kept c = record {
    rows = refl;
    null = refl;
    no8 = refl;
    no16 = refl;
    no32 = refl;
    no64 = refl;
    state = inl (refl, refl, refl, refl);
  }
