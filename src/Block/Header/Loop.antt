-- ===== src/Block/Header/Loop.antt =====
-- The loop of Block.Encode over indices, as a pass over the columns.
use clickhouse_go.Common.{
  ℕ, suc, List, [], ◌∷◌, ◌++◌, none, length, ◌≡◌, refl, sym, ap, ◌∙◌, arith,
  get_elem?-append_middle, set-append_middle, length-append,
}
use mathlib.Core.List.{map, append_assoc}
use clickhouse_go.Block.{Bytes, Wire, ColumnOps, Block}
use clickhouse_go.Block.Header.{
  Written, encode_one, encode_column, encode_columns, encode_at, behind,
}

module _ {Col V E : Type 0} (w : Wire E) (ops : ColumnOps Col V E) (revision : ℕ) where
  -- The bytes of the columns, one behind the other.
  unfoldable pub all_bytes : List Col → Bytes
  all_bytes [] = []
  all_bytes (c ∷ cs) = (encode_one w ops revision c).0 ++ all_bytes cs

  -- No column fails to write its state prefix.
  abbrev pub AllWrite : List Col → Type 0
  AllWrite [] = Unit {0}
  AllWrite (c ∷ cs) = ((encode_one w ops revision c).2 ≡ none) × AllWrite cs

  abbrev pub behind_encode : Col → Col
  behind_encode c = (encode_one w ops revision c).1

  abbrev block_of : List Bytes → List Col → Block Col
  block_of ns cs = record { names = ns; columns = cs }

  encode_column_middle :
      (ns : List Bytes) (before cs : List Col) (c : Col)
      → encode_column w ops revision (block_of ns (before ++ c ∷ cs)) (length before) ≡ (
        (encode_one w ops revision c).0,
        block_of ns ((before ++ behind_encode c ∷ []) ++ cs),
        (encode_one w ops revision c).2,
      )
  unfolding encode_column
  encode_column_middle ns before cs c =
      ap (encode_at w ops revision (block_of ns (before ++ c ∷ cs)) (length before))
        (get_elem?-append_middle before c cs)
      ∙ ap (λ l. ((encode_one w ops revision c).0, block_of ns l, (encode_one w ops revision c).2))
          (set-append_middle before c (behind_encode c) cs
            ∙ sym (append_assoc before (behind_encode c ∷ []) cs))

  pub encode_columns-append :
      (ns : List Bytes) (before cs : List Col)
      → AllWrite cs
      → encode_columns w ops revision (length cs) (length before) (block_of ns (before ++ cs))
        ≡ (all_bytes cs, block_of ns (before ++ map behind_encode cs), none)
  unfolding encode_columns all_bytes
  encode_columns-append ns before [] h = refl
  encode_columns-append ns before (c ∷ cs) (h, hs) =
      let after = before ++ behind_encode c ∷ [] in
      let step : length after ≡ suc (length before) =
        omega (arith, length-append before (behind_encode c ∷ [])) in
      let next = encode_columns w ops revision (length cs) (suc (length before)) in
      ap (λ r. behind w ops r next) (encode_column_middle ns before cs c)
      ∙ ap (λ e. behind w ops ((encode_one w ops revision c).0, block_of ns (after ++ cs), e) next)
          h
      ∙ ap
          (λ i.
            let r = encode_columns w ops revision (length cs) i (block_of ns (after ++ cs)) in
            ((encode_one w ops revision c).0 ++ r.0, r.1, r.2))
          (sym step)
      ∙ ap (λ (r : Written Col E). ((encode_one w ops revision c).0 ++ r.0, r.1, r.2))
          (encode_columns-append ns after cs hs)
      ∙ ap (λ l. (all_bytes (c ∷ cs), block_of ns l, none))
          (append_assoc before (behind_encode c ∷ []) (map behind_encode cs))
