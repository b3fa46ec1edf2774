-- ===== src/Column/Enum/Extract.antt =====
-- extractEnumNamedValues of lib/column/enum.go reads back the text of a type that the server prints.
use mathlib.Core.List.{append_assoc}
use mathlib.Core.List.{map}
use clickhouse_go.Common.{ℕ, true, false, List, [], ◌∷◌, ◌++◌, Option, some, ◌≡◌, refl, ap, ◌∙◌}
use clickhouse_go.QueryParameters.{ℤ, pos}
use clickhouse_go.Column.Enum.{
  Bytes, EnumType, enum8, enum16, valid, enum_word, switch, round, extract_loop,
  extract_enum_named_values, out_of_range, index_text, capture, type_of,
}
use clickhouse_go.Column.Enum.Steps.{
  Item, Fits, AllFit, inside, outside, item_text, rest_text, pair_of, ends_rest, some_pairs,
  width_text, enum_text, index_text-append, extract_loop-Plain, extract_loop-passing,
  extract_loop-equals, extract_loop-opens, extract_loop-closes,
}

module _ (atoi : Bytes → Option ℤ) where
  -- From behind a comma or the bracket to the item's index.
  pub extract_loop-item :
      (t : EnumType) (seen value : Bytes) (sk : List ℕ) (i : ℤ) (ps : List (Bytes × ℤ)) (it : Item)
      (its : List Item)
      → Fits atoi t it
      → (seen' : Bytes) × (extract_loop atoi
            (item_text it ++ rest_text its)
            (outside (some t) seen value sk false false i ps false)
          ≡ extract_loop atoi
              (rest_text its)
              (outside (some t) seen' it.name sk true true it.index ps true))
  extract_loop-item t seen value sk i ps it its h =
      let after = rest_text its in
      let seen1 = seen ++ b'\'' ∷ [] in
      let seen2 = ((seen1 ++ it.name) ++ b'\'' ∷ []) ++ b' ' ∷ [] in
      let seen3 = seen2 ++ b'=' ∷ [] in
      let (c, more, starts, ends) = ends_rest its in
      let read : atoi (index_text (it.text ++ after)) ≡ some it.index =
        ap (λ l. atoi (index_text (it.text ++ l))) starts
        ∙ ap atoi (index_text-append it.text c more h.inner_lem ends)
        ∙ h.atoi_lem in
      (
        seen3 ++ it.text,
        extract_loop-opens atoi (some t) seen value sk i ps
              ((it.name ++ b'\'' ∷ b' ' ∷ b'=' ∷ it.text) ++ after)
            ∙ ap (λ l. extract_loop atoi l (inside (some t) seen1 [] sk false false i ps))
                (append_assoc it.name (b'\'' ∷ b' ' ∷ b'=' ∷ it.text) after)
            ∙ extract_loop-Plain atoi (some t) seen1 [] sk false false i ps it.name
                (b'\'' ∷ b' ' ∷ b'=' ∷ (it.text ++ after)) h.plain_lem
            ∙ extract_loop-closes atoi (some t) (seen1 ++ it.name) it.name sk i ps
                (b'=' ∷ (it.text ++ after))
            ∙ extract_loop-equals atoi (some t) seen2 it.name sk i it.index ps (it.text ++ after)
                read
            ∙ extract_loop-passing atoi (some t) seen3 it.name sk true true it.index ps it.text
                after h.inner_lem,
      )

  -- A comma, a space behind it, or the bracket at the end, behind an index.
  extract_loop-comma :
      (t : EnumType) (seen name : Bytes) (i : ℤ) (ps : List (Bytes × ℤ)) (rest : Bytes)
      → out_of_range (some t) i ≡ false
      → extract_loop atoi (b',' ∷ b' ' ∷ rest) (outside (some t) seen name [] true true i ps true)
        ≡ extract_loop atoi rest (
            outside
              (some t)
              ((seen ++ b',' ∷ []) ++ b' ' ∷ [])
              name
              []
              false
              false
              i
              (ps ++ (name, i) ∷ [])
              false)
  unfolding extract_loop round switch capture
  extract_loop-comma t seen name i ps rest h = rw h refl

  extract_loop-bracket :
      (t : EnumType) (seen name : Bytes) (i : ℤ) (ps : List (Bytes × ℤ))
      → out_of_range (some t) i ≡ false
      → extract_loop atoi (b')' ∷ []) (outside (some t) seen name [] true true i ps true)
        ≡ valid (some t) (ps ++ (name, i) ∷ [])
  unfolding extract_loop round switch capture
  extract_loop-bracket t seen name i ps h = rw (h, some_pairs ps (name, i)) refl

  extract_loop-items :
      (t : EnumType) (seen name : Bytes) (i : ℤ) (ps : List (Bytes × ℤ)) (its : List Item)
      → out_of_range (some t) i ≡ false
      → AllFit atoi t its
      → extract_loop atoi (rest_text its) (outside (some t) seen name [] true true i ps true)
        ≡ valid (some t) (ps ++ (name, i) ∷ map pair_of its)
  extract_loop-items t seen name i ps [] h fit = extract_loop-bracket t seen name i ps h
  extract_loop-items t seen name i ps (it ∷ its) h (fit, fits) =
      let seen' = (seen ++ b',' ∷ []) ++ b' ' ∷ [] in
      let (seen2, item) = extract_loop-item t seen' name [] i (ps ++ (name, i) ∷ []) it its fit in
      extract_loop-comma t seen name i ps (item_text it ++ rest_text its) h
      ∙ item
      ∙ extract_loop-items t seen2 it.name it.index (ps ++ (name, i) ∷ []) its fit.range_lem fits
      ∙ ap (valid (some t)) (append_assoc ps ((name, i) ∷ []) (map pair_of (it ∷ its)))

  pub extract-opened :
      (t : EnumType) (rest : Bytes)
      → extract_enum_named_values atoi (enum_word ++ (width_text t ++ b'(' ∷ rest))
        ≡ extract_loop atoi rest (
            outside
              (some t)
              (enum_word ++ (width_text t ++ b'(' ∷ []))
              []
              []
              false
              false
              (pos 0)
              []
              false)
  unfolding extract_enum_named_values extract_loop round switch type_of
  extract-opened enum8 rest = refl
  extract-opened enum16 rest = refl

  -- The text of an enum type whose names have no quote and no backslash, whose indexes are read back
  -- and in the range that is tested, gives its names with their indexes, in order.
  pub extract-enum_text :
      (t : EnumType) (it : Item) (its : List Item)
      → AllFit atoi t (it ∷ its)
      → extract_enum_named_values atoi (enum_text t it its)
        ≡ valid (some t) (map pair_of (it ∷ its))
  extract-enum_text t it its (fit, fits) =
      let (seen, item) =
        extract_loop-item t (enum_word ++ (width_text t ++ b'(' ∷ [])) [] [] (pos 0) [] it its
          fit in
      extract-opened t (item_text it ++ rest_text its)
      ∙ item
      ∙ extract_loop-items t seen it.name it.index [] its fit.range_lem fits
