-- ===== src/Bind/Params/Reference.antt =====
-- bindNumeric and bindNamed against a reference of its own: the query cut by modes, the arguments
-- with their keys, and the last argument of a key for each placeholder.
use clickhouse_go.Common.{
  ℕ, zero, suc, ◌+◌, Bool, true, false, ◌&&◌, List, [], ◌∷◌, Option, none, some, ◌==◌, ◌≡◌, refl,
  ap, ◌∙◌, arith, if◌then◌else◌, length,
}
use clickhouse_go.Common.Bytes.{same_bytes}
use clickhouse_go.Common.Decimal.{decimal}
use clickhouse_go.Bind.Quote.{Bytes, is_digit}
use clickhouse_go.Bind.Errors.{no_arg_for, Result, ok, err, after, map_ok}
use clickhouse_go.Bind.Modes.{
  Mode, plain, is_plain, scan, state_of, update-scan, protected-plain, digit, word, is_digit-digit,
}
use clickhouse_go.Bind.Params.{
  Ahead, second, name_left, ahead_of, ParamMap, equal, lookup, take_name, starts_name, ended,
  numeric_params, bind_numeric,
}
use clickhouse_go.Bind.Params.Pieces.{
  Piece, lit, param, pieces, missing, splice, value_or_nothing, unless_found,
}
use clickhouse_go.Bind.Params.Law.{after-cong, bind_numeric-splice}

-- The longest run of characters at the front.
abbrev pub run : (ℕ → Bool) → Bytes → Bytes
run is_char [] = []
run is_char (c ∷ rest) = if is_char c then c ∷ run is_char rest else []

abbrev pub begins : (ℕ → Bool) → Bytes → Bool
begins is_char [] = false
begins is_char (c ∷ rest) = is_char c

-- In plain text the mark with the run of name characters behind it is a placeholder.
abbrev pub cut : ℕ → (ℕ → Bool) → Ahead → Bytes → Mode → Bytes → List Piece
cut mark is_char ahead before m [] = []
cut mark is_char second before m (c ∷ rest) =
    lit c ∷ cut mark is_char (name_left 0) (c ∷ before) m rest
cut mark is_char (name_left (suc k)) before m (c ∷ rest) =
    cut mark is_char (name_left k) (c ∷ before) m rest
cut mark is_char (name_left zero) before m (c ∷ rest) =
    let name = run is_char rest in
    let here = param (c ∷ name) ∷ cut mark is_char (name_left (length name)) (c ∷ before) m rest in
    let r = scan m before c rest in
    let there = lit c ∷ cut mark is_char (ahead_of r.1) (c ∷ before) r.0 rest in
    if is_plain m && c == mark && begins is_char rest then here else there

module _ (mark : ℕ) (f g : ℕ → Bool) (same : (c : ℕ) → f c ≡ g c) where
  take_name-run : (q : Bytes) → take_name f q ≡ run g q
  unfolding take_name
  take_name-run [] = refl
  take_name-run (c ∷ q) = rw (same c, take_name-run q) refl

  starts_name-begins : (q : Bytes) → starts_name f q ≡ begins g q
  starts_name-begins [] = refl
  starts_name-begins (c ∷ q) = same c

  pieces-cut :
      (ahead : Ahead) (before : Bytes) (m : Mode) (q : Bytes)
      → pieces mark f ahead before (state_of m) q ≡ cut mark g ahead before m q
  unfolding pieces
  pieces-cut ahead before m [] = refl
  pieces-cut second before m (c ∷ rest) =
      ap (◌∷◌ (lit c)) (pieces-cut (name_left 0) (c ∷ before) m rest)
  pieces-cut (name_left (suc k)) before m (c ∷ rest) = pieces-cut (name_left k) (c ∷ before) m rest
  pieces-cut (name_left zero) before m (c ∷ rest) =
      let r = scan m before c rest in
      rw
        (
          update-scan m before c rest,
          protected-plain m,
          take_name-run rest,
          starts_name-begins rest,
          pieces-cut (name_left (length (run g rest))) (c ∷ before) m rest,
          pieces-cut (ahead_of r.1) (c ∷ before) r.0 rest,
        )
        refl

-- The last value of a key, if it has one.
abbrev or_else : Option Bytes → Option Bytes → Option Bytes
or_else none o = o
or_else (some v) o = some v

abbrev last_value : Bytes → List (Bytes × Bytes) → Option Bytes
last_value key [] = none
last_value key ((k, v) ∷ m) = or_else (last_value key m) (if same_bytes k key then some v else none)

-- The text with the last values put in, and the keys of placeholders that have none.
abbrev pub put_in : List (Bytes × Bytes) → List Piece → Bytes
put_in m [] = []
put_in m (lit c ∷ ps) = c ∷ put_in m ps
put_in m (param key ∷ ps) = value_or_nothing (last_value key m) (put_in m ps)

abbrev lacking : List (Bytes × Bytes) → List Piece → List Bytes
lacking m [] = []
lacking m (lit c ∷ ps) = lacking m ps
lacking m (param key ∷ ps) = unless_found (last_value key m) key (lacking m ps)

abbrev pub settle : {E : Type 0} → List Bytes → Bytes → Result E Bytes
settle [] out = ok out
settle (key ∷ keys) out = err (no_arg_for (key ∷ keys))

-- The formatted arguments with their keys, in order, or the first error.
abbrev keyed :
    {Arg E : Type 0}
    → (Arg → Result E Bytes)
    → (ℕ → Arg → Bytes)
    → ℕ
    → List Arg
    → Result E (List (Bytes × Bytes))
keyed format_arg key i [] = ok []
keyed format_arg key i (a ∷ args) =
    after (format_arg a) λ v. map_ok (λ m. (key i a, v) ∷ m) (keyed format_arg key (i + 1) args)

-- The map that the loops over the arguments make.
push : List (Bytes × Bytes) → ParamMap → ParamMap
push [] acc = acc
push (e ∷ m) acc = push m (e ∷ acc)

equal-same : (x y : Bytes) → equal x y ≡ same_bytes x y
unfolding equal
equal-same [] [] = refl
equal-same [] (y ∷ ys) = refl
equal-same (x ∷ xs) [] = refl
equal-same (x ∷ xs) (y ∷ ys) = ground (arith, equal-same xs ys)

or_else-if :
    (o : Option Bytes) (b : Bool) (v : Bytes) (tail : Option Bytes)
    → or_else o (if b then some v else tail) ≡ or_else (or_else o (if b then some v else none)) tail
or_else-if none true v tail = refl
or_else-if none false v tail = refl
or_else-if (some w) b v tail = refl

lookup-push :
    (m : List (Bytes × Bytes)) (acc : ParamMap) (key : Bytes)
    → lookup key (push m acc) ≡ or_else (last_value key m) (lookup key acc)
unfolding push lookup
lookup-push [] acc key = refl
lookup-push ((k, v) ∷ m) acc key =
    lookup-push m ((k, v) ∷ acc) key
    ∙ rw (equal-same k key) (or_else-if (last_value key m) (same_bytes k key) v (lookup key acc))

or_else-none : (o : Option Bytes) → or_else o none ≡ o
or_else-none none = refl
or_else-none (some v) = refl

lookup-last : (m : List (Bytes × Bytes)) (key : Bytes) → lookup key (push m []) ≡ last_value key m
unfolding lookup
lookup-last m key = lookup-push m [] key ∙ or_else-none (last_value key m)

splice-put_in : (m : List (Bytes × Bytes)) (ps : List Piece) → splice (push m []) ps ≡ put_in m ps
splice-put_in m [] = refl
splice-put_in m (lit c ∷ ps) = ap (◌∷◌ c) (splice-put_in m ps)
splice-put_in m (param key ∷ ps) = rw (lookup-last m key, splice-put_in m ps) refl

missing-lacking :
    (m : List (Bytes × Bytes)) (ps : List Piece) → missing (push m []) ps ≡ lacking m ps
missing-lacking m [] = refl
missing-lacking m (lit c ∷ ps) = missing-lacking m ps
missing-lacking m (param key ∷ ps) = rw (lookup-last m key, missing-lacking m ps) refl

ended-settle :
    {E : Type 0} (keys : List Bytes) (out : Bytes) → ended {E = E} keys out ≡ settle keys out
unfolding ended
ended-settle [] out = refl
ended-settle (key ∷ keys) out = refl

push-after :
    {E : Type 0} (r : Result E Bytes) (k : Bytes) (acc : ParamMap)
    (rest : Result E (List (Bytes × Bytes)))
    → after r (λ v. map_ok (λ m. push m ((k, v) ∷ acc)) rest)
      ≡ map_ok (λ m. push m acc) (after r (λ v. map_ok (λ m. (k, v) ∷ m) rest))
unfolding push
push-after (ok v) k acc (ok m) = refl
push-after (ok v) k acc (err e) = refl
push-after (err e) k acc rest = refl

settled :
    {E : Type 0} (r : Result E (List (Bytes × Bytes))) (ps : List Piece)
    → after (map_ok (λ m. push m []) r) (λ m. ended (missing m ps) (splice m ps))
      ≡ after r (λ m. settle (lacking m ps) (put_in m ps))
settled (ok m) ps =
    rw (missing-lacking m ps, splice-put_in m ps) (ended-settle (lacking m ps) (put_in m ps))
settled (err e) ps = refl

module _ {Arg E : Type 0} (format_arg : Arg → Result E Bytes) where
  abbrev pub named_answer : (Arg → Bytes) → Bytes → List Arg → Result E Bytes
  named_answer name_of query args =
      let ps = cut b'@' word (name_left 0) [] plain query in
      after (keyed format_arg (λ i a. b'@' ∷ name_of a) 0 args)
        (λ m. settle (lacking m ps) (put_in m ps))

  abbrev pub numeric_answer : Bytes → List Arg → Result E Bytes
  numeric_answer query args =
      let ps = cut b'$' digit (name_left 0) [] plain query in
      after (keyed format_arg (λ i a. b'$' ∷ decimal (i + 1)) 0 args)
        (λ m. settle (lacking m ps) (put_in m ps))

  numeric_params-keyed :
      (i : ℕ) (acc : ParamMap) (args : List Arg)
      → numeric_params format_arg i acc args
        ≡ map_ok (λ m. push m acc) (keyed format_arg (λ i a. b'$' ∷ decimal (i + 1)) i args)
  unfolding numeric_params push
  numeric_params-keyed i acc [] = refl
  numeric_params-keyed i acc (a ∷ args) =
      after-cong (format_arg a)
        (λ v. numeric_params-keyed (i + 1) ((b'$' ∷ decimal (i + 1), v) ∷ acc) args)
      ∙ push-after (format_arg a) (b'$' ∷ decimal (i + 1)) acc _

  -- bindNumeric in the same way, at its `$N` placeholders.
  pub bind_numeric-answer :
      (query : Bytes) (args : List Arg)
      → bind_numeric format_arg query args ≡ numeric_answer query args
  bind_numeric-answer query args =
      bind_numeric-splice format_arg query args
      ∙ rw
          (
            pieces-cut b'$' is_digit digit is_digit-digit (name_left 0) [] plain query,
            numeric_params-keyed 0 [] args,
          )
          (settled _ (cut b'$' digit (name_left 0) [] plain query))
