-- ===== src/Bind/Params/Law.antt =====
-- bindNumeric and bindNamed, with their buffer and quick return, give the spliced pieces.
use mathlib.Core.List.{append-nil, append_assoc}
use clickhouse_go.Common.{
  ℕ, zero, suc, Bool, true, false, not, ◌&&◌, List, [], ◌∷◌, ◌++◌, Option, none, some, ◌==◌, ◌≡◌,
  refl, sym, ap, ◌∙◌, ◌⊎◌, inl, inr, Bool-cases, length,
}
use clickhouse_go.Bind.Quote.{
  Bytes, QuoteState, raw, in_protected_context, is_digit, is_name_char, update,
}
use clickhouse_go.Bind.Errors.{Result, ok, err, after}
use clickhouse_go.Bind.Params.{
  Ahead, second, name_left, ahead_of, ParamMap, lookup, take_name, starts_name, Substituting,
  pass_byte, put_param, ended, finish_params, params_loop, bind_params, numeric_params,
  bind_numeric, named_params, bind_named,
}
use clickhouse_go.Bind.Params.Pieces.{param, pieces, missing, splice}

abbrev IsGood : Bytes → Substituting → Bytes → Type 0
IsGood query p q =
    (p.matched ≡ true)
    ⊎ (p.matched ≡ false) × (p.buf ≡ []) × (p.unbind ≡ []) × (p.pending ++ q ≡ query)

pass-IsGood :
    (query : Bytes) (p : Substituting) (c : ℕ) (rest : Bytes)
    → IsGood query p (c ∷ rest)
    → IsGood query (pass_byte p c) rest
pass-IsGood query p c rest (inl m) = inl m
pass-IsGood query p c rest (inr (m, b, u, e)) =
    inr (m, b, u, append_assoc p.pending (c ∷ []) rest ∙ e)

-- Inside a name something has matched.
abbrev IsInside : Ahead → Substituting → Type 0
IsInside second p = Unit {0}
IsInside (name_left zero) p = Unit {0}
IsInside (name_left (suc k)) p = p.matched ≡ true

put-matched :
    (p : Substituting) (name : Bytes) (found : Option Bytes)
    → (put_param p name found).matched ≡ true
unfolding put_param
put-matched p name none = refl
put-matched p name (some v) = refl

IsInside-name_left : (n : ℕ) (p : Substituting) → p.matched ≡ true → IsInside (name_left n) p
IsInside-name_left zero p h = tt
IsInside-name_left (suc n) p h = h

ahead_of-IsInside : (two : Bool) (p : Substituting) → IsInside (ahead_of two) p
ahead_of-IsInside true p = tt
ahead_of-IsInside false p = tt

after-lit :
    (buf pending : Bytes) (c : ℕ) (out : Bytes)
    → (buf ++ (pending ++ c ∷ [])) ++ out ≡ (buf ++ pending) ++ (c ∷ out)
after-lit buf pending c out = simp append_assoc

pub after-cong :
    {E A B : Type 0} (r : Result E A) {f g : A → Result E B}
    → ((a : A) → f a ≡ g a)
    → after r f ≡ after r g
after-cong (ok a) h = h a
after-cong (err e) h = refl

module _ (E : Type 0) (mark : ℕ) (is_char : ℕ → Bool) (m : ParamMap) where
  -- The claim about the loop from one of its states.
  abbrev Splices : Bytes → Ahead → Bytes → QuoteState → Substituting → Bytes → Type 0
  Splices query ahead before s p q =
      let ps = pieces mark is_char ahead before s q in
      params_loop {E = E} mark is_char m query ahead before s p q
      ≡ ended (p.unbind ++ missing m ps) ((p.buf ++ p.pending) ++ splice m ps)

  finish-Splices :
      (query : Bytes) (p : Substituting)
      → IsGood query p []
      → finish_params {E = E} query p ≡ ended (p.unbind ++ []) ((p.buf ++ p.pending) ++ [])
  unfolding finish_params
  finish-Splices query p (inl h) = simp (h, append-nil)
  finish-Splices query p (inr (h, b, u, e)) =
      simp (h, b, u, append-nil) (ap ok (sym e ∙ append-nil p.pending))

  put-Splices :
      (query before : Bytes) (s : QuoteState) (p : Substituting) (rest name : Bytes) (ahead : Ahead)
      (found : Option Bytes)
      → lookup name m ≡ found
      → Splices query ahead before s (put_param p name found) rest
      → let ps = param name ∷ pieces mark is_char ahead before s rest in
        params_loop {E = E} mark is_char m query ahead before s (put_param p name found) rest
        ≡ ended (p.unbind ++ missing m ps) ((p.buf ++ p.pending) ++ splice m ps)
  unfolding put_param
  put-Splices query before s p rest name ahead none e h = h ∙ simp (e, append-nil, append_assoc)
  put-Splices query before s p rest name ahead (some v) e h = h ∙ simp (e, append-nil, append_assoc)

  loop-Splices :
      (query : Bytes) (ahead : Ahead) (before : Bytes) (s : QuoteState) (p : Substituting)
      (q : Bytes)
      → IsInside ahead p
      → IsGood query p q
      → Splices query ahead before s p q
  unfolding params_loop pieces
  loop-Splices query ahead before s p [] i g = finish-Splices query p g
  loop-Splices query second before s p (c ∷ rest) i g =
      loop-Splices query (name_left 0) (c ∷ before) s (pass_byte p c) rest tt
        (pass-IsGood query p c rest g)
      ∙ ap (ended (p.unbind ++ _)) (after-lit p.buf p.pending c _)
  loop-Splices query (name_left (suc k)) before s p (c ∷ rest) i g =
      loop-Splices query (name_left k) (c ∷ before) s p rest (IsInside-name_left k p i) (inl i)
  loop-Splices query (name_left zero) before s p (c ∷ rest) i g =
      elim (Bool-cases (not (in_protected_context s) && c == mark && starts_name is_char rest)) [
        | inl starts ↦
            let name = take_name is_char rest in
            let p' = put_param p (c ∷ name) (lookup (c ∷ name) m) in
            let done = put-matched p (c ∷ name) (lookup (c ∷ name) m) in
            rw starts (
              put-Splices query (c ∷ before) s p rest (c ∷ name) (name_left (length name))
                (lookup (c ∷ name) m) refl
                (loop-Splices query (name_left (length name)) (c ∷ before) s p' rest
                  (IsInside-name_left (length name) p' done) (inl done)))
        | inr other ↦
            let u = update s before c rest in
            rw other (
              loop-Splices query (ahead_of u.1) (c ∷ before) u.0 (pass_byte p c) rest
                (ahead_of-IsInside u.1 (pass_byte p c)) (pass-IsGood query p c rest g)
              ∙ ap (ended (p.unbind ++ _)) (after-lit p.buf p.pending c _))
      ]

  -- The shared loop gives the spliced text, or an error that names the parameters it lacks.
  bind_params-splice :
      (query : Bytes)
      → let ps = pieces mark is_char (name_left 0) [] raw query in
        bind_params {E = E} mark is_char m query ≡ ended (missing m ps) (splice m ps)
  unfolding bind_params
  bind_params-splice query =
      loop-Splices query (name_left 0) [] raw _ query tt (inr (refl, refl, refl, refl))

module _ {Arg E : Type 0} (format_arg : Arg → Result E Bytes) where
  -- bindNumeric, for every query and every list of arguments: the first argument that does not
  -- format is the error; else the query is cut at its `$N` placeholders outside quotes and comments,
  -- and each is replaced by its value, or all that have none are reported.
  pub bind_numeric-splice :
      (query : Bytes) (args : List Arg)
      → let ps = pieces b'$' is_digit (name_left 0) [] raw query in
        bind_numeric format_arg query args
        ≡ after (numeric_params format_arg 0 [] args) (λ m. ended (missing m ps) (splice m ps))
  unfolding bind_numeric
  bind_numeric-splice query args =
      after-cong (numeric_params format_arg 0 [] args)
        (λ m. bind_params-splice E b'$' is_digit m query)

  -- bindNamed in the same way, at its `@name` placeholders.
  pub bind_named-splice :
      (name_of : Arg → Bytes) (query : Bytes) (args : List Arg)
      → let ps = pieces b'@' is_name_char (name_left 0) [] raw query in
        bind_named format_arg name_of query args
        ≡ after (named_params format_arg name_of [] args) (λ m. ended (missing m ps) (splice m ps))
  unfolding bind_named
  bind_named-splice name_of query args =
      after-cong (named_params format_arg name_of [] args)
        (λ m. bind_params-splice E b'@' is_name_char m query)
