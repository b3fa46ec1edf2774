-- ===== src/Bind/Positional/Law.antt =====
-- bindPositional, with its buffer and its quick return, is the fill of the query's pieces.
use mathlib.Core.List.{append-nil, append_assoc}
use clickhouse_go.Common.{
  ℕ, ◌+◌, Bool, true, false, not, ◌&&◌, List, [], ◌∷◌, ◌++◌, ltb, ◌==◌, ◌≡◌, refl, sym, ap, ◌∙◌,
  ◌⊎◌, inl, inr, arith, if◌then◌else◌, Bool-cases, ==_iff,
}
use clickhouse_go.Bind.Quote.{
  Bytes, QuoteState, raw, in_identifier_or_comment, next_is, last_is, update,
}
use clickhouse_go.Bind.Errors.{Result, ok, err, after, map_ok}
use clickhouse_go.Bind.Positional.{
  Filling, drop_last, pass, unescape, bind_arg, question, positional_loop, bind_positional,
}
use clickhouse_go.Bind.Positional.Pieces.{lit, hole, escapes, cut_question, pieces, fill}

-- The loop has copied a backslash that the '?' in front of it will drop.
abbrev held : Bool → Bytes → QuoteState → Bytes → Bool
held skip before s q =
    not skip && last_is b'\\' before && next_is b'?' q && not (in_identifier_or_comment s)

held-nil : (skip : Bool) (before : Bytes) (s : QuoteState) → held skip before s [] ≡ false
held-nil skip before s = ground arith

drop_last-concat : (xs : Bytes) (c : ℕ) → drop_last (xs ++ c ∷ []) ≡ xs
drop_last-concat [] c = refl
drop_last-concat (x ∷ []) c = refl
drop_last-concat (x ∷ y ∷ xs) c = ap (◌∷◌ x) (drop_last-concat (y ∷ xs) c)

update-backslash : (s : QuoteState) (before rest : Bytes) → (update s before b'\\' rest).1 ≡ false
unfolding update
update-backslash s before rest = ground arith

held-escapes :
    (s : QuoteState) (before : Bytes) (c : ℕ) (rest : Bytes)
    → held (update s before c rest).1 (c ∷ before) (update s before c rest).0 rest
      ≡ escapes (update s before c rest).0 c rest
held-escapes s before c rest = elim (Bool-cases (c == b'\\')) [
  | inl slash ↦ rw ((==_iff c b'\\').0 slash, update-backslash s before rest)
  | inr other ↦ ground arith
]

module _ {Arg : Type 0} where
  -- What the loop has put out, without a backslash that is held.
  abbrev out_so_far : Bool → Bytes → QuoteState → Filling Arg → Bytes → Bytes
  out_so_far skip before s p q =
      p.buf ++ (if held skip before s q then drop_last p.pending else p.pending)

  abbrev IsGood : Bytes → Filling Arg → Bytes → Type 0
  IsGood query p q =
      (p.matched ≡ true)
      ⊎ (p.matched ≡ false) × (p.buf ≡ []) × (p.unbind_count ≡ 0) × (p.pending ++ q ≡ query)

  pass-IsGood :
      (query : Bytes) (p : Filling Arg) (c : ℕ) (rest : Bytes)
      → IsGood query p (c ∷ rest)
      → IsGood query (record p { pending = p.pending ++ c ∷ [] }) rest
  pass-IsGood query p c rest (inl m) = inl m
  pass-IsGood query p c rest (inr (m, b, u, e)) =
      inr (m, b, u, append_assoc p.pending (c ∷ []) rest ∙ e)

module _ {Arg E : Type 0} (format_arg : Arg → Result E Bytes) where
  map_ok-lit :
      (x : Bytes) (c : ℕ) (r : Result E Bytes)
      → map_ok (λ out. (x ++ c ∷ []) ++ out) r
        ≡ map_ok (λ out. x ++ out) (map_ok (λ out. c ∷ out) r)
  map_ok-lit x c (ok out) = ap ok (append_assoc x (c ∷ []) out)
  map_ok-lit x c (err e) = refl

  map_ok-value :
      (x v : Bytes) (r : Result E Bytes)
      → map_ok (λ out. (x ++ v) ++ out) r ≡ map_ok (λ out. x ++ out) (map_ok (λ out. v ++ out) r)
  map_ok-value x v (ok out) = ap ok (append_assoc x v out)
  map_ok-value x v (err e) = refl

  shift :
      (buf pending : Bytes) (c : ℕ) (r : Result E Bytes)
      → map_ok (λ out. (buf ++ (pending ++ c ∷ [])) ++ out) r
        ≡ map_ok (λ out. (buf ++ pending) ++ out) (map_ok (λ out. c ∷ out) r)
  shift buf pending c r =
      ap (λ x. map_ok (λ out. x ++ out) r) (sym (append_assoc buf pending (c ∷ [])))
      ∙ map_ok-lit (buf ++ pending) c r

  map_ok-nil : (r : Result E Bytes) → map_ok (λ out. [] ++ out) r ≡ r
  map_ok-nil (ok out) = refl
  map_ok-nil (err e) = refl

  -- The claim about the loop from one of its states.
  abbrev Fills : Bytes → Bool → Bytes → QuoteState → Filling Arg → Bytes → Type 0
  Fills query skip before s p q =
      positional_loop format_arg query skip before s p q
      ≡ map_ok (λ out. out_so_far skip before s p q ++ out)
          (fill format_arg (pieces skip before s q) p.args p.unbind_count)

  finish-Fills :
      (query : Bytes) (skip : Bool) (before : Bytes) (s : QuoteState) (p : Filling Arg)
      → IsGood query p []
      → Fills query skip before s p []
  unfolding positional_loop pieces fill
  finish-Fills query skip before s p (inl m) = elim (Bool-cases (ltb 0 p.unbind_count)) [
    | inl short ↦ simp (m, short)
    | inr full ↦ simp (m, full, held-nil skip before s, append-nil)
  ]
  finish-Fills query skip before s p (inr (m, b, u, e)) =
      simp (m, b, u, held-nil skip before s, append-nil) (ap ok (sym e ∙ append-nil p.pending))

  -- A byte that is copied.
  pass-Fills :
      (query : Bytes) (two : Bool) (before : Bytes) (s : QuoteState) (p : Filling Arg) (c : ℕ)
      (rest : Bytes)
      → held two (c ∷ before) s rest ≡ escapes s c rest
      → Fills query two (c ∷ before) s (pass format_arg p c) rest
      → positional_loop format_arg query two (c ∷ before) s (pass format_arg p c) rest
        ≡ map_ok
            (λ out. (p.buf ++ p.pending) ++ out)
            (fill format_arg
              (if escapes s c rest
                then pieces two (c ∷ before) s rest
                else lit c ∷ pieces two (c ∷ before) s rest)
              p.args
              p.unbind_count)
  unfolding fill
  pass-Fills query two before s p c rest same ih = elim (Bool-cases (escapes s c rest)) [
    | inl esc ↦ rw esc (
        ih
        ∙ ap
            (λ x.
              map_ok (λ out. x ++ out)
                (fill format_arg (pieces two (c ∷ before) s rest) p.args p.unbind_count))
            (ap (λ b. p.buf ++ (if b then drop_last (p.pending ++ c ∷ []) else p.pending ++ c ∷ []))
                (same ∙ esc)
              ∙ ap (◌++◌ p.buf) (drop_last-concat p.pending c)))
    | inr plain ↦ rw plain (
        ih
        ∙ ap
            (λ x.
              map_ok (λ out. x ++ out)
                (fill format_arg (pieces two (c ∷ before) s rest) p.args p.unbind_count))
            (ap (λ b. p.buf ++ (if b then drop_last (p.pending ++ c ∷ []) else p.pending ++ c ∷ []))
                (same ∙ plain)
              ∙ sym (append_assoc p.buf p.pending (c ∷ [])))
        ∙ map_ok-lit (p.buf ++ p.pending) c _)
  ]

  bind_arg-Fills :
      (query before : Bytes) (s : QuoteState) (p : Filling Arg) (rest : Bytes)
      → ((p' : Filling Arg) → IsGood query p' rest → Fills query false (b'?' ∷ before) s p' rest)
      → (args : List Arg) → p.args ≡ args
      → after
          (bind_arg format_arg p args)
          (λ p'. positional_loop format_arg query false (b'?' ∷ before) s p' rest)
        ≡ map_ok
            (λ out. (p.buf ++ p.pending) ++ out)
            (fill format_arg (hole ∷ pieces false (b'?' ∷ before) s rest) args p.unbind_count)
  unfolding bind_arg fill
  bind_arg-Fills query before s p rest ih [] e =
      let ps = pieces false (b'?' ∷ before) s rest in
      ih _ (inl refl)
      ∙ ap (λ x. map_ok (λ out. x ++ out) (fill format_arg ps p.args (p.unbind_count + 1)))
          (append-nil (p.buf ++ p.pending))
      ∙ ap
          (λ a.
            map_ok (λ out. (p.buf ++ p.pending) ++ out) (fill format_arg ps a (p.unbind_count + 1)))
          e
  bind_arg-Fills query before s p rest ih (a ∷ as_) e =
      let ps = pieces false (b'?' ∷ before) s rest in
      elim (format_arg a)
        as (λ r.
          after
            (after r λ value. ok (record p {
              buf = (p.buf ++ p.pending) ++ value;
              pending = [];
              matched = true;
              args = as_;
            }))
            (λ p'. positional_loop format_arg query false (b'?' ∷ before) s p' rest)
          ≡ map_ok (λ out. (p.buf ++ p.pending) ++ out)
              (after r
                λ value. map_ok (λ out. value ++ out) (fill format_arg ps as_ p.unbind_count))) [
                  | ok value ↦
                      ih _ (inl refl)
                      ∙ ap (λ x. map_ok (λ out. x ++ out) (fill format_arg ps as_ p.unbind_count))
                          (append-nil ((p.buf ++ p.pending) ++ value))
                      ∙ map_ok-value (p.buf ++ p.pending) value
                          (fill format_arg ps as_ p.unbind_count)
                  | err x ↦ refl
                ]

  -- The state after a '?' in each of its readings.
  question-Fills :
      (query before : Bytes) (s : QuoteState) (p : Filling Arg) (rest : Bytes)
      → ((p' : Filling Arg) → IsGood query p' rest → Fills query false (b'?' ∷ before) s p' rest)
      → IsGood query p (b'?' ∷ rest)
      → after
          (question format_arg before s p)
          (λ p'. positional_loop format_arg query false (b'?' ∷ before) s p' rest)
        ≡ map_ok
            (λ out. out_so_far false before s p (b'?' ∷ rest) ++ out)
            (fill format_arg
              (cut_question before s ∷ pieces false (b'?' ∷ before) s rest)
              p.args
              p.unbind_count)
  unfolding question fill
  question-Fills query before s p rest ih g = elim (Bool-cases (in_identifier_or_comment s)) [
    | inl quoted ↦
        let h : held false before s (b'?' ∷ rest) ≡ false = ground arith in
        rw (h, quoted)
          (ih (pass format_arg p b'?') (pass-IsGood query p b'?' rest g)
            ∙ shift p.buf p.pending b'?' _)
    | inr open_ ↦ elim (Bool-cases (last_is b'\\' before)) [
      | inl esc ↦
          let h : held false before s (b'?' ∷ rest) ≡ true = ground arith in
          rw (h, open_, esc)
            (ih (unescape format_arg p) (inl refl)
              ∙ ap
                  (λ x.
                    map_ok (λ out. x ++ out)
                      (fill format_arg (pieces false (b'?' ∷ before) s rest) p.args p.unbind_count))
                  (append-nil ((p.buf ++ drop_last p.pending) ++ b'?' ∷ []))
              ∙ map_ok-lit (p.buf ++ drop_last p.pending) b'?' _)
      | inr plain ↦
          let h : held false before s (b'?' ∷ rest) ≡ false = ground arith in
          elim (Bool-cases s.in_single) [
            | inl single ↦ rw h (
                simp (open_, plain, single)
                  (ih (pass format_arg p b'?') (pass-IsGood query p b'?' rest g)
                    ∙ shift p.buf p.pending b'?' _))
            | inr bare ↦
                rw h
                  (simp (open_, plain, bare) (bind_arg-Fills query before s p rest ih p.args refl))
          ]
    ]
  ]

  loop-Fills :
      (query : Bytes) (skip : Bool) (before : Bytes) (s : QuoteState) (p : Filling Arg) (q : Bytes)
      → IsGood query p q
      → Fills query skip before s p q
  unfolding positional_loop pieces
  loop-Fills query skip before s p [] g = finish-Fills query skip before s p g
  loop-Fills query true before s p (c ∷ rest) g = pass-Fills query false before s p c rest refl (
      loop-Fills query false (c ∷ before) s (pass format_arg p c) rest
        (pass-IsGood query p c rest g))
  loop-Fills query false before s p (c ∷ rest) g = elim (Bool-cases (c == b'?')) [
    | inl mark ↦
        let e : c ≡ b'?' = (==_iff c b'?').0 mark in
        rw e (
          question-Fills query before s p rest
            (λ p' g'. loop-Fills query false (b'?' ∷ before) s p' rest g') (rw e at g))
    | inr other ↦
        let h : held false before s (c ∷ rest) ≡ false = ground arith in
        let u = update s before c rest in
        rw (h, other)
          (pass-Fills query u.1 before u.0 p c rest (held-escapes s before c rest) (
            loop-Fills query u.1 (c ∷ before) u.0 (pass format_arg p c) rest
              (pass-IsGood query p c rest g)))
  ]

  -- For every query and every list of arguments, bindPositional gives the query's pieces with the
  -- arguments put into the holes in order, or the first error; the quick return without a copy too.
  pub bind_positional-fill :
      (query : Bytes) (args : List Arg)
      → bind_positional format_arg query args ≡ fill format_arg (pieces false [] raw query) args 0
  unfolding bind_positional
  bind_positional-fill query args =
      loop-Fills query false [] raw _ query (inr (refl, refl, refl, refl)) ∙ map_ok-nil _
