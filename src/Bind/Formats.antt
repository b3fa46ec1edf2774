-- ===== src/Bind/Formats.antt =====
-- bind.go: bindParamsFormats, which tells numeric from positional placeholders, and its agreement
-- with what bindPositional would fill.
use clickhouse_go.Common.{
  ℕ, Bool, true, false, not, ◌&&◌, ◌||◌, List, [], ◌∷◌, ◌==◌, ◌≡◌, refl, sym, ap, ◌∙◌, inl, inr,
  arith, if◌then◌else◌, Bool-cases, ==_iff,
}
use mathlib.Core.Path.{ap₂}
use clickhouse_go.Bind.Quote.{
  Bytes, QuoteState, raw, in_protected_context, in_identifier_or_comment, last_is, is_digit, update,
}
use clickhouse_go.Bind.Positional.Pieces.{Piece, lit, hole, escapes, cut_question, pieces}

-- query[i+1] is a digit
abbrev pub next_is_digit : Bytes → Bool
next_is_digit [] = false
next_is_digit (c ∷ rest) = is_digit c

pub record Found : Type 0 where
  pub have_numeric : Bool
  pub have_positional : Bool

-- The switch on a byte outside quotes and comments.
unfoldable pub mark : Found → Bytes → ℕ → Bytes → Found
mark f before c rest =
    if c == b'?' && not (last_is b'\\' before)
    then record f { have_positional = true }
    else if c == b'$' && next_is_digit rest
    then record f { have_numeric = true }
    else f

unfoldable pub formats_loop : (skip : Bool) → Bytes → QuoteState → Found → Bytes → Found
unfolding mark
formats_loop skip before s f [] = f
formats_loop true before s f (c ∷ rest) = formats_loop false (c ∷ before) s f rest
formats_loop false before s f (c ∷ rest) =
    let f' = if not (in_protected_context s) then mark f before c rest else f in
    let (s', two) = update s before c rest in
    let more = formats_loop two (c ∷ before) s' f' rest in
    if not (in_protected_context s) && f'.have_numeric && f'.have_positional then f' else more

unfoldable pub bind_params_formats : Bytes → Found
unfolding formats_loop
bind_params_formats =
    formats_loop false [] raw (record { have_numeric = false; have_positional = false })

abbrev pub any_hole : List Piece → Bool
any_hole [] = false
any_hole (lit c ∷ ps) = any_hole ps
any_hole (hole ∷ ps) = true

update-question : (s : QuoteState) (before rest : Bytes) → update s before b'?' rest ≡ (s, false)
unfolding update
update-question s before rest = ground arith

-- What the marks found so far become at a byte.
abbrev marked : QuoteState → Found → Bytes → ℕ → Bytes → Found
marked s f before c rest = if not (in_protected_context s) then mark f before c rest else f

-- The early exit loses nothing.
exit_early :
    (protected_ : Bool) (f' more : Found) (tail : Bool)
    → more.have_positional ≡ f'.have_positional || tail
    → (if not protected_ && f'.have_numeric && f'.have_positional then f' else more).have_positional
      ≡ f'.have_positional || tail
exit_early protected_ f' more tail h = ground arith

marked-question :
    (s : QuoteState) (f : Found) (before rest : Bytes) (ps : List Piece)
    → (marked s f before b'?' rest).have_positional || any_hole ps
      ≡ f.have_positional || any_hole (cut_question before s ∷ ps)
unfolding mark in_protected_context in_identifier_or_comment
marked-question s f before rest ps = ground arith

marked-other :
    (s : QuoteState) (f : Found) (before : Bytes) (c : ℕ) (rest : Bytes)
    → (c == b'?') ≡ false
    → (marked s f before c rest).have_positional ≡ f.have_positional
unfolding mark
marked-other s f before c rest h = ground arith

any_hole-lit :
    (b : Bool) (c : ℕ) (ps : List Piece) → any_hole (if b then ps else lit c ∷ ps) ≡ any_hole ps
any_hole-lit true c ps = refl
any_hole-lit false c ps = refl

formats_loop-pieces :
    (skip : Bool) (before : Bytes) (s : QuoteState) (f : Found) (q : Bytes)
    → (formats_loop skip before s f q).have_positional
      ≡ f.have_positional || any_hole (pieces skip before s q)
unfolding formats_loop pieces
formats_loop-pieces skip before s f [] = ground arith
formats_loop-pieces true before s f (c ∷ rest) =
    ground (arith, formats_loop-pieces false (c ∷ before) s f rest)
formats_loop-pieces false before s f (c ∷ rest) = elim (Bool-cases (c == b'?')) [
  | inl is_mark ↦
      let e : c ≡ b'?' = (==_iff c b'?').0 is_mark in
      let f' = marked s f before b'?' rest in
      rw (e, update-question s before rest)
        (exit_early (in_protected_context s) f' _ _
            (formats_loop-pieces false (b'?' ∷ before) s f' rest)
          ∙ marked-question s f before rest (pieces false (b'?' ∷ before) s rest))
  | inr other ↦
      let u = update s before c rest in
      let f' = marked s f before c rest in
      let tail = pieces u.1 (c ∷ before) u.0 rest in
      exit_early (in_protected_context s) f' (formats_loop u.1 (c ∷ before) u.0 f' rest)
        (any_hole tail) (formats_loop-pieces u.1 (c ∷ before) u.0 f' rest)
      ∙ ap₂ ◌||◌ (marked-other s f before c rest other)
          (sym (any_hole-lit (escapes u.0 c rest) c tail))
      ∙ ap
          (λ b.
            f.have_positional
            || any_hole (
                if b
                then cut_question before s ∷ pieces false (c ∷ before) s rest
                else (if escapes u.0 c rest then tail else lit c ∷ tail)))
          (sym other)
]

-- bindParamsFormats finds a positional placeholder exactly if the query has a hole that
-- bindPositional would fill, although it stops early and the two loops step differently at a '?'.
pub bind_params_formats-hole :
    (query : Bytes)
    → (bind_params_formats query).have_positional ≡ any_hole (pieces false [] raw query)
unfolding bind_params_formats
bind_params_formats-hole query = formats_loop-pieces false [] raw _ query
