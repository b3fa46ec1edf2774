-- ===== src/Bind/Numeric.antt =====
-- bindParamsFormats of bind.go: which queries it says have `$N` placeholders.
use clickhouse_go.Common.{
  ℕ, Bool, true, false, ◌&&◌, ◌||◌, List, [], ◌∷◌, ◌==◌, ◌≡◌, refl, sym, ap, ◌∙◌, arith,
  if◌then◌else◌, length,
}
use clickhouse_go.Bind.Quote.{Bytes}
use clickhouse_go.Bind.Modes.{
  Mode, plain, is_plain, scan, state_of, update-scan, protected-plain, digit, is_digit-digit,
}
use clickhouse_go.Bind.Formats.{Found, mark, next_is_digit, formats_loop, bind_params_formats}
use clickhouse_go.Bind.Params.{name_left, ahead_of}
use clickhouse_go.Bind.Params.Pieces.{Piece, lit, param}
use clickhouse_go.Bind.Params.Reference.{cut, begins, run}

abbrev pub any_param : List Piece → Bool
any_param [] = false
any_param (lit c ∷ ps) = any_param ps
any_param (param key ∷ ps) = true

abbrev marked : Bool → Found → Bytes → ℕ → Bytes → Found
marked raw_text f before c rest = if raw_text then mark f before c rest else f

next_is_digit-begins : (q : Bytes) → next_is_digit q ≡ begins digit q
next_is_digit-begins [] = refl
next_is_digit-begins (c ∷ q) = is_digit-digit c

marked-numeric :
    (b : Bool) (f : Found) (before : Bytes) (c : ℕ) (rest : Bytes)
    → (marked b f before c rest).have_numeric
      ≡ f.have_numeric || (b && c == b'$' && next_is_digit rest)
unfolding mark
marked-numeric b f before c rest = ground arith

-- The early exit loses nothing.
exit_early :
    (raw_text : Bool) (f' more : Found) (tail : Bool)
    → more.have_numeric ≡ f'.have_numeric || tail
    → (if raw_text && f'.have_numeric && f'.have_positional then f' else more).have_numeric
      ≡ f'.have_numeric || tail
exit_early raw_text f' more tail h = ground arith

any_param-if :
    (b : Bool) (key : Bytes) (ps : List Piece) (c : ℕ) (qs : List Piece)
    → any_param (if b then param key ∷ ps else lit c ∷ qs) ≡ b || any_param qs
any_param-if true key ps c qs = refl
any_param-if false key ps c qs = refl

formats_loop-numeric :
    (skip : Bool) (before : Bytes) (m : Mode) (f : Found) (q : Bytes)
    → (formats_loop skip before (state_of m) f q).have_numeric
      ≡ f.have_numeric || any_param (cut b'$' digit (ahead_of skip) before m q)
unfolding formats_loop
formats_loop-numeric true before m f [] = ground arith
formats_loop-numeric false before m f [] = ground arith
formats_loop-numeric true before m f (c ∷ rest) = formats_loop-numeric false (c ∷ before) m f rest
formats_loop-numeric false before m f (c ∷ rest) =
    let b = is_plain m && c == b'$' && begins digit rest in
    let r = scan m before c rest in
    let f' = marked (is_plain m) f before c rest in
    let tail = any_param (cut b'$' digit (ahead_of r.1) (c ∷ before) r.0 rest) in
    let found : f'.have_numeric ≡ f.have_numeric || b =
      marked-numeric (is_plain m) f before c rest
      ∙ ap (λ d. f.have_numeric || (is_plain m && c == b'$' && d)) (next_is_digit-begins rest) in
    let name = run digit rest in
    rw (update-scan m before c rest, protected-plain m)
      (exit_early (is_plain m) f' _ tail (formats_loop-numeric r.1 (c ∷ before) r.0 f' rest)
        ∙ ap (λ n. n || tail) found
        ∙ or_assoc f.have_numeric b tail
        ∙ ap (λ x. f.have_numeric || x)
            (sym (
              any_param-if b (c ∷ name)
                (cut b'$' digit (name_left (length name)) (c ∷ before) m rest) c
                (cut b'$' digit (ahead_of r.1) (c ∷ before) r.0 rest))))
  where
    or_assoc : (x y z : Bool) → (x || y) || z ≡ x || (y || z)
    or_assoc true y z = refl
    or_assoc false y z = refl

-- bindParamsFormats finds a numeric placeholder exactly if a `$` with a digit behind it stands
-- outside quotes and comments.
pub bind_params_formats-numeric :
    (query : Bytes)
    → (bind_params_formats query).have_numeric
      ≡ any_param (cut b'$' digit (name_left 0) [] plain query)
unfolding bind_params_formats
bind_params_formats-numeric query = formats_loop-numeric false [] plain _ query
