-- ===== src/Bind/Format/Closed.antt =====
-- bind.go: texts that the scanner of quotes and comments comes out of as it went in.
use mathlib.Core.List.{append_assoc}
use clickhouse_go.Common.{
  ℕ, Bool, true, false, not, ◌&&◌, ◌||◌, [], ◌∷◌, ◌++◌, ◌==◌, ◌≡◌, refl, ap, ◌∙◌, arith,
}
use clickhouse_go.Bind.Quote.{Bytes, QuoteState, raw, is_escaped, next_is, update, update_raw}
use clickhouse_go.Bind.Literal.{quote, replace, walk, walk-quote, is_escaped-other}

-- The bytes before a position that has passed `q` too.
abbrev pub onto : Bytes → Bytes → Bytes
onto [] before = before
onto (c ∷ q) before = onto q (c ∷ before)

onto-append : (a b before : Bytes) → onto (a ++ b) before ≡ onto b (onto a before)
onto-append [] b before = refl
onto-append (c ∷ a) b before = onto-append a b (c ∷ before)

-- From raw text the scanner comes out of `q` in raw text again, with nothing skipped and no backslash
-- pending, in front of every `rest`.
abbrev pub Walks : Bytes → Type 0
Walks q =
    (before rest : Bytes)
    → is_escaped before ≡ false
    → (walk false before raw q rest ≡ (false, raw)) × (is_escaped (onto q before) ≡ false)

-- The same, in front of a `rest` that does not begin with a single quote.
abbrev pub Closed : Bytes → Type 0
Closed q =
    (before rest : Bytes)
    → is_escaped before ≡ false
    → next_is b'\'' rest ≡ false
    → (walk false before raw q rest ≡ (false, raw)) × (is_escaped (onto q before) ≡ false)

walk-append :
    (skip : Bool) (before : Bytes) (s : QuoteState) (a b rest : Bytes)
    → walk skip before s (a ++ b) rest
      ≡ (let (k, s') = walk skip before s a (b ++ rest) in walk k (onto a before) s' b rest)
unfolding walk
walk-append skip before s [] b rest = refl
walk-append true before s (c ∷ a) b rest = walk-append false (c ∷ before) s a b rest
walk-append false before s (c ∷ a) b rest =
    ap (λ z. let (s', two) = update s before c z in walk two (c ∷ before) s' (a ++ b) rest)
      (append_assoc a b rest)
    ∙ (let (s', two) = update s before c (a ++ (b ++ rest)) in
        walk-append two (c ∷ before) s' a b rest)

next_is-append :
    (c : ℕ) (b rest : Bytes)
    → next_is c b ≡ false
    → next_is c rest ≡ false
    → next_is c (b ++ rest) ≡ false
next_is-append c [] rest h k = k
next_is-append c (d ∷ b) rest h k = h

walks_after :
    (a b before rest : Bytes)
    → walk false before raw a (b ++ rest) ≡ (false, raw)
    → walk false before raw (a ++ b) rest ≡ walk false (onto a before) raw b rest
walks_after a b before rest e =
    walk-append false before raw a b rest
    ∙ ap (λ r. let (k, s') = r in walk k (onto a before) s' b rest) e

pub Walks-append : (a b : Bytes) → Walks a → Closed b → Closed (a ++ b)
Walks-append a b wa cb before rest h n =
    let (e, k) = wa before (b ++ rest) h in
    let (e', k') = cb (onto a before) rest k n in
    (walks_after a b before rest e ∙ e', rw (onto-append a b before) k')

pub Closed-append : (a b : Bytes) → Closed a → Closed b → next_is b'\'' b ≡ false → Closed (a ++ b)
Closed-append a b ca cb quoted before rest h n =
    let (e, k) = ca before (b ++ rest) h (next_is-append b'\'' b rest quoted n) in
    let (e', k') = cb (onto a before) rest k n in
    (walks_after a b before rest e ∙ e', rw (onto-append a b before) k')

pub Walks-Closed : (a : Bytes) → Walks a → Closed a
Walks-Closed a wa before rest h n = wa before rest h

-- A byte that the scanner looks at in raw text, apart from a dash.
abbrev pub is_special : ℕ → Bool
is_special c = c == b'`' || c == b'\'' || c == b'"' || c == b'#' || c == b'/' || c == b'\\'

-- No such byte, no two dashes, and no dash at the end.
unfoldable pub is_plain : Bytes → Bool
is_plain [] = true
is_plain (c ∷ []) = not (is_special c) && not (c == b'-')
is_plain (c ∷ d ∷ cs) = not (is_special c) && not (c == b'-' && d == b'-') && is_plain (d ∷ cs)

update-plain :
    (before : Bytes) (c : ℕ) (rest : Bytes)
    → is_special c ≡ false
    → (c == b'-' && next_is b'-' rest) ≡ false
    → update raw before c rest ≡ (raw, false)
unfolding update update_raw
update-plain before c rest h n = ground (arith, h, n)

walk-plain :
    (c : ℕ) (q before rest : Bytes)
    → is_special c ≡ false
    → (c == b'-' && next_is b'-' (q ++ rest)) ≡ false
    → walk false before raw (c ∷ q) rest ≡ walk false (c ∷ before) raw q rest
unfolding walk
walk-plain c q before rest h n = rw (update-plain before c (q ++ rest) h n)

not_slash : (c : ℕ) → is_special c ≡ false → (c == b'\\') ≡ false
not_slash c h = ground (arith, h)

-- What is plain is passed over.
pub Walks-plain : (q : Bytes) → is_plain q ≡ true → Walks q
unfolding is_plain
Walks-plain [] p before rest h = unfold walk in (refl, h)
Walks-plain (c ∷ []) p before rest h = (
  walk-plain c [] before rest (ground (arith, p)) (ground (arith, p)) ∙ (unfold walk in refl),
  is_escaped-other c before (ground (arith, p)),
)
Walks-plain (c ∷ d ∷ q) p before rest h =
    let plain : is_special c ≡ false = ground (arith, p) in
    let (e, k) =
      Walks-plain (d ∷ q) (ground (arith, p)) (c ∷ before) rest
        (is_escaped-other c before (not_slash c plain)) in
    (walk-plain c (d ∷ q) before rest plain (ground (arith, p)) ∙ e, k)

pub Closed-quote : (v : Bytes) → Closed (quote v)
unfolding quote
Closed-quote v before rest h n = (
  walk-quote v before rest h n,
  rw (onto-append (replace v) (b'\'' ∷ []) (b'\'' ∷ before)) (is_escaped-other b'\'' _ refl),
)
