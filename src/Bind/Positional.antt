-- ===== src/Bind/Positional.antt =====
-- bind.go: bindPositional. `pending` is query[lastMatchIndex+1:i], `matched` says that
-- lastMatchIndex is not -1, and `args` are the arguments from argIndex on. `format_arg` is the
-- value of an argument and its format, an error included.
pub mod Pieces
pub mod Law
pub mod Holes
use clickhouse_go.Common.{
  ℕ, ◌+◌, Bool, true, false, not, List, [], ◌∷◌, ◌++◌, ltb, ◌==◌, if◌then◌else◌,
}
use clickhouse_go.Bind.Quote.{Bytes, QuoteState, raw, in_identifier_or_comment, last_is, update}
use clickhouse_go.Bind.Errors.{BindError, bad_value, no_arg_at, Result, ok, err, after}

pub record Filling (Arg : Type 0) : Type 0 where
  pub buf : Bytes
  pub pending : Bytes
  pub matched : Bool
  pub args : List Arg
  pub unbind_count : ℕ

-- query[lastMatchIndex+1:i-1], of query[lastMatchIndex+1:i].
abbrev pub drop_last : Bytes → Bytes
drop_last [] = []
drop_last (c ∷ []) = []
drop_last (c ∷ d ∷ cs) = c ∷ drop_last (d ∷ cs)

module _ {Arg E : Type 0} (format_arg : Arg → Result E Bytes) where
  -- The loop moves past a byte.
  abbrev pub pass : Filling Arg → ℕ → Filling Arg
  pass p c = record p { pending = p.pending ++ c ∷ [] }

  -- A "\?": the backslash is dropped.
  abbrev pub unescape : Filling Arg → Filling Arg
  unescape p = record p {
    buf = (p.buf ++ drop_last p.pending) ++ b'?' ∷ [];
    pending = [];
    matched = true;
  }

  unfoldable pub bind_arg : Filling Arg → List Arg → Result E (Filling Arg)
  bind_arg p [] = ok (record p {
    buf = p.buf ++ p.pending;
    pending = [];
    matched = true;
    unbind_count = p.unbind_count + 1;
  })
  bind_arg p (a ∷ as_) = after (format_arg a) λ value.
      ok
        (record p { buf = (p.buf ++ p.pending) ++ value; pending = []; matched = true; args = as_ })

  -- A '?' in the query.
  unfoldable pub question : Bytes → QuoteState → Filling Arg → Result E (Filling Arg)
  unfolding bind_arg
  question before s p =
      if in_identifier_or_comment s
      then ok (pass p b'?')
      else if last_is b'\\' before
      then ok (unescape p)
      else if s.in_single
      then ok (pass p b'?')
      else bind_arg p p.args

  -- Behind the loop.
  unfoldable pub finish : Bytes → Filling Arg → Result E Bytes
  finish query p =
      if not p.matched
      then ok query
      else if ltb 0 p.unbind_count
      then err (no_arg_at p.unbind_count)
      else ok (p.buf ++ p.pending)

  -- `skip` says that `update` consumed this byte already.
  unfoldable pub positional_loop :
      Bytes → (skip : Bool) → Bytes → QuoteState → Filling Arg → Bytes → Result E Bytes
  unfolding question finish
  positional_loop query skip before s p [] = finish query p
  positional_loop query true before s p (c ∷ rest) =
      positional_loop query false (c ∷ before) s (pass p c) rest
  positional_loop query false before s p (c ∷ rest) =
      let here =
        after (question before s p) λ p'. positional_loop query false (c ∷ before) s p' rest in
      let (s', two) = update s before c rest in
      let there = positional_loop query two (c ∷ before) s' (pass p c) rest in
      if c == b'?' then here else there

  unfoldable pub bind_positional : Bytes → List Arg → Result E Bytes
  unfolding positional_loop
  bind_positional query args =
      positional_loop query false [] raw
        (record { buf = []; pending = []; matched = false; args = args; unbind_count = 0 }) query
