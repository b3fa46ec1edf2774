-- ===== src/Bind/Params.antt =====
-- bind.go: bindNumeric and bindNamed. They differ in the byte that starts a placeholder, in the
-- bytes of its name and in the keys of `params`; the loop is shared here. `format_arg` is the value
-- of an argument and its format, an error included; `name_of` is the name of a NamedValue or of a
-- NamedDateValue.
pub mod Pieces
pub mod Law
pub mod Reference
use clickhouse_go.Common.{
  ℕ, zero, suc, ◌+◌, Bool, true, false, not, ◌&&◌, List, [], ◌∷◌, ◌++◌, Option, none, some, ◌==◌,
  if◌then◌else◌, length,
}
use clickhouse_go.Bind.Quote.{
  Bytes, QuoteState, raw, in_protected_context, is_digit, is_name_char, update,
}
use clickhouse_go.Bind.Errors.{BindError, no_arg_for, Result, ok, err, after}
use clickhouse_go.Common.Decimal.{decimal}

-- Equal strings.
unfoldable pub equal : Bytes → Bytes → Bool
equal [] [] = true
equal (x ∷ xs) (y ∷ ys) = x == y && equal xs ys
equal _ _ = false

-- The map `params`: the newest entry of a key counts.
abbrev pub ParamMap : Type 0
ParamMap = List (Bytes × Bytes)

unfoldable pub lookup : Bytes → ParamMap → Option Bytes
unfolding equal
lookup key [] = none
lookup key ((k, v) ∷ m) = if equal k key then some v else lookup key m

-- The bytes of a name: the inner loop over j.
unfoldable pub take_name : (ℕ → Bool) → Bytes → Bytes
take_name is_char [] = []
take_name is_char (c ∷ rest) = if is_char c then c ∷ take_name is_char rest else []

abbrev pub starts_name : (ℕ → Bool) → Bytes → Bool
starts_name is_char [] = false
starts_name is_char (c ∷ rest) = is_char c

pub record Substituting : Type 0 where
  pub buf : Bytes
  pub pending : Bytes
  pub matched : Bool
  pub unbind : List Bytes

-- How the loop stands to a byte: `update` consumed it, or so many bytes of a name are left.
pub data Ahead : Type 0 where
  second : Ahead
  name_left : ℕ → Ahead

abbrev pub ahead_of : Bool → Ahead
ahead_of true = second
ahead_of false = name_left 0

abbrev pub pass_byte : Substituting → ℕ → Substituting
pass_byte p c = record p { pending = p.pending ++ c ∷ [] }

unfoldable pub put_param : Substituting → Bytes → Option Bytes → Substituting
put_param p param (some value) = record p {
  buf = (p.buf ++ p.pending) ++ value;
  pending = [];
  matched = true;
}
put_param p param none = record p {
  buf = p.buf ++ p.pending;
  pending = [];
  matched = true;
  unbind = p.unbind ++ param ∷ [];
}

-- The source names one of the unbound parameters, whichever its map yields first.
unfoldable pub ended : {E : Type 0} → List Bytes → Bytes → Result E Bytes
ended [] out = ok out
ended (param ∷ params) out = err (no_arg_for (param ∷ params))

unfoldable pub finish_params : {E : Type 0} → Bytes → Substituting → Result E Bytes
unfolding ended
finish_params query p = if not p.matched then ok query else ended p.unbind (p.buf ++ p.pending)

module _ {E : Type 0} (mark : ℕ) (is_char : ℕ → Bool) (params : ParamMap) where
  unfoldable pub params_loop :
      Bytes → Ahead → Bytes → QuoteState → Substituting → Bytes → Result E Bytes
  unfolding put_param finish_params take_name
  params_loop query ahead before s p [] = finish_params query p
  params_loop query second before s p (c ∷ rest) =
      params_loop query (name_left 0) (c ∷ before) s (pass_byte p c) rest
  params_loop query (name_left (suc k)) before s p (c ∷ rest) =
      params_loop query (name_left k) (c ∷ before) s p rest
  params_loop query (name_left zero) before s p (c ∷ rest) =
      let name = take_name is_char rest in
      let p' = put_param p (c ∷ name) (lookup (c ∷ name) params) in
      let here = params_loop query (name_left (length name)) (c ∷ before) s p' rest in
      let (s', two) = update s before c rest in
      let there = params_loop query (ahead_of two) (c ∷ before) s' (pass_byte p c) rest in
      if not (in_protected_context s) && c == mark && starts_name is_char rest then here else there

  unfoldable pub bind_params : Bytes → Result E Bytes
  unfolding params_loop
  bind_params query =
      params_loop query (name_left 0) [] raw
        (record { buf = []; pending = []; matched = false; unbind = [] }) query

module _ {Arg E : Type 0} (format_arg : Arg → Result E Bytes) where
  -- params[fmt.Sprintf("$%d", i+1)] = val, in the order of the arguments.
  unfoldable pub numeric_params : ℕ → ParamMap → List Arg → Result E ParamMap
  numeric_params i params [] = ok params
  numeric_params i params (a ∷ as_) =
      after (format_arg a)
        λ value. numeric_params (i + 1) ((b'$' ∷ decimal (i + 1), value) ∷ params) as_

  unfoldable pub bind_numeric : Bytes → List Arg → Result E Bytes
  unfolding numeric_params bind_params
  bind_numeric query args =
      after (numeric_params 0 [] args) λ params. bind_params b'$' is_digit params query

  unfoldable pub named_params : (Arg → Bytes) → ParamMap → List Arg → Result E ParamMap
  named_params name_of params [] = ok params
  named_params name_of params (a ∷ as_) =
      after (format_arg a) λ value. named_params name_of ((b'@' ∷ name_of a, value) ∷ params) as_

  unfoldable pub bind_named : (Arg → Bytes) → Bytes → List Arg → Result E Bytes
  unfolding named_params bind_params
  bind_named name_of query args =
      after (named_params name_of [] args) λ params. bind_params b'@' is_name_char params query
