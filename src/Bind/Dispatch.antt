-- ===== src/Bind/Dispatch.antt =====
-- bind.go: bind with checkAllNamedArguments. An argument that is a driver.Valuer is given with what
-- its Value answers; an argument's name is empty if it has none.
use clickhouse_go.Common.{
  ℕ, Bool, true, false, not, ◌&&◌, ◌||◌, List, [], ◌∷◌, ◌⊎◌, inl, inr, if◌then◌else◌,
}
use clickhouse_go.Bind.Quote.{Bytes}
use clickhouse_go.Bind.Errors.{Result, ok, err, bad_value, mixed_params_formats, after}
use clickhouse_go.Bind.Formats.{bind_params_formats, any_hole}
use clickhouse_go.Bind.Positional.{bind_positional}
use clickhouse_go.Bind.Positional.Pieces.{fill}
use clickhouse_go.Bind.Params.{bind_numeric, bind_named, name_left}
use clickhouse_go.Bind.Params.Reference.{cut, named_answer, numeric_answer}
use clickhouse_go.Bind.Modes.{plain, digit}
use clickhouse_go.Bind.Numeric.{any_param}
use clickhouse_go.Bind.Positional.Holes.{holes}
use clickhouse_go.Bind.Format.{FormatError, valuer_failed, Value, time, Moment, format}

-- What is given for an argument.
pub data Given : Type 0 where
  given : Value → Given
  valuer : Value ⊎ Bytes → Given

pub data Argument : Type 0 where
  anonymous : Given → Argument
  named_value : Bytes → Given → Argument
  named_date_value : Bytes → Moment → (scale : ℕ) → Argument

unfoldable pub is_named : Argument → Bool
is_named (anonymous g) = false
is_named (named_value name g) = true
is_named (named_date_value name v scale) = true

abbrev pub name_of : Argument → Bytes
name_of (anonymous g) = []
name_of (named_value name g) = name
name_of (named_date_value name v scale) = name

unfoldable pub format_given : (tz : Bytes) → Given → Result FormatError Bytes
unfolding format
format_given tz (given v) = format tz 0 v
format_given tz (valuer (inl v)) = format tz 0 v
format_given tz (valuer (inr e)) = err (bad_value (valuer_failed e))

unfoldable pub format_argument : (tz : Bytes) → Argument → Result FormatError Bytes
unfolding format_given format
format_argument tz (anonymous g) = format_given tz g
format_argument tz (named_value name g) = format_given tz g
format_argument tz (named_date_value name v scale) = format tz scale (time v)

-- The loop of checkAllNamedArguments, with haveNamed and haveAnonymous.
unfoldable pub check_loop :
    (have_named have_anonymous : Bool) → List Argument → Result FormatError Bool
unfolding is_named
check_loop named anon [] = ok named
check_loop named anon (a ∷ args) =
    let named' = named || is_named a in
    let anon' = anon || not (is_named a) in
    let rest = check_loop named' anon' args in
    if named' && anon' then err mixed_params_formats else rest

unfoldable pub check_all_named_arguments : List Argument → Result FormatError Bool
unfolding check_loop
check_all_named_arguments args = check_loop false false args

-- bind behind checkAllNamedArguments.
unfoldable pub bind_checked :
    (tz : Bytes) → Bytes → List Argument → (all_named : Bool) → Result FormatError Bytes
unfolding bind_positional bind_numeric bind_named bind_params_formats
bind_checked tz query args true = bind_named (format_argument tz) name_of query args
bind_checked tz query args false =
    let found = bind_params_formats query in
    if found.have_numeric && found.have_positional
    then err mixed_params_formats
    else if found.have_numeric
    then bind_numeric (format_argument tz) query args
    else bind_positional (format_argument tz) query args

unfoldable pub bind : (tz : Bytes) → Bytes → List Argument → Result FormatError Bytes
unfolding check_all_named_arguments bind_checked
bind tz query [] = ok query
bind tz query (a ∷ args) =
    after (check_all_named_arguments (a ∷ args))
      λ all_named. bind_checked tz query (a ∷ args) all_named

abbrev pub any_named : List Argument → Bool
any_named [] = false
any_named (a ∷ args) = is_named a || any_named args

abbrev pub any_anonymous : List Argument → Bool
any_anonymous [] = false
any_anonymous (a ∷ args) = not (is_named a) || any_anonymous args

-- What bind is to answer: by which kinds of arguments there are and of placeholders outside quotes
-- and comments.
abbrev pub reference : (tz : Bytes) → Bytes → List Argument → Result FormatError Bytes
reference tz query args =
    let ps = holes false [] plain query in
    let numeric = any_param (cut b'$' digit (name_left 0) [] plain query) in
    if any_named args && any_anonymous args
    then err mixed_params_formats
    else if any_named args
    then named_answer (format_argument tz) name_of query args
    else if numeric && any_hole ps
    then err mixed_params_formats
    else if numeric
    then numeric_answer (format_argument tz) query args
    else fill (format_argument tz) ps args 0
