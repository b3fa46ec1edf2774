-- ===== src/Bind/Examples.antt =====
-- bind.go: bind and formatValue on small arguments.
use clickhouse_go.Common.{true, false, [], ◌∷◌, ◌≡◌, refl}
use clickhouse_go.Common.Decimal.{decimal}
use clickhouse_go.Bind.Quote.{
  raw, is_escaped, update, update_raw, in_protected_context, is_digit, in_identifier_or_comment,
}
use clickhouse_go.Bind.Errors.{ok, err, mixed_params_formats}
use clickhouse_go.Bind.Literal.{quote, walk, replace, replace_byte}
use clickhouse_go.Bind.Formats.{bind_params_formats, formats_loop, mark}
use clickhouse_go.Bind.Positional.{bind_positional, positional_loop, question, bind_arg, finish}
use clickhouse_go.Bind.Format.{
  codes, format_sql, format_param_text, Value, string, integer, slice, go_map, float64, finite,
  nil_pointer, value_then, end_of_values, entry_then, end_of_entries, format, format_value,
  format_float, format_map, join_strings, pair_texts,
}
use clickhouse_go.Bind.Format.Closed.{Closed, is_plain}
use clickhouse_go.Bind.Format.Times.{Safe}
use clickhouse_go.Bind.Format.Safe.{Regular, format_value-Closed}
use clickhouse_go.Bind.Dispatch.{
  anonymous, named_value, given, bind, check_all_named_arguments, check_loop, is_named,
  bind_checked, format_argument, format_given,
}
use clickhouse_go.QueryParameters.{negsuc, format_int}

-- []any{"it's", -5, map[string]float64{"k": 1.5}, nil}
abbrev sample : Value
sample = slice (
    value_then (string (codes "it's")) (
      value_then (integer (negsuc 4)) (
        value_then
          (go_map (entry_then (string (codes "k")) (float64 (finite (codes "1.5"))) end_of_entries))
          (value_then nil_pointer end_of_values))))

sample_sql :
    format_value [] 0 format_sql sample
    ≡ ok (codes "['it\\'s', -5, map('k', cast(1.5, 'Float64')), NULL]")
unfolding format_value format_map join_strings pair_texts format_float format_int quote replace
    replace_byte decimal
sample_sql = refl

sample_param_text :
    format_value [] 0 format_param_text sample ≡ ok (codes "['it\\'s', -5, {'k':1.5}, NULL]")
unfolding format_value format_map join_strings pair_texts format_float format_int quote replace
    replace_byte decimal
sample_param_text = refl

sample-Regular : Regular sample
unfolding Regular is_plain
sample-Regular = (tt, (tt, ((tt, refl, tt), (tt, tt))))

sample-Safe : Safe Closed (format_value [] 0 format_sql sample)
sample-Safe = format_value-Closed [] 0 format_sql sample sample-Regular

-- A placeholder behind a minus sign, and a negative argument: what is bound begins a comment.
minus_minus :
    bind [] (codes "1 -?") (anonymous (given (integer (negsuc 4))) ∷ []) ≡ ok (codes "1 --5")
unfolding bind check_all_named_arguments check_loop is_named bind_checked format_argument
    format_given format format_value format_int decimal bind_params_formats formats_loop mark
    bind_positional positional_loop question bind_arg finish update update_raw is_escaped
    in_protected_context in_identifier_or_comment is_digit
minus_minus = refl

minus_minus_comment : (walk false [] raw (codes "1 --5") []).1.in_line_comment ≡ true
unfolding walk update update_raw is_escaped
minus_minus_comment = refl

mixed_arguments :
    bind []
      (codes "?")
      (anonymous (given nil_pointer) ∷ named_value (codes "a") (given nil_pointer) ∷ [])
    ≡ err mixed_params_formats
unfolding bind check_all_named_arguments check_loop is_named
mixed_arguments = refl
