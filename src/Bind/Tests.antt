-- ===== src/Bind/Tests.antt =====
-- Binding at small inputs.
use Prim.Native.Char.{code}
use Prim.Native.String.{String}
use clickhouse_go.Common.{ℕ, List, [], ◌∷◌, ◌≡◌, refl}
use clickhouse_go.Bind.Quote.{Bytes, update, in_identifier_or_comment}
use clickhouse_go.Bind.Errors.{Result, ok, err, no_arg_at}
use clickhouse_go.Bind.Literal.{quote}
use clickhouse_go.Bind.Positional.{bind_positional}
use clickhouse_go.Bind.Positional.Pieces.{pieces, fill}
use clickhouse_go.Bind.Positional.Law.{bind_positional-fill}

-- The code points of a text; every literal below is ASCII.
abbrev codes : String → Bytes
codes String.[] = []
codes (String.◌∷◌ c s) = code c ∷ codes s

abbrev format_text : Bytes → Result ℕ Bytes
format_text a = ok (quote a)

abbrev values : List Bytes
values = codes "it's" ∷ codes "b" ∷ []

positional_example :
    bind_positional format_text (codes "select ?, '?', \\? -- ?\n, ?") values
    ≡ ok (codes "select 'it\\'s', '?', ? -- ?\n, 'b'")
unfolding quote pieces fill update in_identifier_or_comment
positional_example = bind_positional-fill format_text (codes "select ?, '?', \\? -- ?\n, ?") values

positional_short : bind_positional format_text (codes "? ? ?") values ≡ err (no_arg_at 1)
unfolding bind_positional quote update in_identifier_or_comment
positional_short = refl
