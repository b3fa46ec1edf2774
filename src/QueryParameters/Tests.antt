-- ===== src/QueryParameters/Tests.antt =====
-- Times at a concrete moment before 1970: -86400.5.
use clickhouse_go.Common.{true, ◌≡◌, arith}
use clickhouse_go.QueryParameters.{negsuc, Time, milli_seconds, format_time_with_scale}
use clickhouse_go.QueryParameters.Reading.{read_fraction}
use clickhouse_go.QueryParameters.Epoch.{format_time_with_scale-moment}

abbrev before_1970 : Time
before_1970 = record { unix = negsuc 86400; nanosecond = 500000000 }

millis_before :
    read_fraction (format_time_with_scale before_1970 milli_seconds) ≡ (true, (86400500, 3))
millis_before = format_time_with_scale-moment (negsuc 86400) 500000000 milli_seconds (omega arith)
