-- ===== src/Rows.antt =====
-- clickhouse_rows.go: the rows of a query. A channel is the list of the values that are still to be
-- received, and `none` if it is nil: behind the last value it is closed, since its goroutine closes
-- it. A `select` is a choice of the relation, so the theorems hold for each way to schedule it.
pub mod Pending
pub mod Results
pub mod Single
mod Ends
mod Tests
use clickhouse_go.Common.{
  ℕ, zero, suc, ◌+◌, ◌≤◌, ◌<◌, Bool, true, false, ◌&&◌, leb, ◌==◌, if◌then◌else◌, List, [], ◌∷◌,
  Option, none, some, ◌≡◌, ◌≢◌,
}
use clickhouse_go.Native.{BlockPacket, server_totals}

pub record Rows {ℓ} (Block E : Type ℓ) : Type ℓ where
  pub err : Option E
  pub row : ℕ
  pub block : Option Block
  pub totals : Option Block
  pub errors : Option (List E)
  pub stream : Option (List (BlockPacket × Block))
  pub closed : Bool

-- `for err := range r.errors { r.err = err }`
unfoldable pub drain_errors {ℓ} : {E : Type ℓ} → List E → Option E → Option E
drain_errors [] err = err
drain_errors (e ∷ es) err = drain_errors es (some e)

module _ {ℓ} {Block E : Type ℓ} where
  -- The loop of Close over both channels, with streamClosed and errorsClosed.
  pub data CloseLoop
      : List (BlockPacket × Block) → List E → Option E → Bool → Bool → Option E → Type ℓ where
    both_closed :
        {s : List (BlockPacket × Block)} {es : List E} {err : Option E}
        → s ≡ []
        → es ≡ []
        → CloseLoop s es err true true err
    drop_block :
        {s : List (BlockPacket × Block)} {es : List E} {err out : Option E} {sc ec : Bool}
        (x : BlockPacket × Block)
        → (sc && ec) ≡ false
        → CloseLoop s es err sc ec out
        → CloseLoop (x ∷ s) es err sc ec out
    stream_ended :
        {s : List (BlockPacket × Block)} {es : List E} {err out : Option E} {sc ec : Bool}
        → (sc && ec) ≡ false
        → s ≡ []
        → CloseLoop s es err true ec out
        → CloseLoop s es err sc ec out
    take_error :
        {s : List (BlockPacket × Block)} {es : List E} {err out : Option E} {sc ec : Bool} (e : E)
        → (sc && ec) ≡ false
        → CloseLoop s es (some e) sc ec out
        → CloseLoop s (e ∷ es) err sc ec out
    errors_ended :
        {s : List (BlockPacket × Block)} {es : List E} {err out : Option E} {sc ec : Bool}
        → (sc && ec) ≡ false
        → es ≡ []
        → CloseLoop s es err sc true out
        → CloseLoop s es err sc ec out

  -- What Close leaves.
  abbrev pub close_with : Rows Block E → Option E → Rows Block E
  close_with r err = record r { err = err; closed = true }

  -- Close, by which of the channels are nil.
  pub data Close : Rows Block E → Rows Block E → Type ℓ where
    no_channels :
        {r : Rows Block E} → r.errors ≡ none → r.stream ≡ none → Close r (close_with r r.err)
    only_stream :
        {r : Rows Block E} (s : List (BlockPacket × Block))
        → r.errors ≡ none
        → r.stream ≡ some s
        → Close r (record (close_with r r.err) { stream = some [] })
    only_errors :
        {r : Rows Block E} (es : List E)
        → r.errors ≡ some es
        → r.stream ≡ none
        → Close r (record (close_with r (drain_errors es r.err)) { errors = some [] })
    both :
        {r : Rows Block E} {out : Option E} (es : List E) (s : List (BlockPacket × Block))
        → r.errors ≡ some es
        → r.stream ≡ some s
        → CloseLoop s es r.err false false out
        → Close r (record (close_with r out) { errors = some []; stream = some [] })

module _ {ℓ} {Block E : Type ℓ} (rows : Block → ℕ) where
  -- Next, before its deferred end: from rows to rows and the result.
  pub data NextLoop : Rows Block E → Rows Block E → Bool → Type ℓ where
    no_block : {r : Rows Block E} → r.block ≡ none → NextLoop r r false
    in_block :
        {r : Rows Block E} (b : Block)
        → r.block ≡ some b
        → r.row < rows b
        → NextLoop r (record r { row = r.row + 1 }) true
    no_stream :
        {r : Rows Block E} (b : Block)
        → r.block ≡ some b
        → rows b ≤ r.row
        → r.stream ≡ none
        → NextLoop r r false
    read_error :
        {r : Rows Block E} (b : Block) (s : List (BlockPacket × Block)) (e : E) (es : List E)
        → r.block ≡ some b
        → rows b ≤ r.row
        → r.stream ≡ some s
        → r.errors ≡ some (e ∷ es)
        → NextLoop r (record r { err = some e; errors = some es }) false
    errors_closed :
        {r r' : Rows Block E} {more : Bool} (b : Block) (s : List (BlockPacket × Block))
        → r.block ≡ some b
        → rows b ≤ r.row
        → r.stream ≡ some s
        → r.errors ≡ some []
        → NextLoop r r' more
        → NextLoop r r' more
    stream_closed :
        {r : Rows Block E} (b : Block)
        → r.block ≡ some b
        → rows b ≤ r.row
        → r.stream ≡ some []
        → NextLoop r r false
    read_totals :
        {r : Rows Block E} (b t : Block) (s : List (BlockPacket × Block))
        → r.block ≡ some b
        → rows b ≤ r.row
        → r.stream ≡ some ((server_totals, t) ∷ s)
        → NextLoop r (record r { row = 0; block = none; totals = some t; stream = some s }) false
    read_block :
        {r r' : Rows Block E} {more : Bool} (b b' : Block) (packet : BlockPacket)
        (s : List (BlockPacket × Block))
        → r.block ≡ some b
        → rows b ≤ r.row
        → r.stream ≡ some ((packet, b') ∷ s)
        → packet ≢ server_totals
        → NextLoop (record r { row = 0; block = some b'; stream = some s }) r' more
        → NextLoop r r' more

  -- Next closes the rows if it answers false.
  pub data Next : Rows Block E → Rows Block E → Bool → Type ℓ where
    more_rows : {r r' : Rows Block E} → NextLoop r r' true → Next r r' true
    no_more : {r r1 r2 : Rows Block E} → NextLoop r r1 false → Close r1 r2 → Next r r2 false

  -- `for rows.Next() { … }`, with the block and the row number that Scan reads in each round.
  pub data Loop : Rows Block E → List (Block × ℕ) → Rows Block E → Type ℓ where
    ended : {r r' : Rows Block E} → Next r r' false → Loop r [] r'
    round :
        {r r1 r2 : Rows Block E} {seen : List (Block × ℕ)} (b : Block)
        → Next r r1 true
        → r1.block ≡ some b
        → Loop r1 seen r2
        → Loop r ((b, r1.row) ∷ seen) r2

-- What Scan of a row answers other than nil.
pub data ScanError {ℓ} (E : Type ℓ) : Type ℓ where
  no_rows : ScanError E
  end_of_rows : ScanError E
  not_scanned : E → ScanError E
  query_failed : E → ScanError E

module _ {ℓ} {E : Type ℓ} where
  abbrev pub scan_result : Option E → Option (ScanError E)
  scan_result none = none
  scan_result (some e) = some (not_scanned e)

  abbrev pub close_result : Option E → Option (ScanError E)
  close_result none = none
  close_result (some e) = some (query_failed e)

  abbrev pub no_rows_result : Option E → ScanError E
  no_rows_result none = no_rows
  no_rows_result (some e) = query_failed e

module _ {ℓ} {Block E : Type ℓ} where
  -- The answer of Close, with what it leaves.
  abbrev pub close_answer :
      Option (List E) → Option (List (BlockPacket × Block)) → Option E → Option E
  close_answer none (some s) err = none
  close_answer none none err = err
  close_answer (some es) s err = err

module _ {ℓ} {Block E : Type ℓ} (rows : Block → ℕ) (scan : Block → ℕ → Option E) where
  -- Scan of rows, by r.block.
  unfoldable pub scan_block : Option Block → ℕ → Option (ScanError E)
  scan_block none row = some end_of_rows
  scan_block (some b) row =
      if row == 0 && leb (rows b) row then some end_of_rows else scan_result (scan b row)

  unfoldable pub scan_rows : Rows Block E → Option (ScanError E)
  unfolding scan_block
  scan_rows r = scan_block r.block r.row

  -- Scan of QueryRow's row, where the query did not fail.
  pub data RowScan : Rows Block E → Rows Block E → Option (ScanError E) → Type ℓ where
    scan_empty :
        {r r1 r2 : Rows Block E}
        → Next rows r r1 false
        → Close r1 r2
        → RowScan r r2 (some (no_rows_result r2.err))
    scan_failed :
        {r r1 : Rows Block E} (e : ScanError E)
        → Next rows r r1 true
        → scan_rows r1 ≡ some e
        → RowScan r r1 (some e)
    scan_done :
        {r r1 r2 : Rows Block E}
        → Next rows r r1 true
        → scan_rows r1 ≡ none
        → Close r1 r2
        → RowScan r r2 (close_result (close_answer r1.errors r1.stream r2.err))
