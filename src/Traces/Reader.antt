-- ===== src/Traces/Reader.antt =====
-- src/TraceCommon: a trace in memory, and its requests as work. A line of the file is what `sscanf`
-- reads of it, or none if that is not all three fields.
use workload_compactor.Base.{
  to_int, ℕ, zero, suc, ◌+◌, ◌-◌, ◌%◌, ◌^◌, Bool, if◌then◌else◌, List, [], ◌∷◌, Option, none, some,
  String, string_key, Double, ◌>>=◌, ℤ, pos, negsuc, length, ltb, get_elem?,
}
use workload_compactor.Traces.Estimators.{Estimator, estimate_work}
pub mod Whole

pub record Scanned : Type 0 where
  pub timestamp : ℕ
  pub request_size : ℕ
  pub is_read : String

pub record TraceEntry : Type 0 where
  pub arrival_time : ℕ
  pub request_size : ℕ
  pub is_read : Bool

pub record TraceReader : Type 0 where
  pub trace : List TraceEntry
  pub cur_index : ℕ

-- The size is kept in 32 bits.
unfoldable pub entry_of : Scanned → TraceEntry
entry_of line = record {
  arrival_time = line.timestamp;
  request_size = line.request_size % 2 ^ 32;
  is_read = string_key.beq line.is_read "DiskRead";
}

unfoldable pub entries_of : List (Option Scanned) → List TraceEntry
entries_of [] = []
entries_of (none ∷ lines) = entries_of lines
entries_of (some line ∷ lines) = entry_of line ∷ entries_of lines

unfoldable pub new_reader : List (Option Scanned) → TraceReader
new_reader lines = record { trace = entries_of lines; cur_index = 0 }

-- TraceReader::nextEntry; the index is an `unsigned int`.
unfoldable pub next_entry : TraceReader → Option (TraceEntry × TraceReader)
next_entry r =
    if ltb r.cur_index (length r.trace)
    then (get_elem? r.trace r.cur_index >>= λ e.
        some (e, record r { cur_index = (r.cur_index + 1) % 2 ^ 32 }))
    else none

unfoldable pub reset : TraceReader → TraceReader
reset r = record r { cur_index = 0 }

pub record ProcessedTraceEntry (W : Type 0) : Type 0 where
  pub arrival_time : ℕ
  pub work : W
  pub is_read : Bool

module _ {W : Type 0} ⦃d : Double W⦄ where
  unfoldable pub processed : Estimator W → TraceEntry → Option (ProcessedTraceEntry W)
  processed est e = estimate_work est (to_int e.request_size) e.is_read >>= λ work.
      some (record { arrival_time = e.arrival_time; work = work; is_read = e.is_read })

  unfoldable pub processed_all :
      Estimator W → List TraceEntry → Option (List (ProcessedTraceEntry W))
  processed_all est [] = some []
  processed_all est (e ∷ es) = processed est e >>= λ p. processed_all est es >>= λ ps. some (p ∷ ps)

  -- `while (pTrace->nextEntry(entry))`: the entries that a loop sees, from where the reader stands, and
  -- the reader at the end. `none` is a failed assertion of the estimator, or the fuel's end.
  unfoldable pub read_next :
      (TraceReader → Option (List (ProcessedTraceEntry W) × TraceReader))
      → Estimator W
      → TraceReader
      → Option (TraceEntry × TraceReader)
      → Option (List (ProcessedTraceEntry W) × TraceReader)
  read_next rest est r none = some ([], r)
  read_next rest est r (some (e, next)) =
      processed est e >>= λ p. rest next >>= λ t. some (p ∷ t.0, t.1)

  unfoldable pub read_all :
      ℕ → Estimator W → TraceReader → Option (List (ProcessedTraceEntry W) × TraceReader)
  read_all zero est r = none
  read_all (suc n) est r = let rest = read_all n est in read_next rest est r (next_entry r)
