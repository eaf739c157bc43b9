-- ===== src/Service/JitFile.antt =====
-- The jit-id file of a lane: PendingJIT and RecordJIT of internal/runner/orchestrator.go.
pub mod RoundTrip
use Prim.Native.Nat.{◌^◌, ◌-◌}
use srm.Prelude.{
  ℕ, zero, suc, Bool, true, false, ◌&&◌, not, Option, none, some, List, [], ◌∷◌, leb, ◌==◌,
  if◌then◌else◌, Text, text_eq,
}
use srm.Prelude.Int.{ℤ, pos, negsuc}
use srm.Prelude.Decimal.{decimal}
use srm.Runner.Versions.{atoi}
use srm.Runner.Units.Marker.{trim_space}

-- Where RecordJIT stops: at MkdirAll, at OpenFile, in WriteString behind some bytes, or at Sync or Close
pub data WriteFault : Type 0 where
  no_fault no_dir no_open unsynced : WriteFault
  cut_short : ℕ → WriteFault

all_digits : Text → Bool
all_digits [] = true
all_digits (c ∷ s) = (leb b'0' c && leb c b'9') && all_digits s

-- What strconv.ParseInt returns beside its error: the limit for a number out of range, or 0
limit_of : Text → ℤ
unfolding all_digits
limit_of [] = pos 0
limit_of (c ∷ s) =
    if not (text_eq s []) && all_digits s
    then (if c == b'-' then negsuc (2 ^ 63 - 1) else pos (2 ^ 63 - 1))
    else pos 0

or_limit : Text → Option ℤ → ℤ
unfolding limit_of
or_limit s none = limit_of s
or_limit s (some n) = n

unfoldable pub parse_int : Text → ℤ
unfolding or_limit
parse_int s = or_limit s (atoi s)

-- PendingJIT, on the bytes that ReadFile gives
unfoldable pub pending_jit : Option Text → ℤ
unfolding parse_int
pending_jit none = pos 0
pending_jit (some bytes) = parse_int (trim_space bytes)

abbrev take : ℕ → Text → Text
take n [] = []
take n (c ∷ s) = elim n [ zero ↦ [] | suc k ↦ c ∷ take k s ]

-- What RecordJIT leaves of the file, and whether it returns nil
unfoldable pub record_jit : WriteFault → ℕ → Option Text → Option Text × Bool
record_jit no_fault id file = (some (decimal id), true)
record_jit no_dir id file = (file, false)
record_jit no_open id file = (file, false)
record_jit unsynced id file = (some (decimal id), false)
record_jit (cut_short n) id file = (some (take n (decimal id)), false)
