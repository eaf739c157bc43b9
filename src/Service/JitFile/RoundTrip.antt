-- ===== src/Service/JitFile/RoundTrip.antt =====
-- The jit-id file: what RecordJIT writes is what PendingJIT reads.
use Prim.Native.Nat.{◌^◌}
use srm.Prelude.{ℕ, ◌<◌, ◌≡◌, ap, ◌∙◌, Option, Text}
use srm.Prelude.Int.{pos}
use srm.Prelude.Decimal.{decimal}
use srm.Runner.Versions.Numbers.{decimal-IsDigit, atoi-decimal}
use srm.Runner.Units.Trim.{digits-IsVisible, trim_space_self}
use srm.Service.JitFile.{no_fault, record_jit, parse_int, or_limit, pending_jit}

-- The id that RecordJIT has written is the one that PendingJIT reads, if it fits an int64.
pub pending_jit-record_jit :
    (id : ℕ) (file : Option Text)
    → id < 2 ^ 63
    → pending_jit (record_jit no_fault id file).0 ≡ pos id
unfolding pending_jit record_jit
pending_jit-record_jit id file h =
    ap parse_int (trim_space_self (decimal id) (digits-IsVisible (decimal id) (decimal-IsDigit id)))
    ∙ ap (or_limit (decimal id)) (atoi-decimal id h)
