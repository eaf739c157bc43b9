-- ===== src/Runner/SubIds.antt =====
-- The subordinate id ranges for rootless Docker: ensureSubIDFile of internal/runner/orchestrator.go.
pub mod Ranges
pub mod Idempotent
use Prim.Native.Nat.{◌^◌}
use srm.Prelude.{
  ℕ, suc, ◌+◌, ◌-◌, Bool, not, ◌&&◌, Option, none, some, List, [], ◌∷◌, ◌++◌, ltb, leb,
  if◌then◌else◌, Text, codes, text_eq,
}
use srm.Prelude.Int.{ℤ, pos, negsuc, ltb_ℤ}
use srm.Prelude.Strings.{has_suffix}
use srm.Prelude.Decimal.{decimal}
use srm.Runner.Versions.{split, atoi}
use srm.Runner.Units.Marker.{trim_space}

abbrev pub sub_id_count : ℕ
sub_id_count = 65536

abbrev pub sub_id_base : ℕ
sub_id_base = 100000

-- a - b
abbrev sub_ℕ : ℕ → ℕ → ℤ
sub_ℕ a b = if leb b a then pos (a - b) else negsuc (b - a - 1)

-- The sum of two int64 numbers, which wraps around
unfoldable pub add_int64 : ℤ → ℤ → ℤ
add_int64 (pos a) (pos b) =
    if ltb (a + b) (2 ^ 63) then pos (a + b) else negsuc (2 ^ 64 - (a + b) - 1)
add_int64 (negsuc a) (negsuc b) =
    if ltb (a + b + 1) (2 ^ 63) then negsuc (a + b + 1) else pos (2 ^ 64 - (a + b + 2))
add_int64 (pos a) (negsuc b) = sub_ℕ a (suc b)
add_int64 (negsuc a) (pos b) = sub_ℕ b (suc a)

-- `if end > next { next = end }`
abbrev raise : ℕ → ℤ → ℕ
raise next (pos end) = if ltb next end then end else next
raise next (negsuc n) = next

unfoldable pub advance : ℕ → Option ℤ → Option ℤ → ℕ
unfolding add_int64
advance next (some start) (some count) = raise next (add_int64 start count)
advance next _ _ = next

pub data Scan : Type 0 where
  adequate : Scan
  too_small : Text → Scan
  free : ℕ → Scan

-- The user has this block already.
abbrev pub judge : Text → Option ℤ → Scan
judge line none = too_small line
judge line (some count) = if ltb_ℤ count (pos sub_id_count) then too_small line else adequate

-- A line of three fields; any other is passed by.
unfoldable pub scan_line : Text → ℕ → Text → List Text → (ℕ → Scan) → Scan
unfolding advance
scan_line user next line (name ∷ start ∷ count ∷ []) rest =
    if text_eq name user
    then judge line (atoi count)
    else rest (advance next (atoi start) (atoi count))
scan_line user next line _ rest = rest next

abbrev pub fields : Text → List Text
fields line = split b':' (trim_space line)

unfoldable pub scan : Text → ℕ → List Text → Scan
unfolding scan_line
scan user next [] = free next
scan user next (line ∷ lines) = scan_line user next line (fields line) (λ n. scan user n lines)

-- os.ReadFile
pub data Data : Type 0 where
  bytes : Text → Data
  no_file unreadable : Data

-- Nothing is to be done, the block is too small, the file cannot be read, or it is to be written.
pub data Ensured : Type 0 where
  unchanged read_error : Ensured
  small_block : Text → Ensured
  write : Text → Ensured

abbrev pub new_line : Text → ℕ → Text
new_line user next = user ++ b':' ∷ (decimal next ++ codes ":65536")

abbrev pub ended : Text → Text
ended body =
    if not (text_eq body []) && not (has_suffix body (codes "\n")) then body ++ 10 ∷ [] else body

unfoldable pub appended : Text → Text → Scan → Ensured
appended user body adequate = unchanged
appended user body (too_small line) = small_block line
appended user body (free next) = write (ended body ++ (new_line user next ++ 10 ∷ []))

unfoldable pub ensure_sub_id_file : Text → Data → Ensured
unfolding appended scan
ensure_sub_id_file user unreadable = read_error
ensure_sub_id_file user no_file = appended user [] (scan user sub_id_base (split 10 []))
ensure_sub_id_file user (bytes body) = appended user body (scan user sub_id_base (split 10 body))
