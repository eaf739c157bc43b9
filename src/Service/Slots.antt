-- ===== src/Service/Slots.antt =====
-- The slot numbers of internal/service/ephemeral.go: allocateEphemeralSlots, slotLess and validSlot.
pub mod Lowest
use srm.Prelude.{
  ℕ, zero, suc, ◌+◌, Bool, true, false, Option, none, some, List, [], ◌∷◌, map, length, any_of,
  ◌==◌, if◌then◌else◌, Text,
}
use srm.Prelude.Int.{ℤ, pos, ltb_ℤ}
use srm.Prelude.Strings.{text_lt}
use srm.Prelude.Decimal.{decimal}
use srm.Runner.Versions.{atoi}

-- occupied[id]
abbrev pub is_occupied : List ℕ → ℕ → Bool
is_occupied occupied id = any_of (λ n. n == id) occupied

abbrev push : ℕ → Option (List ℕ) → Option (List ℕ)
push id none = none
push id (some ids) = some (id ∷ ids)

-- The loop from `id`, with `fuel` rounds left and `k` slots to find; `none` is none of the source's.
unfoldable pub allocate_from : ℕ → List ℕ → ℕ → ℕ → Option (List ℕ)
allocate_from fuel occupied id zero = some []
allocate_from zero occupied id (suc k) = none
allocate_from (suc fuel) occupied id (suc k) = elim (is_occupied occupied id) [
  | true ↦ allocate_from fuel occupied (suc id) (suc k)
  | false ↦ push id (allocate_from fuel occupied (suc id) k)
]

abbrev itoas : Option (List ℕ) → Option (List Text)
itoas none = none
itoas (some ids) = some (map decimal ids)

-- A round finds a slot or passes an occupied one.
unfoldable pub allocate_ephemeral_slots : List ℕ → ℕ → Option (List Text)
unfolding allocate_from
allocate_ephemeral_slots occupied count =
    itoas (allocate_from (count + length occupied) occupied 1 count)

by_number : Text → Text → Option ℤ → Option ℤ → Bool
by_number a b (some x) (some y) = ltb_ℤ x y
by_number a b _ _ = text_lt a b

unfoldable pub slot_less : Text → Text → Bool
unfolding by_number
slot_less a b = by_number a b (atoi a) (atoi b)
