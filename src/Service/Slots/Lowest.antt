-- ===== src/Service/Slots/Lowest.antt =====
-- The slots that are allocated.
use srm.Prelude.{
  ℕ, zero, suc, ◌+◌, ◌≤◌, ◌<◌, ◌≡◌, refl, ap, true, false, Option, none, some, List, [], ◌∷◌, map,
  length, any_of, leb, if◌then◌else◌, All, arith, Bool-cases, inl, inr,
}
use srm.Prelude.Decimal.{decimal}
use srm.Service.Slots.{is_occupied, push, allocate_from, itoas, allocate_ephemeral_slots}

-- Each number is the lowest free one from `id` on, or behind the one before it.
abbrev pub IsLowestFree : List ℕ → ℕ → List ℕ → Type 0
IsLowestFree occupied id [] = Unit {0}
IsLowestFree occupied id (x ∷ xs) =
    (id ≤ x)
    × (is_occupied occupied x ≡ false)
    × ((j : ℕ) → id ≤ j → j < x → is_occupied occupied j ≡ true)
    × IsLowestFree occupied (suc x) xs

-- How many occupied slots are `id` or behind it
behind : List ℕ → ℕ → ℕ
behind [] id = 0
behind (n ∷ occupied) id = let rest = behind occupied id in if leb id n then suc rest else rest

behind-length : (occupied : List ℕ) (id : ℕ) → behind occupied id ≤ length occupied
unfolding behind
behind-length [] id = omega arith
behind-length (n ∷ occupied) id = ground (arith, behind-length occupied id)

behind-le : (occupied : List ℕ) (id : ℕ) → behind occupied (suc id) ≤ behind occupied id
unfolding behind
behind-le [] id = omega arith
behind-le (n ∷ occupied) id = ground (arith, behind-le occupied id)

behind-lt :
    (occupied : List ℕ) (id : ℕ)
    → is_occupied occupied id ≡ true
    → behind occupied (suc id) < behind occupied id
unfolding behind any_of
behind-lt [] id h = absurd (ground (arith, h))
behind-lt (n ∷ occupied) id h = ground (arith, h, behind-lt occupied id, behind-le occupied id)

pub record IsAllocated (occupied : List ℕ) (id k : ℕ) (found : Option (List ℕ)) : Type 0 where
  pub ids : List ℕ
  pub is_found : found ≡ some ids
  pub enough : length ids ≡ k
  pub lowest : IsLowestFree occupied id ids

skip_occupied :
    (occupied : List ℕ) (id : ℕ) (ids : List ℕ)
    → is_occupied occupied id ≡ true
    → IsLowestFree occupied (suc id) ids
    → IsLowestFree occupied id ids
skip_occupied occupied id [] o h = tt
skip_occupied occupied id (x ∷ xs) o (le, free, gap, rest) = (omega (arith, le), free, gap', rest)
  where
    gap' : (j : ℕ) → id ≤ j → j < x → is_occupied occupied j ≡ true
    gap' j a b = ground (arith, o, gap j, a, b)

allocate_from-IsAllocated :
    (fuel : ℕ) (occupied : List ℕ) (id k : ℕ)
    → k + behind occupied id ≤ fuel
    → IsAllocated occupied id k (allocate_from fuel occupied id k)
unfolding allocate_from
allocate_from-IsAllocated fuel occupied id zero h = record {
  ids = [];
  is_found = refl;
  enough = refl;
  lowest = tt;
}
allocate_from-IsAllocated zero occupied id (suc k) h = absurd (omega (arith, h))
allocate_from-IsAllocated (suc fuel) occupied id (suc k) h =
    elim (Bool-cases (is_occupied occupied id)) [
      | inl o ↦
          let rest =
            allocate_from-IsAllocated fuel occupied (suc id) (suc k)
              (omega (arith, h, behind-lt occupied id o)) in
          rw (allocate_from, o)
            (record {
              ids = rest.ids;
              is_found = rest.is_found;
              enough = rest.enough;
              lowest = skip_occupied occupied id rest.ids o rest.lowest;
            })
      | inr o ↦
          let rest =
            allocate_from-IsAllocated fuel occupied (suc id) k
              (omega (arith, h, behind-le occupied id)) in
          rw (allocate_from, o)
            (record {
              ids = id ∷ rest.ids;
              is_found = ap (push id) rest.is_found;
              enough = ap suc rest.enough;
              lowest = (omega arith, o, (λ j a b. absurd (omega (arith, a, b))), rest.lowest);
            })
    ]

push-below :
    (end id : ℕ) (found : Option (List ℕ)) (ids : List ℕ)
    → id < end
    → ((xs : List ℕ) → found ≡ some xs → All (λ x. x < end) xs)
    → push id found ≡ some ids
    → All (λ x. x < end) ids
push-below end id none ids lt h e = absurd (cc e)
push-below end id (some xs) ids lt h e = let p : id ∷ xs ≡ ids = cc in rw (← p) (lt, h xs refl)

-- With `fuel` rounds the search stays below `id + fuel`.
pub allocate_from-below :
    (fuel : ℕ) (occupied : List ℕ) (id k end : ℕ) (ids : List ℕ)
    → id + fuel ≡ end
    → allocate_from fuel occupied id k ≡ some ids
    → All (λ x. x < end) ids
unfolding allocate_from
allocate_from-below fuel occupied id zero end ids e h = let p : [] ≡ ids = cc in rw (← p) tt
allocate_from-below zero occupied id (suc k) end ids e h = absurd (cc h)
allocate_from-below (suc fuel) occupied id (suc k) end ids e h =
    elim (Bool-cases (is_occupied occupied id)) [
      | inl o ↦
          allocate_from-below fuel occupied (suc id) (suc k) end ids (omega arith)
            (rw (allocate_from, o) at h)
      | inr o ↦
          push-below end id (allocate_from fuel occupied (suc id) k) ids (omega arith)
            (λ xs. allocate_from-below fuel occupied (suc id) k end xs (omega arith))
            (rw (allocate_from, o) at h)
    ]

-- The slots that were asked for are found: as many as asked for, each the lowest free number from 1 on or
-- behind the one before it.
pub allocate_ephemeral_slots-IsLowestFree :
    (occupied : List ℕ) (count : ℕ)
    → (ids : List ℕ) × (allocate_ephemeral_slots occupied count ≡ some (map decimal ids))
      × (length ids ≡ count)
      × IsLowestFree occupied 1 ids
unfolding allocate_ephemeral_slots
allocate_ephemeral_slots-IsLowestFree occupied count =
    let found =
      allocate_from-IsAllocated (count + length occupied) occupied 1 count
        (omega (arith, behind-length occupied 1)) in
    (found.ids, ap itoas found.is_found, found.enough, found.lowest)

-- The same, with a bound on the numbers.
pub allocate_ephemeral_slots_bounded :
    (occupied : List ℕ) (count : ℕ)
    → (ids : List ℕ) × (allocate_ephemeral_slots occupied count ≡ some (map decimal ids))
      × IsLowestFree occupied 1 ids
      × All (λ x. x < 1 + (count + length occupied)) ids
unfolding allocate_ephemeral_slots
allocate_ephemeral_slots_bounded occupied count =
    let fuel : ℕ = count + length occupied in
    let found =
      allocate_from-IsAllocated fuel occupied 1 count (omega (arith, behind-length occupied 1)) in
    (
      found.ids,
      ap itoas found.is_found,
      found.lowest,
      allocate_from-below fuel occupied 1 count (1 + fuel) found.ids refl found.is_found,
    )
