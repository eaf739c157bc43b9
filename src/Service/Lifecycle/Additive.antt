-- ===== src/Service/Lifecycle/Additive.antt =====
-- Creating lanes beside those that a host has: which slots are found.
pub mod Lanes
use Prim.Native.Nat.{◌^◌}
use srm.Prelude.{
  ℕ, zero, suc, ◌+◌, ◌≤◌, ◌<◌, ◌≡◌, ◌≢◌, refl, sym, ap, ◌∙◌, Bool, true, false, ◌||◌, Option, none,
  some, List, [], ◌∷◌, ◌++◌, map, length, any_of, find_first, ◌==◌, if◌then◌else◌, All, All-map,
  arith, Bool-cases, if_both, inl, inr, Text, text_eq, text_eq_iff, text_eq_refl, Lacks, Memᴰ,
}
use srm.Prelude.Int.{ℤ, pos, negsuc}
use srm.Prelude.Decimal.{decimal}
use srm.Config.{Config, OrgConfig, org_names}
use srm.Config
use srm.Runner.Names.{ephemeral_svc_name}
use srm.Runner.Versions.{atoi}
use srm.Runner.Versions.Numbers.{atoi-decimal}
use srm.Service.UnitNames.{orgs_by_len, parse_ephemeral_unit_name}
use srm.Service.UnitNames.RoundTrip.{parse_ephemeral_unit_name-ephemeral_svc_name}
use srm.Service.Slots.{is_occupied, allocate_ephemeral_slots}
use srm.Service.Slots.Lowest.{IsLowestFree, allocate_ephemeral_slots_bounded}
use srm.Service.Lifecycle.Access.{is_configured}
use srm.Service.Lifecycle.Lanes.{occupied_by, numeric, slot_of}

-- A configured org is among the names.
find_first-mem :
    (name : Text) (orgs : List OrgConfig)
    → find_first (λ oc. text_eq oc.name name) orgs ≢ none
    → Memᴰ name (map (λ oc. oc.name) orgs)
unfolding find_first
find_first-mem name [] h = absurd (h refl)
find_first-mem name (oc ∷ orgs) h = elim (Bool-cases (text_eq oc.name name)) [
  | inl e ↦ Memᴰ.head (sym ((text_eq_iff oc.name name).0 e))
  | inr e ↦ Memᴰ.tail (find_first-mem name orgs (rw e at h))
]

pub is_configured-mem :
    (name : Text) (c : Config) → is_configured name c ≡ true → Memᴰ name (org_names c)
unfolding org_names Config.org
is_configured-mem name c h = find_first-mem name c.orgs (λ e. absurd (cc (rw e at h)))

numeric-length : (o : Option ℤ) (rest : List ℕ) → length (numeric o rest) ≤ suc (length rest)
numeric-length none rest = omega arith
numeric-length (some (pos n)) rest = omega arith
numeric-length (some (negsuc n)) rest = omega arith

slot_of-length :
    (org : Text) (o : Option (Text × Text)) (rest : List ℕ)
    → length (slot_of org o rest) ≤ suc (length rest)
slot_of-length org none rest = omega arith
slot_of-length org (some (o, slot)) rest =
    if_both (λ xs. length xs ≤ suc (length rest)) (text_eq o org) (numeric-length (atoi slot) rest)
      (omega arith)

occupied_by-length :
    (org : Text) (orgs units : List Text) → length (occupied_by org orgs units) ≤ length units
unfolding occupied_by
occupied_by-length org orgs [] = omega arith
occupied_by-length org orgs (svc ∷ units) =
    let rest : List ℕ = occupied_by org orgs units in
    omega (
      arith,
      slot_of-length org (parse_ephemeral_unit_name svc orgs) rest,
      occupied_by-length org orgs units,
    )

-- What is occupied stays so when another unit is read.
is_occupied-numeric :
    (o : Option ℤ) (rest : List ℕ) (n : ℕ)
    → is_occupied rest n ≡ true
    → is_occupied (numeric o rest) n ≡ true
unfolding any_of
is_occupied-numeric none rest n h = h
is_occupied-numeric (some (pos m)) rest n h = ground arith
is_occupied-numeric (some (negsuc m)) rest n h = h

is_occupied-slot_of :
    (org : Text) (o : Option (Text × Text)) (rest : List ℕ) (n : ℕ)
    → is_occupied rest n ≡ true
    → is_occupied (slot_of org o rest) n ≡ true
is_occupied-slot_of org none rest n h = h
is_occupied-slot_of org (some (o, slot)) rest n h =
    if_both (λ xs. is_occupied xs n ≡ true) (text_eq o org)
      (is_occupied-numeric (atoi slot) rest n h) h

is_occupied-head : (n : ℕ) (rest : List ℕ) → is_occupied (n ∷ rest) n ≡ true
unfolding any_of
is_occupied-head n rest = ground arith

-- A slot whose unit is on the host is occupied.
occupied_by-mem :
    (org slot : Text) (n : ℕ) (orgs units : List Text)
    → parse_ephemeral_unit_name (ephemeral_svc_name org slot) orgs ≡ some (org, slot)
    → atoi slot ≡ some (pos n)
    → Memᴰ (ephemeral_svc_name org slot) units
    → is_occupied (occupied_by org orgs units) n ≡ true
unfolding occupied_by
occupied_by-mem org slot n orgs [] p a m = elim m [ ]
occupied_by-mem org slot n orgs (svc ∷ units) p a (Memᴰ.head e) =
    rw (← e) (rw p (rw (text_eq_refl org) (rw a (is_occupied-head n (occupied_by org orgs units)))))
occupied_by-mem org slot n orgs (svc ∷ units) p a (Memᴰ.tail m) =
    is_occupied-slot_of org (parse_ephemeral_unit_name svc orgs) (occupied_by org orgs units) n
      (occupied_by-mem org slot n orgs units p a m)

-- No unit of the host is that of the slot.
abbrev pub IsNew : Text → List Text → Text → Type 0
IsNew org units slot = Memᴰ (ephemeral_svc_name org slot) units → ⊥

free-IsNew :
    (org : Text) (names units : List Text) (n : ℕ)
    → Memᴰ org names
    → All (Lacks b'.') names
    → n < 2 ^ 63
    → is_occupied (occupied_by org (orgs_by_len names) units) n ≡ false
    → IsNew org units (decimal n)
free-IsNew org names units n k d lt free m =
    let o : is_occupied (occupied_by org (orgs_by_len names) units) n ≡ true =
      occupied_by-mem org (decimal n) n (orgs_by_len names) units
        (parse_ephemeral_unit_name-ephemeral_svc_name org (decimal n) names k d) (atoi-decimal n lt)
        m in
    absurd (cc (o, free))

found-IsNew :
    (org : Text) (names units : List Text) (id end : ℕ) (ids : List ℕ)
    → Memᴰ org names
    → All (Lacks b'.') names
    → end ≤ 2 ^ 63
    → IsLowestFree (occupied_by org (orgs_by_len names) units) id ids
    → All (λ x. x < end) ids
    → All (IsNew org units) (map decimal ids)
found-IsNew org names units id end [] k d b low lt = tt
found-IsNew org names units id end (x ∷ ids) k d b (le, free, gap, rest) (lt, lts) = (
  free-IsNew org names units x k d (omega (arith, lt)) free,
  found-IsNew org names units (suc x) end ids k d b rest lts,
)

-- What is allocated beside the units of a host is new.
pub allocated-IsNew :
    (org : Text) (names units : List Text) (count : ℕ) (alloc : List Text)
    → Memᴰ org names
    → All (Lacks b'.') names
    → count + length units < 2 ^ 63
    → allocate_ephemeral_slots (occupied_by org (orgs_by_len names) units) count ≡ some alloc
    → All (IsNew org units) alloc
allocated-IsNew org names units count alloc k d b e =
    let occupied : List ℕ = occupied_by org (orgs_by_len names) units in
    let (ids, f, low, lts) = allocate_ephemeral_slots_bounded occupied count in
    let p : map decimal ids ≡ alloc = some_inj (map decimal ids) alloc (sym f ∙ e) in
    rw (← p) (
      found-IsNew org names units 1 (1 + (count + length occupied)) ids k d
        (omega (arith, occupied_by-length org (orgs_by_len names) units)) low lts)
  where
    some_inj : (a b : List Text) → some a ≡ some b → a ≡ b
    some_inj a b q = cc
