-- ===== src/Runner/Versions/Numbers.antt =====
-- A number that is written in decimal (Prelude/Decimal.antt) is read back by strconv.Atoi.
use Prim.Native.Nat.{◌^◌, ◌/◌, ◌%◌}
use srm.Prelude.{
  ℕ, zero, suc, ◌⊎◌, ◌+◌, ◌≤◌, ◌<◌, ◌≡◌, ◌≢◌, refl, ◌∙◌, some, [], ◌∷◌, ltb, All, Text, arith,
  Bool-cases, inl, inr,
}
use srm.Prelude.Int.{pos}
use srm.Prelude.Decimal.{decimal, digits_onto}
use srm.Runner.Versions.{digits, unsigned, in_range_pos, atoi}

abbrev pub IsDigit : ℕ → Type 0
IsDigit c = (b'0' ≤ c) × (c ≤ b'9')

digits-digits_onto :
    (fuel n : ℕ) (acc : Text) → n < fuel → digits 0 (digits_onto fuel n acc) ≡ digits n acc
unfolding digits digits_onto
digits-digits_onto zero n acc h = elim h [ ]
digits-digits_onto (suc fuel) n acc h = elim (Bool-cases (ltb n 10)) [
  | inl e ↦ rw e (ground arith)
  | inr e ↦
      rw e (digits-digits_onto fuel (n / 10) ((b'0' + n % 10) ∷ acc) (ground arith) ∙ ground arith)
]

digits_onto-IsDigit :
    (fuel n : ℕ) (acc : Text) → All IsDigit acc → All IsDigit (digits_onto fuel n acc)
unfolding digits_onto
digits_onto-IsDigit zero n acc h = h
digits_onto-IsDigit (suc fuel) n acc h = elim (Bool-cases (ltb n 10)) [
  | inl e ↦ rw e (ground arith)
  | inr e ↦ rw e (digits_onto-IsDigit fuel (n / 10) ((b'0' + n % 10) ∷ acc) (ground arith))
]

pub decimal-IsDigit : (n : ℕ) → All IsDigit (decimal n)
unfolding decimal
decimal-IsDigit n = digits_onto-IsDigit (suc n) n [] tt

unsigned-digits : (s : Text) (n : ℕ) → s ≢ [] → digits 0 s ≡ some n → unsigned s ≡ some n
unfolding unsigned
unsigned-digits [] n e h = absurd (e refl)
unsigned-digits (c ∷ s) n e h = h

digits_onto-ne-nil : (fuel n : ℕ) (acc : Text) → n < fuel ⊎ (acc ≢ []) → digits_onto fuel n acc ≢ []
unfolding digits_onto
digits_onto-ne-nil zero n acc (inl h) = elim h [ ]
digits_onto-ne-nil zero n acc (inr h) = h
digits_onto-ne-nil (suc fuel) n acc h = elim (Bool-cases (ltb n 10)) [
  | inl e ↦ rw e (λ p. cc p)
  | inr e ↦ rw e (digits_onto-ne-nil fuel (n / 10) ((b'0' + n % 10) ∷ acc) (inr (λ p. cc p)))
]

in_range : (n : ℕ) → n < 2 ^ 63 → in_range_pos (some n) ≡ some (pos n)
unfolding in_range_pos
in_range n lt = ground arith

atoi_of_digits :
    (s : Text) (n : ℕ) → All IsDigit s → n < 2 ^ 63 → unsigned s ≡ some n → atoi s ≡ some (pos n)
unfolding atoi in_range_pos unsigned
atoi_of_digits [] n d lt h = cc
atoi_of_digits (c ∷ s) n d lt h = ground (arith, h, in_range n lt)

-- A number in the range of int64 is read back.
pub atoi-decimal : (n : ℕ) → n < 2 ^ 63 → atoi (decimal n) ≡ some (pos n)
unfolding decimal digits
atoi-decimal n lt =
    atoi_of_digits (digits_onto (suc n) n []) n (digits_onto-IsDigit (suc n) n [] tt) lt (
      unsigned-digits (digits_onto (suc n) n []) n
        (digits_onto-ne-nil (suc n) n [] (inl (omega arith)))
        (digits-digits_onto (suc n) n [] (omega arith)))
