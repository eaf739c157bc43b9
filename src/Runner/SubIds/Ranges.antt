-- ===== src/Runner/SubIds/Ranges.antt =====
-- The new block against those that the file has.
use Prim.Native.Nat.{◌^◌}
use srm.Prelude.{
  ℕ, ◌+◌, ◌≤◌, ◌<◌, ◌≡◌, refl, Option, none, some, List, [], ◌∷◌, ◌++◌, All, arith, Bool-cases, inl,
  inr, Text, text_eq,
}
use srm.Prelude.Int.{ℤ, pos}
use srm.Runner.Versions.{split, atoi}
use srm.Runner.SubIds.{
  Scan, adequate, too_small, free, advance, scan_line, scan, fields, judge, sub_id_base, appended,
  write, bytes, ended, new_line, ensure_sub_id_file,
}

-- The block that a line gives, if its end fits an int64, ends at `n` or before it.
abbrev pub EndsBefore : ℕ → Text → Type 0
EndsBefore n line =
    (name start count : Text) (s c : ℕ)
    → fields line ≡ name ∷ start ∷ count ∷ []
    → atoi start ≡ some (pos s)
    → atoi count ≡ some (pos c)
    → s + c < 2 ^ 63
    → s + c ≤ n

advance-le : (next : ℕ) (start count : Option ℤ) → next ≤ advance next start count
unfolding advance
advance-le next none count = omega arith
advance-le next (some s) none = omega arith
advance-le next (some s) (some c) = ground arith

advance-end : (next s c : ℕ) → s + c < 2 ^ 63 → s + c ≤ advance next (some (pos s)) (some (pos c))
unfolding advance
advance-end next s c h = ground arith

pub judge-ne-free : (line : Text) (n : ℕ) (count : Option ℤ) → judge line count ≡ free n → ⊥
judge-ne-free line n none h = cc
judge-ne-free line n (some count) h = ground arith

-- A block that is found is not below where the search began, and is behind the blocks of all lines.
record IsAbove (next n : ℕ) (lines : List Text) : Type 0 where
  is_above : next ≤ n
  ends : All (EndsBefore n) lines

scan_line-next :
    (user : Text) (next n : ℕ) (line : Text) (fs : List Text) (rest : ℕ → Scan)
    → scan_line user next line fs rest ≡ free n
    → (m : ℕ) × (rest m ≡ free n)
      × (next ≤ m)
      × ((name start count : Text) (s c : ℕ)
          → fs ≡ name ∷ start ∷ count ∷ []
          → atoi start ≡ some (pos s)
          → atoi count ≡ some (pos c)
          → s + c < 2 ^ 63
          → s + c ≤ m)
unfolding scan_line
scan_line-next user next n line [] rest h = (next, h, omega arith, λ name start count s c e. cc)
scan_line-next user next n line (a ∷ []) rest h =
    (next, h, omega arith, λ name start count s c e. cc)
scan_line-next user next n line (a ∷ b ∷ []) rest h =
    (next, h, omega arith, λ name start count s c e. cc)
scan_line-next user next n line (a ∷ b ∷ c ∷ d ∷ fs) rest h =
    (next, h, omega arith, λ name start count s c e. cc)
scan_line-next user next n line (a ∷ b ∷ c ∷ []) rest h = elim (Bool-cases (text_eq a user)) [
  | inl e ↦ absurd (judge-ne-free line n (atoi c) (rw e at h))
  | inr e ↦ (advance next (atoi b) (atoi c), (rw e at h), advance-le next (atoi b) (atoi c), below)
]
  where
    below :
        (name start count : Text) (s k : ℕ)
        → a ∷ b ∷ c ∷ [] ≡ name ∷ start ∷ count ∷ []
        → atoi start ≡ some (pos s)
        → atoi count ≡ some (pos k)
        → s + k < 2 ^ 63
        → s + k ≤ advance next (atoi b) (atoi c)
    below name start count s k e p q lt =
        let p' : atoi b ≡ some (pos s) = cc in
        let q' : atoi c ≡ some (pos k) = cc in rw p' (rw q' (advance-end next s k lt))

EndsBefore-mono : (m n : ℕ) (line : Text) → m ≤ n → EndsBefore m line → EndsBefore n line
EndsBefore-mono m n line le h name start count s c e p q lt =
    omega (arith, h name start count s c e p q lt)

scan-IsAbove :
    (user : Text) (next n : ℕ) (lines : List Text)
    → scan user next lines ≡ free n
    → IsAbove next n lines
unfolding scan
scan-IsAbove user next n [] h = record { is_above = free_le h; ends = tt }
  where
    free_le : free next ≡ free n → next ≤ n
    free_le e = ground arith
scan-IsAbove user next n (line ∷ lines) h =
    let (m, h', le, ends) =
      scan_line-next user next n line (fields line) (λ k. scan user k lines) h in
    let rest : IsAbove m n lines = scan-IsAbove user m n lines h' in
    record {
      is_above = omega (arith, rest.is_above);
      ends = (EndsBefore-mono m n line rest.is_above ends, rest.ends);
    }

pub appended_free :
    (user body out : Text) (k : Scan)
    → appended user body k ≡ write out
    → (n : ℕ) × (k ≡ free n) × (out ≡ ended body ++ (new_line user n ++ 10 ∷ []))
unfolding appended
appended_free user body out adequate h = absurd (cc h)
appended_free user body out (too_small line) h = absurd (cc h)
appended_free user body out (free n) h = (n, refl, cc)

-- Where the file is written, a line is added to it that gives the user 65536 ids from a number on that is
-- at least 100000 and at least the end of every block in the file, of any user, whose end fits an int64.
pub ensure_sub_id_file_disjoint :
    (user body out : Text)
    → ensure_sub_id_file user (bytes body) ≡ write out
    → (n : ℕ) × (out ≡ ended body ++ (new_line user n ++ 10 ∷ []))
      × (sub_id_base ≤ n)
      × All (EndsBefore n) (split 10 body)
unfolding ensure_sub_id_file
ensure_sub_id_file_disjoint user body out h =
    let k : Scan = scan user sub_id_base (split 10 body) in
    let (n, e, o) = appended_free user body out k h in
    let found : IsAbove sub_id_base n (split 10 body) =
      scan-IsAbove user sub_id_base n (split 10 body) e in
    (n, o, found.is_above, found.ends)
