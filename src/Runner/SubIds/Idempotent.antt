-- ===== src/Runner/SubIds/Idempotent.antt =====
-- The file that was written, read again.
use srm.Prelude.{
  ℕ, ◌≡◌, ◌⊎◌, refl, ap, ◌∙◌, false, List, [], ◌∷◌, ◌++◌, append_assoc, reverse-append, All,
  All-append, arith, Bool-cases, ==_iff, inl, inr, Text, codes, text_eq, text_eq_refl, ◌==◌,
  if◌then◌else◌, Lacks,
}
use srm.Prelude.Decimal.{decimal}
use srm.Prelude.Strings.{has_suffix}
use srm.Runner.Versions.{split, atoi}
use srm.Runner.Versions.Splits.{split-Lacks, split-append, split-cut}
use srm.Runner.Versions.Numbers.{IsDigit, decimal-IsDigit}
use srm.Runner.Units.Marker.{trim_space}
use srm.Runner.Units.Trim.{IsVisible, digits-IsVisible, trim_space_self}
use srm.Runner.SubIds.Ranges.{judge-ne-free, appended_free}
use srm.Runner.SubIds.{
  Scan, adequate, free, scan_line, scan, fields, sub_id_base, appended, advance, write, bytes,
  ended, new_line, ensure_sub_id_file, unchanged,
}

-- A line is passed by whatever follows it.
scan_line-rest :
    (user : Text) (next n : ℕ) (line : Text) (fs : List Text) (rest rest' : ℕ → Scan) (z : Scan)
    → ((m : ℕ) → rest m ≡ free n → rest' m ≡ z)
    → scan_line user next line fs rest ≡ free n
    → scan_line user next line fs rest' ≡ z
unfolding scan_line
scan_line-rest user next n line [] rest rest' z k h = k next h
scan_line-rest user next n line (a ∷ []) rest rest' z k h = k next h
scan_line-rest user next n line (a ∷ b ∷ []) rest rest' z k h = k next h
scan_line-rest user next n line (a ∷ b ∷ c ∷ d ∷ fs) rest rest' z k h = k next h
scan_line-rest user next n line (a ∷ b ∷ c ∷ []) rest rest' z k h =
    elim (Bool-cases (text_eq a user)) [
      | inl e ↦ absurd (judge-ne-free line n (atoi c) (rw e at h))
      | inr e ↦ rw e (k (advance next (atoi b) (atoi c)) (rw e at h))
    ]

scan-append :
    (user : Text) (next n : ℕ) (xs ys : List Text)
    → scan user next xs ≡ free n
    → scan user next (xs ++ ys) ≡ scan user n ys
unfolding scan
scan-append user next n [] ys h = ap (λ k. scan user k ys) (free_inj h)
  where
    free_inj : free next ≡ free n → next ≡ n
    free_inj e = cc
scan-append user next n (x ∷ xs) ys h =
    scan_line-rest user next n x (fields x) (λ k. scan user k xs) (λ k. scan user k (xs ++ ys))
      (scan user n ys) (λ m e. scan-append user m n xs ys e) h

-- The empty line at the end is passed by.
scan_last :
    (user : Text) (next n : ℕ) (xs : List Text)
    → scan user next (xs ++ [] ∷ []) ≡ free n
    → scan user next xs ≡ free n
unfolding scan trim_space split
scan_last user next n [] h = h
scan_last user next n (x ∷ xs) h =
    scan_line-rest user next n x (fields x) (λ k. scan user k (xs ++ [] ∷ [])) (λ k. scan user k xs)
      (free n) (λ m e. scan_last user m n xs e) h

-- A user's name, of characters that are not white space and no colon
abbrev pub IsUserName : Text → Type 0
IsUserName user = All IsVisible user × Lacks b':' user

visible-Lacks_newline : (s : Text) → All IsVisible s → Lacks 10 s
visible-Lacks_newline [] h = tt
visible-Lacks_newline (c ∷ s) h = (ground (arith, h.0), visible-Lacks_newline s h.1)

digits-Lacks_colon : (s : Text) → All IsDigit s → Lacks b':' s
digits-Lacks_colon [] h = tt
digits-Lacks_colon (c ∷ s) h = (ground (arith, h.0), digits-Lacks_colon s h.1)

new_line-IsVisible : (user : Text) (n : ℕ) → IsUserName user → All IsVisible (new_line user n)
new_line-IsVisible user n h = All-append IsVisible user _ h.0 (
  refl,
  All-append IsVisible (decimal n) _ (digits-IsVisible (decimal n) (decimal-IsDigit n))
      (refl, (refl, (refl, (refl, (refl, (refl, tt)))))),
)

fields-new_line :
    (user : Text) (n : ℕ)
    → IsUserName user
    → fields (new_line user n) ≡ user ∷ decimal n ∷ codes "65536" ∷ []
fields-new_line user n h =
    ap (split b':') (trim_space_self (new_line user n) (new_line-IsVisible user n h))
    ∙ (split-cut b':' user (decimal n ++ codes ":65536") h.1
        ∙ ap (◌∷◌ user) (
            split-cut b':' (decimal n) (codes "65536")
              (digits-Lacks_colon (decimal n) (decimal-IsDigit n))
            ∙ ap (◌∷◌ (decimal n)) (split-Lacks b':' (codes "65536") (omega arith))))

scan-new_line :
    (user : Text) (n m : ℕ) → IsUserName user → scan user m (new_line user n ∷ [] ∷ []) ≡ adequate
unfolding scan scan_line atoi
scan-new_line user n m h = rw (fields-new_line user n h) (rw (text_eq_refl user) refl)

-- The lines of the file that was written: those of the old one, the new one, and an empty one
record IsWritten (user : Text) (n : ℕ) (body : Text) : Type 0 where
  before : List Text
  is_split :
      split 10 (ended body ++ (new_line user n ++ 10 ∷ [])) ≡ before ++ new_line user n ∷ [] ∷ []
  is_passed : scan user sub_id_base before ≡ free n

split_written :
    (user b : Text) (n : ℕ)
    → IsUserName user
    → split 10 ((b ++ 10 ∷ []) ++ (new_line user n ++ 10 ∷ []))
      ≡ split 10 b ++ new_line user n ∷ [] ∷ []
unfolding split
split_written user b n h =
    ap (split 10) (append_assoc b (10 ∷ []) (new_line user n ++ 10 ∷ []))
    ∙ (split-append 10 b (new_line user n ++ 10 ∷ [])
        ∙ ap (λ ps. split 10 b ++ ps)
            (split-cut 10 (new_line user n) []
              (visible-Lacks_newline (new_line user n) (new_line-IsVisible user n h))))

-- A text is empty, or has a last character.
last_of : (s : Text) → (s ≡ []) ⊎ ((b : Text) × (c : ℕ) × (s ≡ b ++ c ∷ []))
last_of [] = inl refl
last_of (c ∷ s) = elim (last_of s) [
  | inl e ↦ inr ([], c, ap (◌∷◌ c) e)
  | inr (b, d, e) ↦ inr (c ∷ b, d, ap (◌∷◌ c) e)
]

has_suffix-last : (b : Text) (c : ℕ) → has_suffix (b ++ c ∷ []) (10 ∷ []) ≡ (c == 10)
unfolding has_suffix
has_suffix-last b c = rw (reverse-append b (c ∷ [])) (ground arith)

text_eq-last : (b : Text) (c : ℕ) → text_eq (b ++ c ∷ []) [] ≡ false
unfolding text_eq
text_eq-last [] c = refl
text_eq-last (d ∷ b) c = refl

ended-last :
    (b : Text) (c : ℕ)
    → ended (b ++ c ∷ []) ≡ (if c == 10 then b ++ c ∷ [] else (b ++ c ∷ []) ++ 10 ∷ [])
ended-last b c = rw (text_eq-last b c) (rw (has_suffix-last b c) (ground arith))

IsWritten-nil :
    (user : Text) (n : ℕ)
    → IsUserName user
    → scan user sub_id_base (split 10 []) ≡ free n
    → IsWritten user n []
unfolding split text_eq
IsWritten-nil user n h e = record {
  before = [];
  is_split =
      split-cut 10 (new_line user n) []
        (visible-Lacks_newline (new_line user n) (new_line-IsVisible user n h));
  is_passed = scan_last user sub_id_base n [] e;
}

IsWritten-newline :
    (user b : Text) (n : ℕ)
    → IsUserName user
    → scan user sub_id_base (split 10 (b ++ 10 ∷ [])) ≡ free n
    → IsWritten user n (b ++ 10 ∷ [])
unfolding split
IsWritten-newline user b n h e = record {
  before = split 10 b;
  is_split =
      ap (λ (t : Text). split 10 (t ++ (new_line user n ++ 10 ∷ []))) (ended-last b 10)
      ∙ split_written user b n h;
  is_passed = scan_last user sub_id_base n (split 10 b) (rw (split-append 10 b []) at e);
}

IsWritten-other :
    (user b : Text) (c n : ℕ)
    → IsUserName user
    → (c == 10) ≡ false
    → scan user sub_id_base (split 10 (b ++ c ∷ [])) ≡ free n
    → IsWritten user n (b ++ c ∷ [])
IsWritten-other user b c n h k e = record {
  before = split 10 (b ++ c ∷ []);
  is_split =
      ap (λ (t : Text). split 10 (t ++ (new_line user n ++ 10 ∷ [])))
        (ended-last b c ∙ ap (λ t. if t then b ++ c ∷ [] else (b ++ c ∷ []) ++ 10 ∷ []) k)
      ∙ split_written user (b ++ c ∷ []) n h;
  is_passed = e;
}

written :
    (user body : Text) (n : ℕ)
    → IsUserName user
    → scan user sub_id_base (split 10 body) ≡ free n
    → IsWritten user n body
written user body n h e = elim (last_of body) [
  | inl p ↦ rw p (IsWritten-nil user n h (rw p at e))
  | inr (b, c, p) ↦ elim (Bool-cases (c == 10)) [
    | inl k ↦
        let q : body ≡ b ++ 10 ∷ [] = p ∙ ap (λ (d : ℕ). b ++ d ∷ []) ((==_iff c 10).0 k) in
        rw q (IsWritten-newline user b n h (rw q at e))
    | inr k ↦ rw p (IsWritten-other user b c n h k (rw p at e))
  ]
]

-- A file that was written is left as it is when the same user's block is ensured again, if the user's
-- name has neither white space nor a colon.
pub ensure_sub_id_file_idem :
    (user body out : Text)
    → IsUserName user
    → ensure_sub_id_file user (bytes body) ≡ write out
    → ensure_sub_id_file user (bytes out) ≡ unchanged
unfolding ensure_sub_id_file
ensure_sub_id_file_idem user body out h e =
    let (n, f, o) = appended_free user body out (scan user sub_id_base (split 10 body)) e in
    let w : IsWritten user n body = written user body n h f in
    rw o (
      rw (w.is_split) (
        ap (appended user _) (
          scan-append user sub_id_base n w.before (new_line user n ∷ [] ∷ []) w.is_passed
          ∙ scan-new_line user n n h)))
