-- ===== src/Service/UnitNames/RoundTrip.antt =====
-- Unit names are read back as they were written, and the longest matching org wins.
use srm.Prelude.{
  ◌≤◌, ◌<◌, ◌≡◌, ◌≢◌, sym, ap, ap₂, ◌∙◌, false, none, some, List, [], ◌∷◌, ◌++◌, append_assoc,
  arith, Bool-cases, Option-cases, inl, inr, false≢true, All-mem, length, length-append, All, Memᴰ,
  Text, codes, text_eq, text_eq_iff, Lacks,
}
use native.Mathlib.Nat.{le_refl}
use srm.Prelude.Strings.{strip_prefix, trim_prefix, trim_suffix}
use srm.Prelude.Strings.Laws.{
  strip_prefix-append, strip_prefix-some, trim_prefix-append, trim_suffix-append, before-separator,
}
use srm.Prelude.Sort.{
  sort_slice-All, sort_slice-mem, sort_slice-IsSortedBy, IsStrictOrder, IsSortedBy,
}
use srm.Runner.Names.{svc_name, ephemeral_svc_name, ephemeral_unit_prefix}
use srm.Service.UnitNames.{
  split_org, parse_unit, parse_unit_name, parse_ephemeral_unit_name, longer, orgs_by_len,
}

-- Orgs without dots: only the org itself is a prefix of its unit's name.
strip_prefix-other_org :
    (o org name : Text)
    → Lacks b'.' o
    → Lacks b'.' org
    → o ≢ org
    → strip_prefix (o ++ codes ".") (org ++ b'.' ∷ name) ≡ none
strip_prefix-other_org o org name h k n =
    elim (Option-cases (strip_prefix (o ++ codes ".") (org ++ b'.' ∷ name))) [
      | inl e ↦ e
      | inr (rest, e) ↦ absurd (
          n (
            sym
              (before-separator b'.' org o name rest k h (
                strip_prefix-some (o ++ codes ".") (org ++ b'.' ∷ name) e
                ∙ append_assoc o (codes ".") rest)).0))
    ]

strip_prefix-org :
    (org name : Text) → strip_prefix (org ++ codes ".") (org ++ b'.' ∷ name) ≡ some name
strip_prefix-org org name =
    ap (strip_prefix (org ++ codes ".")) (sym (append_assoc org (codes ".") name))
    ∙ strip_prefix-append (org ++ codes ".") name

split_org_self :
    (org name : Text) (orgs : List Text)
    → Memᴰ org orgs
    → All (Lacks b'.') orgs
    → Lacks b'.' org
    → split_org (org ++ b'.' ∷ name) orgs ≡ some (org, name)
unfolding split_org
split_org_self org name [] m h k = elim m [ ]
split_org_self org name (o ∷ orgs) (Memᴰ.head e) h k =
    let p : strip_prefix (o ++ codes ".") (org ++ b'.' ∷ name) ≡ some name =
      rw (← e) (strip_prefix-org org name) in
    rw (p, split_org) (ap (λ t. some (t, name)) (sym e))
split_org_self org name (o ∷ orgs) (Memᴰ.tail m) h k = elim (Bool-cases (text_eq o org)) [
  | inl e ↦
      let same : org ≡ o = sym ((text_eq_iff o org).0 e) in
      let p : strip_prefix (o ++ codes ".") (org ++ b'.' ∷ name) ≡ some name =
        rw (← same) (strip_prefix-org org name) in
      rw (p, split_org) (ap (λ t. some (t, name)) (sym same))
  | inr e ↦
      rw
        (
          strip_prefix-other_org o org name h.0 k
              (λ p. false≢true (sym e ∙ (text_eq_iff o org).1 p)),
          split_org,
        )
        (split_org_self org name orgs m h.1 k)
]

Lacks-mem : (org : Text) (orgs : List Text) → Memᴰ org orgs → All (Lacks b'.') orgs → Lacks b'.' org
Lacks-mem org orgs m h = All-mem (Lacks b'.') orgs h m

-- What is left of a unit name between its prefix and ".service".
middle :
    (prefix org name : Text)
    → trim_suffix
        (trim_prefix (prefix ++ (org ++ (codes "." ++ (name ++ codes ".service")))) prefix)
        (codes ".service")
      ≡ org ++ b'.' ∷ name
middle prefix org name =
    ap (λ t. trim_suffix t (codes ".service"))
      (trim_prefix-append prefix (org ++ (codes "." ++ (name ++ codes ".service")))
        ∙ sym (append_assoc org (b'.' ∷ name) (codes ".service")))
    ∙ trim_suffix-append (org ++ b'.' ∷ name) (codes ".service")

text_eq-shorter : (s t : Text) → length s < length t → text_eq s t ≡ false
text_eq-shorter s t h = elim (Bool-cases (text_eq s t)) [
  | inl e ↦ let p : length s ≡ length t = ap length ((text_eq_iff s t).0 e) in absurd (omega arith)
  | inr e ↦ e
]

parse_unit_self :
    (prefix org name : Text) (orgs : List Text)
    → Memᴰ org orgs
    → All (Lacks b'.') orgs
    → parse_unit prefix (prefix ++ (org ++ (codes "." ++ (name ++ codes ".service")))) orgs
      ≡ some (org, name)
unfolding parse_unit
parse_unit_self prefix org name orgs m h =
    let svc = prefix ++ (org ++ (codes "." ++ (name ++ codes ".service"))) in
    let shorter : text_eq (org ++ b'.' ∷ name) svc ≡ false =
      text_eq-shorter (org ++ b'.' ∷ name) svc (
        omega (
          arith,
          length-append prefix (org ++ (codes "." ++ (name ++ codes ".service"))),
          length-append org (b'.' ∷ name),
          length-append org (codes "." ++ (name ++ codes ".service")),
          length-append name (codes ".service"),
        )) in
    rw (middle prefix org name)
      (rw shorter (split_org_self org name orgs m h (Lacks-mem org orgs m h)))

orgs_by_len-mem : {o : Text} (orgs : List Text) → Memᴰ o orgs → Memᴰ o (orgs_by_len orgs)
unfolding orgs_by_len
orgs_by_len-mem orgs m = sort_slice-mem longer orgs m

orgs_by_len-All {κ} : (P : Text → Type κ) (orgs : List Text) → All P orgs → All P (orgs_by_len orgs)
unfolding orgs_by_len
orgs_by_len-All P orgs h = sort_slice-All longer P orgs h

-- The name of a runner's unit is parsed back into its org and its name, whatever the name holds, if
-- the org is configured and no configured org has a dot.
pub parse_unit_name-svc_name :
    (org name : Text) (orgs : List Text)
    → Memᴰ org orgs
    → All (Lacks b'.') orgs
    → parse_unit_name (svc_name org name) (orgs_by_len orgs) ≡ some (org, name)
unfolding parse_unit_name svc_name
parse_unit_name-svc_name org name orgs m h =
    parse_unit_self (codes "actions.runner.") org name (orgs_by_len orgs) (orgs_by_len-mem orgs m)
      (orgs_by_len-All (Lacks b'.') orgs h)

-- The name of an ephemeral slot's unit is parsed back into its org and its slot, whatever the slot's text
-- holds, if the org is configured and no configured org has a dot.
pub parse_ephemeral_unit_name-ephemeral_svc_name :
    (org slot : Text) (orgs : List Text)
    → Memᴰ org orgs
    → All (Lacks b'.') orgs
    → parse_ephemeral_unit_name (ephemeral_svc_name org slot) (orgs_by_len orgs) ≡ some (org, slot)
unfolding parse_ephemeral_unit_name ephemeral_svc_name
parse_ephemeral_unit_name-ephemeral_svc_name org slot orgs m h =
    parse_unit_self ephemeral_unit_prefix org slot (orgs_by_len orgs) (orgs_by_len-mem orgs m)
      (orgs_by_len-All (Lacks b'.') orgs h)

longer-IsStrictOrder : IsStrictOrder longer
longer-IsStrictOrder = record { asym = λ x y h. ground arith; negtrans = λ x y z h k. ground arith }

split_org-head :
    (mid x r : Text) (xs : List Text)
    → strip_prefix (x ++ codes ".") mid ≡ some r
    → split_org mid (x ∷ xs) ≡ some (x, r)
unfolding split_org
split_org-head mid x r xs e = rw (e, split_org)

split_org-tail :
    (mid x : Text) (xs : List Text)
    → strip_prefix (x ++ codes ".") mid ≡ none
    → split_org mid (x ∷ xs) ≡ split_org mid xs
unfolding split_org
split_org-tail mid x xs e = rw (e, split_org)

-- In a list sorted by length the org of a parsed name is at least as long as every org that fits.
split_org-longest :
    (mid : Text) (orgs : List Text) (o rest : Text) {o' : Text}
    → IsSortedBy longer orgs
    → split_org mid orgs ≡ some (o, rest)
    → Memᴰ o' orgs
    → strip_prefix (o' ++ codes ".") mid ≢ none
    → (length o' ≤ length o) × (mid ≡ o ++ b'.' ∷ rest)
split_org-longest mid [] o rest s h m n = elim m [ ]
split_org-longest mid (x ∷ xs) o rest {o'} s h m n =
    elim (Option-cases (strip_prefix (x ++ codes ".") mid)) [
      | inl e ↦
          split_org-longest mid xs o rest s.1 (sym (split_org-tail mid x xs e) ∙ h) (others e m) n
      | inr (r, e) ↦
          let same : x ≡ o = cc (split_org-head mid x r xs e) in
          let rest_same : r ≡ rest = cc (split_org-head mid x r xs e) in
          (
            rw (← same) (no_longer m),
            strip_prefix-some (x ++ codes ".") mid e
                ∙ append_assoc x (codes ".") r
                ∙ ap₂ (λ a b. a ++ b'.' ∷ b) same rest_same,
          )
    ]
  where
    others : strip_prefix (x ++ codes ".") mid ≡ none → Memᴰ o' (x ∷ xs) → Memᴰ o' xs
    others e (Memᴰ.head p) = absurd (n (ap (λ t. strip_prefix (t ++ codes ".") mid) p ∙ e))
    others e (Memᴰ.tail m') = m'

    no_longer : Memᴰ o' (x ∷ xs) → length o' ≤ length x
    no_longer (Memᴰ.head p) = rw p (le_refl (length x))
    no_longer (Memᴰ.tail m') =
        let l : longer o' x ≡ false = All-mem (λ y. longer y x ≡ false) xs s.0 m' in ground arith

-- Of the configured orgs that fit a unit name, dots or not, the longest is taken, and its name and
-- the runner's make up the name again.
split_org-orgs_by_len :
    (mid : Text) (orgs : List Text) (o rest : Text) (o' : Text)
    → split_org mid (orgs_by_len orgs) ≡ some (o, rest)
    → Memᴰ o' orgs
    → strip_prefix (o' ++ codes ".") mid ≢ none
    → (length o' ≤ length o) × (mid ≡ o ++ b'.' ∷ rest)
unfolding orgs_by_len
split_org-orgs_by_len mid orgs o rest o' h m n =
    split_org-longest mid (orgs_by_len orgs) o rest
      (sort_slice-IsSortedBy longer longer-IsStrictOrder orgs) h (orgs_by_len-mem orgs m) n
