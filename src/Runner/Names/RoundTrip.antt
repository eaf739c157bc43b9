-- ===== src/Runner/Names/RoundTrip.antt =====
-- The name minted for a job leads back to the slot that minted it.
use srm.Prelude.{
  ℕ, ◌≡◌, ◌≢◌, refl, sym, ap, ◌∙◌, true, false, some, [], ◌∷◌, ◌++◌, append_assoc, arith,
  Bool-cases, inl, inr, length, length-append, Text, codes, text_eq, text_eq_iff, Lacks,
}
use srm.Prelude.Strings.Laws.{trim_prefix-append, has_prefix-append, cut_at-append}
use srm.Runner.Names.{
  ephemeral_name_prefix, ephemeral_runner_name, is_ephemeral_runner_name, before_dash,
  ephemeral_slot_from_name,
}

ephemeral_runner_name_lem :
    (org slot token : Text)
    → ephemeral_runner_name org slot token
      ≡ (ephemeral_name_prefix ++ (org ++ codes "-")) ++ (slot ++ b'-' ∷ token)
unfolding ephemeral_runner_name
ephemeral_runner_name_lem org slot token =
    ap (λ t. ephemeral_name_prefix ++ t) (sym (append_assoc org (codes "-") (slot ++ b'-' ∷ token)))

text_eq-behind : (c : ℕ) (p s : Text) → text_eq s ((c ∷ p) ++ s) ≡ false
text_eq-behind c p s = elim (Bool-cases (text_eq s ((c ∷ p) ++ s))) [
  | inl e ↦
      let n : length s ≡ length ((c ∷ p) ++ s) = ap length ((text_eq_iff s ((c ∷ p) ++ s)).0 e) in
      absurd (omega (arith, length-append (c ∷ p) s))
  | inr e ↦ e
]

before_dash_lem : (slot token : Text) → slot ≢ [] → before_dash (some (slot, token)) ≡ some slot
before_dash_lem [] token h = absurd (h refl)
before_dash_lem (c ∷ slot) token h = refl

slot_of :
    (org slot token : Text)
    → slot ≢ []
    → Lacks b'-' slot
    → ephemeral_slot_from_name
        ((ephemeral_name_prefix ++ (org ++ codes "-")) ++ (slot ++ b'-' ∷ token))
        org
      ≡ some slot
unfolding ephemeral_slot_from_name
slot_of org slot token n h =
    rw (trim_prefix-append (ephemeral_name_prefix ++ (org ++ codes "-")) (slot ++ b'-' ∷ token)) (
      rw (text_eq-behind b's' _ (slot ++ b'-' ∷ token))
        (rw (cut_at-append b'-' slot token h) (before_dash_lem slot token n)))

-- A minted name is recognised as ephemeral, and its slot is read back from it, whatever the org and
-- the token are, if the slot is not empty and has no dash.
pub slot_from_name-ephemeral_runner_name :
    (org slot token : Text)
    → slot ≢ []
    → Lacks b'-' slot
    → (is_ephemeral_runner_name (ephemeral_runner_name org slot token) ≡ true)
      × (ephemeral_slot_from_name (ephemeral_runner_name org slot token) org ≡ some slot)
unfolding is_ephemeral_runner_name
slot_from_name-ephemeral_runner_name org slot token n h = (
  unfold ephemeral_runner_name in
      has_prefix-append ephemeral_name_prefix
        (org ++ (codes "-" ++ (slot ++ (codes "-" ++ token)))),
  ap (λ t. ephemeral_slot_from_name t org) (ephemeral_runner_name_lem org slot token)
      ∙ slot_of org slot token n h,
)
