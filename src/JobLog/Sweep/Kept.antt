-- ===== src/JobLog/Sweep/Kept.antt =====
-- Which runs are left after Prune.
use mathlib.Core.Path.{subst}
use mathlib.Core.List.{Perm}
use mathlib.Core.List.Perm
use srm.Prelude.{
  ◌≡◌, refl, sym, ap, ◌∙◌, Bool, true, false, not, some, List, [], ◌∷◌, ◌++◌, length, keep, any_of,
  if◌then◌else◌, arith, All, All-mem, Memᴰ, Bool-cases, inl, inr, false≢true, Text, codes, text_eq,
  text_eq_iff, text_eq_refl,
}
use srm.Prelude.Int.{ℤ, ltb_ℤ}
use srm.Prelude.Strings.{has_suffix}
use srm.Prelude.Sort.{
  sort_slice, sort_slice-mem, sort_slice-All, IsStrictOrder, IsSortedBy, sort_slice-IsSortedBy,
}
use srm.Prelude.Sort.Keep.{keep-sort_slice}
use srm.JobLog.{
  Meta, sort_key, log_path, meta_path, Files, remove, Json, present, walk, walk_file, newer,
  list_runs, Swept, is_old, prune_loop, pruned, prune,
}
use srm.JobLog.Paths.{log_path-no_sidecar, meta_path-sidecar}
use srm.JobLog.Sweep.{remove_all, old_paths, prune_loop-files, prune_loop-entries}

abbrev is_gone : List Text → Text → Bool
is_gone paths p = any_of (text_eq p) paths

remove_all-nil : (paths : List Text) → remove_all paths [] ≡ []
unfolding remove_all remove
remove_all-nil [] = refl
remove_all-nil (path ∷ paths) = remove_all-nil paths

remove_all-cons :
    (paths : List Text) (p bytes : Text) (files : Files)
    → remove_all paths ((p, bytes) ∷ files)
      ≡ (if is_gone paths p then remove_all paths files else (p, bytes) ∷ remove_all paths files)
unfolding remove_all remove any_of
remove_all-cons [] p bytes files = refl
remove_all-cons (path ∷ paths) p bytes files = elim (Bool-cases (text_eq p path)) [
  | inl e ↦ rw e refl
  | inr e ↦ rw e (remove_all-cons paths p bytes (remove path files))
]

module _ {ℓ} {A : Type ℓ} (p : A → Bool) where
  keep-append : (xs ys : List A) → keep p (xs ++ ys) ≡ keep p xs ++ keep p ys
  unfolding keep
  keep-append [] ys = refl
  keep-append (x ∷ xs) ys = elim (Bool-cases (p x)) [
    | inl e ↦ rw e (ap (λ zs. x ∷ zs) (keep-append xs ys))
    | inr e ↦ rw e (keep-append xs ys)
  ]

  -- A list whose elements all pass the test, or all fail it
  keep-constant :
      (b : Bool) (xs : List A) → All (λ x. p x ≡ b) xs → keep p xs ≡ (if b then xs else [])
  unfolding keep
  keep-constant true [] h = refl
  keep-constant false [] h = refl
  keep-constant true (x ∷ xs) h = rw (h.0, keep-constant true xs h.1) refl
  keep-constant false (x ∷ xs) h = rw h.0 (keep-constant false xs h.1)

All-intro : {A : Type 0} (P : A → Type 0) (xs : List A) → ((a : A) → Memᴰ a xs → P a) → All P xs
All-intro P [] h = tt
All-intro P (x ∷ xs) h = (h x (Memᴰ.head refl), All-intro P xs (λ a m. h a (Memᴰ.tail m)))

-- What a sidecar's path tells, and that no two runs share one
pub record IsStore (json : Json) (readable : Text → Bool) (root : Text) (files : Files)
    : Type 0 where
  pub placed : All (λ f. All (λ m. f.0 ≡ meta_path root m) (walk_file json readable f.0 f.1)) files
  pub one_run :
      (m m' : Meta)
      → Memᴰ m (walk json readable files)
      → Memᴰ m' (walk json readable files)
      → meta_path root m ≡ meta_path root m'
      → m ≡ m'

module _ (root : Text) (cut : ℤ) where
  abbrev is_kept : Meta → Bool
  is_kept m = not (is_old cut m)

  gone_old :
      (runs : List Meta) (m : Meta)
      → is_old cut m ≡ true
      → Memᴰ m runs
      → is_gone (old_paths root cut runs) (meta_path root m) ≡ true
  unfolding old_paths any_of
  gone_old [] m o i = elim i [ ]
  gone_old (r ∷ runs) m o (Memᴰ.head e) =
      rw (← e) (rw o (ground (arith, text_eq_refl (meta_path root m))))
  gone_old (r ∷ runs) m o (Memᴰ.tail i) = elim (Bool-cases (is_old cut r)) [
    | inl e ↦ rw e (ground (arith, gone_old runs m o i))
    | inr e ↦ rw e (gone_old runs m o i)
  ]

  not_log : (m r : Meta) → text_eq (meta_path root m) (log_path root r) ≡ false
  not_log m r = elim (Bool-cases (text_eq (meta_path root m) (log_path root r))) [
    | inl e ↦
        let same = (text_eq_iff (meta_path root m) (log_path root r)).0 e in
        absurd (
          false≢true (
            sym (log_path-no_sidecar root r)
            ∙ ap (λ t. has_suffix t (codes ".json")) (sym same)
            ∙ meta_path-sidecar root m))
    | inr e ↦ e
  ]

  not_sidecar :
      (m r : Meta)
      → is_old cut m ≡ false
      → is_old cut r ≡ true
      → (meta_path root m ≡ meta_path root r → m ≡ r)
      → text_eq (meta_path root m) (meta_path root r) ≡ false
  not_sidecar m r young old one =
      elim (Bool-cases (text_eq (meta_path root m) (meta_path root r))) [
        | inl e ↦
            let same = one ((text_eq_iff (meta_path root m) (meta_path root r)).0 e) in
            absurd (false≢true (sym young ∙ ap (is_old cut) same ∙ old))
        | inr e ↦ e
      ]

  kept_young :
      (runs : List Meta) (m : Meta)
      → is_old cut m ≡ false
      → All (λ r. meta_path root m ≡ meta_path root r → m ≡ r) runs
      → is_gone (old_paths root cut runs) (meta_path root m) ≡ false
  unfolding old_paths any_of
  kept_young [] m o h = refl
  kept_young (r ∷ runs) m o h = elim (Bool-cases (is_old cut r)) [
    | inl e ↦ rw e (ground (arith, not_log m r, not_sidecar m r o e h.0, kept_young runs m o h.1))
    | inr e ↦ rw e (kept_young runs m o h.1)
  ]

  -- The paths that are gone are those of the old runs.
  gone_iff_old :
      (runs : List Meta)
      → ((m m' : Meta) → Memᴰ m runs → Memᴰ m' runs → meta_path root m ≡ meta_path root m' → m ≡ m')
      → (m : Meta) → Memᴰ m runs
      → is_gone (old_paths root cut runs) (meta_path root m) ≡ is_old cut m
  gone_iff_old runs one m i = elim (Bool-cases (is_old cut m)) [
    | inl e ↦ gone_old runs m e i ∙ sym e
    | inr e ↦
        kept_young runs m e
          (All-intro (λ r. meta_path root m ≡ meta_path root r → m ≡ r) runs (λ r j. one m r i j))
        ∙ sym e
  ]

module _ (root : Text) (cut : ℤ) (json : Json) (readable : Text → Bool) (paths : List Text) where
  abbrev Agrees : Meta → Type 0
  Agrees m = is_gone paths (meta_path root m) ≡ is_old cut m

  one_file :
      (p bytes : Text) (ms : List Meta)
      → All (λ m. p ≡ meta_path root m) ms
      → All Agrees ms
      → All (λ m. is_kept root cut m ≡ not (is_gone paths p)) ms
  one_file p bytes [] h k = tt
  one_file p bytes (m ∷ ms) h k =
      (ap not (sym (ap (is_gone paths) h.0 ∙ k.0)), one_file p bytes ms h.1 k.1)

  All-left : (xs ys : List Meta) → All Agrees (xs ++ ys) → All Agrees xs × All Agrees ys
  All-left [] ys h = (tt, h)
  All-left (x ∷ xs) ys h = let (l, r) = All-left xs ys h.1 in ((h.0, l), r)

  walk-remove_all :
      (files : Files)
      → All (λ f. All (λ m. f.0 ≡ meta_path root m) (walk_file json readable f.0 f.1)) files
      → All Agrees (walk json readable files)
      → walk json readable (remove_all paths files)
        ≡ keep (is_kept root cut) (walk json readable files)
  unfolding walk
  walk-remove_all [] h k = rw (remove_all-nil paths) (unfold keep in refl)
  walk-remove_all ((p, bytes) ∷ files) h k =
      let (here, rest) = All-left (walk_file json readable p bytes) (walk json readable files) k in
      let same =
        keep-constant (is_kept root cut) (not (is_gone paths p)) (walk_file json readable p bytes)
          (one_file p bytes (walk_file json readable p bytes) h.0 here) in
      rw
        (
          remove_all-cons paths p bytes files,
          keep-append (is_kept root cut) (walk_file json readable p bytes)
              (walk json readable files),
          same,
          ← walk-remove_all files h.1 rest,
        )
        (elim (Bool-cases (is_gone paths p)) [ inl e ↦ rw e refl | inr e ↦ rw e refl ])

newer-IsStrictOrder : IsStrictOrder newer
newer-IsStrictOrder = record {
  asym = λ a b h. newer_asym (sort_key a) (sort_key b) h;
  negtrans = λ a b c h k. newer_negtrans (sort_key a) (sort_key b) (sort_key c) h k;
}
  where
    newer_asym : (x y : ℤ) → ltb_ℤ y x ≡ true → ltb_ℤ x y ≡ false
    newer_asym x y h = ground arith

    newer_negtrans : (x y z : ℤ) → ltb_ℤ x y ≡ false → ltb_ℤ y z ≡ false → ltb_ℤ x z ≡ false
    newer_negtrans x y z h k = ground arith

module _ (json : Json) (readable removes : Text → Bool) (root : Text) (cut : ℤ)
    (files : Files) where
  runs_of : List Meta
  runs_of = sort_slice newer (walk json readable files)

  swept : Swept
  swept =
      prune_loop removes root cut false (record { entries = 0; bytes = 0; files = files }) runs_of

  swept-list :
      IsStore json readable root files
      → ((path : Text) → removes path ≡ true)
      → sort_slice newer (walk json readable swept.files) ≡ keep (is_kept root cut) runs_of
  unfolding swept runs_of
  swept-list h ok =
      let listed : (m : Meta) → Memᴰ m (walk json readable files) → Memᴰ m runs_of =
        λ m i. sort_slice-mem newer (walk json readable files) i in
      let agrees =
        All-intro (Agrees root cut json readable (old_paths root cut runs_of))
          (walk json readable files)
          (λ m i. gone_iff_old root cut runs_of (sorted_one h) m (listed m i)) in
      ap (λ fs. sort_slice newer (walk json readable fs))
        (prune_loop-files root cut removes (record { entries = 0; bytes = 0; files = files })
          runs_of ok)
      ∙ ap (sort_slice newer) (
          walk-remove_all root cut json readable (old_paths root cut runs_of) files h.placed agrees)
      ∙ sym
          (keep-sort_slice newer newer-IsStrictOrder (is_kept root cut) (walk json readable files))
    where
      from_sorted : (m : Meta) → Memᴰ m runs_of → Memᴰ m (walk json readable files)
      from_sorted m i =
          All-mem (λ a. Memᴰ a (walk json readable files)) runs_of
            (sort_slice-All newer (λ a. Memᴰ a (walk json readable files))
              (walk json readable files)
              (All-intro (λ a. Memᴰ a (walk json readable files)) (walk json readable files)
                (λ a j. j)))
            i

      sorted_one :
          IsStore json readable root files
          → (m m' : Meta) → Memᴰ m runs_of
          → Memᴰ m' runs_of
          → meta_path root m ≡ meta_path root m'
          → m ≡ m'
      sorted_one h m m' i j e = h.one_run m m' (from_sorted m i) (from_sorted m' j) e

-- In a store where each sidecar lies at the path of its run and no two runs share one, if no removal fails:
-- the runs that are listed after a Prune that is no dry run are, in some order, those listed before that
-- are not older than the cutoff, none of them older than one behind it, and Prune counts the others.
pub list_runs-prune :
    (json : Json) (readable removes : Text → Bool) (root : Text) (cut : ℤ) (files : Files)
    (runs : List Meta) (s : Swept)
    → IsStore json readable root files
    → ((path : Text) → removes path ≡ true)
    → list_runs json readable present files ≡ some runs
    → prune json readable removes present root cut false files ≡ some s
    → ((left : List Meta) × (list_runs json readable present s.files ≡ some left)
        × Perm left (keep (λ m. not (ltb_ℤ (sort_key m) cut)) runs)
        × IsSortedBy newer left)
      × (s.entries ≡ length (keep (λ m. ltb_ℤ (sort_key m) cut) runs))
unfolding list_runs prune pruned swept runs_of
list_runs-prune json readable removes root cut files runs s h ok l p =
    let zero_swept : Swept = record { entries = 0; bytes = 0; files = files } in
    let same_runs : runs_of json readable removes root cut files ≡ runs = ground (arith, l) in
    let same_swept : swept json readable removes root cut files ≡ s = ground (arith, p) in
    let left : List Meta = sort_slice newer (walk json readable s.files) in
    let same_left : left ≡ keep (is_kept root cut) runs =
      ap (λ t. sort_slice newer (walk json readable t.files)) (sym same_swept)
      ∙ swept-list json readable removes root cut files h ok
      ∙ ap (λ rs. keep (is_kept root cut) rs) same_runs in
    (
      (
        left,
        refl,
        subst (λ rs. Perm left rs) same_left (Perm.refl left),
        sort_slice-IsSortedBy newer newer-IsStrictOrder (walk json readable s.files),
      ),
      ap (λ t. t.entries) (sym same_swept)
          ∙ prune_loop-entries removes root cut false zero_swept
              (runs_of json readable removes root cut files)
          ∙ omega (arith)
          ∙ ap (λ rs. length (keep (is_old cut) rs)) same_runs,
    )
