-- ===== src/JobLog/Sweep.antt =====
-- What Prune removes and counts.
pub mod Kept
use srm.Prelude.{
  ℕ, suc, ◌+◌, ◌≡◌, ◌≢◌, refl, sym, ap, ◌∙◌, Bool, true, false, ◌||◌, ◌&&◌, not, Option, none, some,
  List, [], ◌∷◌, ◌++◌, length, keep, any_of, if◌then◌else◌, arith, All, All-mem, Memᴰ, Bool-cases,
  Option-cases, inl, inr, false≢true, Text, codes, text_eq, text_eq_iff, text_eq_refl,
}
use srm.Prelude.Int.{ℤ, pos, negsuc, ltb_ℤ, eqb_ℤ}
use srm.Prelude.Strings.{has_suffix}
use srm.Prelude.Sort.{sort_slice, sort_slice-mem, IsStrictOrder}
use srm.Prelude.Sort.Keep.{keep-sort_slice}
use srm.JobLog.{
  Meta, sort_key, log_path, meta_path, Files, remove, try_remove, Json, RootStat, present, missing,
  denied, walk, newer, list_runs, Swept, is_old, prune_step, prune_loop, pruned, prune,
}
use srm.JobLog.Paths.{log_path-no_sidecar}

module _ (removes : Text → Bool) (root : Text) (cut : ℤ) (dry_run : Bool) (s : Swept)
    (m : Meta) where
  prune_step-entries :
      (prune_step removes root cut dry_run s m).entries
      ≡ (if is_old cut m then suc s.entries else s.entries)
  unfolding prune_step
  prune_step-entries = ground arith

  prune_step-files : (prune_step removes root cut dry_run s m).files ≡ (
      if is_old cut m && not dry_run
      then try_remove removes (meta_path root m) (try_remove removes (log_path root m) s.files)
      else s.files)
  unfolding prune_step
  prune_step-files = ground arith

pub prune_loop-entries :
    (removes : Text → Bool) (root : Text) (cut : ℤ) (dry_run : Bool) (s : Swept) (runs : List Meta)
    → (prune_loop removes root cut dry_run s runs).entries
      ≡ s.entries + length (keep (is_old cut) runs)
unfolding prune_loop keep
prune_loop-entries removes root cut dry_run s [] = omega arith
prune_loop-entries removes root cut dry_run s (m ∷ runs) =
    prune_loop-entries removes root cut dry_run (prune_step removes root cut dry_run s m) runs
    ∙ rw (prune_step-entries removes root cut dry_run s m)
        (elim (Bool-cases (is_old cut m)) [ inl e ↦ rw e (omega arith) | inr e ↦ rw e refl ])

pub prune_loop-dry :
    (removes : Text → Bool) (root : Text) (cut : ℤ) (s : Swept) (runs : List Meta)
    → (prune_loop removes root cut true s runs).files ≡ s.files
unfolding prune_loop
prune_loop-dry removes root cut s [] = refl
prune_loop-dry removes root cut s (m ∷ runs) =
    prune_loop-dry removes root cut (prune_step removes root cut true s m) runs
    ∙ prune_step-files removes root cut true s m
    ∙ ground arith

-- Files without those at some paths
pub remove_all : List Text → Files → Files
remove_all [] files = files
remove_all (path ∷ paths) files = remove_all paths (remove path files)

module _ (root : Text) (cut : ℤ) where
  -- The paths that the loop removes
  pub old_paths : List Meta → List Text
  old_paths [] = []
  old_paths (m ∷ runs) =
      let rest = old_paths runs in
      if is_old cut m then log_path root m ∷ meta_path root m ∷ rest else rest

  pub prune_loop-files :
      (removes : Text → Bool) (s : Swept) (runs : List Meta)
      → ((path : Text) → removes path ≡ true)
      → (prune_loop removes root cut false s runs).files ≡ remove_all (old_paths runs) s.files
  unfolding prune_loop remove_all old_paths
  prune_loop-files removes s [] ok = refl
  prune_loop-files removes s (m ∷ runs) ok =
      prune_loop-files removes (prune_step removes root cut false s m) runs ok
      ∙ rw (prune_step-files removes root cut false s m) (elim (Bool-cases (is_old cut m)) [
        | inl e ↦ rw (e, ok (log_path root m), ok (meta_path root m)) refl
        | inr e ↦ rw e refl
      ])

-- A dry run of Prune removes nothing, and counts as many runs as a Prune of the same store that is no dry run.
prune-dry :
    (json : Json) (readable : Text → Bool) (removes : Text → Bool) (stat : RootStat) (root : Text)
    (cut : ℤ) (files : Files) (s s' : Swept)
    → prune json readable removes stat root cut true files ≡ some s
    → prune json readable removes stat root cut false files ≡ some s'
    → (s.files ≡ files) × (s.entries ≡ s'.entries)
unfolding prune pruned
prune-dry json readable removes stat root cut files s s' h h' =
    elim (Option-cases (list_runs json readable stat files)) [
      | inl e ↦ absurd (ground (arith, h, e))
      | inr (runs, e) ↦
          let zero_swept : Swept = record { entries = 0; bytes = 0; files = files } in
          let dry : prune_loop removes root cut true zero_swept runs ≡ s = ground (arith, h, e) in
          let wet : prune_loop removes root cut false zero_swept runs ≡ s' =
            ground (arith, h', e) in
          (
            ap (λ t. t.files) (sym dry) ∙ prune_loop-dry removes root cut zero_swept runs,
            ap (λ t. t.entries) (sym dry)
                ∙ prune_loop-entries removes root cut true zero_swept runs
                ∙ sym (prune_loop-entries removes root cut false zero_swept runs)
                ∙ ap (λ t. t.entries) wet,
          )
    ]
