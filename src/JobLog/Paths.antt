-- ===== src/JobLog/Paths.antt =====
-- The paths of the store.
use srm.Prelude.{
  ℕ, ◌≡◌, ◌≢◌, refl, true, false, ◌||◌, [], ◌∷◌, ◌++◌, reverse-append, arith, Lacks, Bool-cases,
  inl, inr, Text, codes, text_eq, text_eq_iff,
}
use srm.Prelude.Strings.{has_prefix, has_suffix}
use srm.JobLog.{Meta, sanitize, replace_all, slot_dir, id_base, log_path, meta_path}

-- One component of a path, which does not lead out of its directory
pub record IsComponent (s : Text) : Type 0 where
  pub not_empty : s ≢ []
  pub not_here : s ≢ codes "."
  pub not_up : s ≢ codes ".."
  pub no_slash : Lacks b'/' s
  pub no_backslash : Lacks 92 s

replace_all-Lacks :
    (c old new : ℕ) (s : Text) → new ≢ c → Lacks c s → Lacks c (replace_all old new s)
replace_all-Lacks c old new [] n h = tt
replace_all-Lacks c old new (d ∷ s) n h =
    (ground (arith, n, h.0), replace_all-Lacks c old new s n h.1)

replace_all-Lacks_old : (old new : ℕ) (s : Text) → new ≢ old → Lacks old (replace_all old new s)
replace_all-Lacks_old old new [] n = tt
replace_all-Lacks_old old new (d ∷ s) n = (ground (arith, n), replace_all-Lacks_old old new s n)

abbrev replaced : Text → Text
replaced s = replace_all b'/' b'_' (replace_all 92 b'_' s)

-- Whatever an org or a slot is called, its directory is one component that does not lead out of the store.
pub sanitize-IsComponent : (segment : Text) → IsComponent (sanitize segment)
unfolding sanitize
sanitize-IsComponent segment =
    elim (Bool-cases (
      text_eq (replaced segment) []
      || (text_eq (replaced segment) (codes ".") || text_eq (replaced segment) (codes "..")))) [
        | inl e ↦ rw e (record {
          not_empty = λ q. cc;
          not_here = λ q. ground (arith, q);
          not_up = λ q. ground (arith, q);
          no_slash = ((λ q. omega (arith, q)), tt);
          no_backslash = ((λ q. omega (arith, q)), tt);
        })
        | inr e ↦ rw e (record {
          not_empty = ground (arith, e, text_eq_iff (replaced segment) []);
          not_here = ground (arith, e, text_eq_iff (replaced segment) (codes "."));
          not_up = ground (arith, e, text_eq_iff (replaced segment) (codes ".."));
          no_slash =
              replace_all-Lacks_old b'/' b'_' (replace_all 92 b'_' segment) (λ q. omega (arith, q));
          no_backslash =
              replace_all-Lacks 92 b'/' b'_' (replace_all 92 b'_' segment) (λ q. omega (arith, q))
                (replace_all-Lacks_old 92 b'_' segment (λ q. omega (arith, q)));
        })
      ]

-- A log is no sidecar.
pub log_path-no_sidecar :
    (root : Text) (m : Meta) → has_suffix (log_path root m) (codes ".json") ≡ false
unfolding log_path has_suffix
log_path-no_sidecar root m =
    rw
      (
        reverse-append (slot_dir root m.org m.slot) (b'/' ∷ (id_base m.runner_id ++ codes ".log")),
        reverse-append (b'/' ∷ id_base m.runner_id) (codes ".log"),
      )
      (unfold has_prefix in refl)

pub meta_path-sidecar :
    (root : Text) (m : Meta) → has_suffix (meta_path root m) (codes ".json") ≡ true
unfolding meta_path has_suffix
meta_path-sidecar root m =
    rw
      (
        reverse-append (slot_dir root m.org m.slot) (b'/' ∷ (id_base m.runner_id ++ codes ".json")),
        reverse-append (b'/' ∷ id_base m.runner_id) (codes ".json"),
      )
      (unfold has_prefix in refl)
