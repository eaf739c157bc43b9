-- ===== src/Examples/JobLog.antt =====
-- A store with an old and a young run.
use mathlib.Core.List.{Perm}
use srm.Prelude.{
  ℕ, ◌≡◌, refl, Bool, true, false, not, Option, some, none, List, [], ◌∷◌, length, keep, Memᴰ, sym,
  ap, ◌∙◌, ◌≢◌, false≢true, Text, codes, text_eq, text_eq_iff,
}
use srm.Prelude.Int.{pos}
use srm.Prelude.Strings.{has_suffix, has_prefix}
use srm.Prelude.Sort.{sort_slice, IsSortedBy}
use srm.JobLog.{
  Meta, sanitize, slot_dir, id_base, log_path, meta_path, read, remove, Files, Json, present, walk,
  walk_file, list_runs, Swept, is_old, prune_loop, prune, sort_key, newer,
}
use srm.JobLog.Paths.{IsComponent, sanitize-IsComponent}
use srm.JobLog.Sweep.Kept.{IsStore, list_runs-prune}

abbrev run : ℕ → Meta
run id = record {
  org = codes "acme";
  slot = codes "1";
  runner_name = codes "srm-eph-acme-1-f00";
  runner_id = pos id;
  started_unix = pos id;
  ended_unix = pos 30;
  ok = true;
  error = [];
  has_log = true;
  captured_unix = pos 31;
}

-- The sidecar of run n is the text of the one number n.
abbrev unmarshal : Text → Option Meta
unmarshal (id ∷ []) = some (run id)
unmarshal _ = none

abbrev json : Json
json = record { marshal = λ m. []; unmarshal = unmarshal }

abbrev readable : Text → Bool
readable path = true

abbrev root : Text
root = codes "/joblogs"

abbrev files : Files
files =
    (codes "/joblogs/acme/1/10.json", 10 ∷ [])
    ∷ (codes "/joblogs/acme/1/10.log", codes "old")
    ∷ (codes "/joblogs/acme/1/20.json", 20 ∷ [])
    ∷ []

abbrev two_runs : List Meta
two_runs = run 10 ∷ run 20 ∷ []

walked_runs : walk json readable files ≡ two_runs
unfolding walk walk_file has_suffix has_prefix
walked_runs = refl

paths_differ : text_eq (meta_path root (run 10)) (meta_path root (run 20)) ≡ false
unfolding text_eq meta_path slot_dir sanitize id_base
paths_differ = refl

differ : meta_path root (run 10) ≢ meta_path root (run 20)
differ e =
    false≢true
      (sym paths_differ ∙ (text_eq_iff (meta_path root (run 10)) (meta_path root (run 20))).1 e)

one_of_two :
    (m m' : Meta)
    → Memᴰ m two_runs
    → Memᴰ m' two_runs
    → meta_path root m ≡ meta_path root m'
    → m ≡ m'
one_of_two m m' (Memᴰ.head p) (Memᴰ.head q) e = p ∙ sym q
one_of_two m m' (Memᴰ.head p) (Memᴰ.tail (Memᴰ.head q)) e =
    absurd (differ (ap (meta_path root) (sym p) ∙ e ∙ ap (meta_path root) q))
one_of_two m m' (Memᴰ.tail (Memᴰ.head p)) (Memᴰ.head q) e =
    absurd (differ (ap (meta_path root) (sym q) ∙ sym e ∙ ap (meta_path root) p))
one_of_two m m' (Memᴰ.tail (Memᴰ.head p)) (Memᴰ.tail (Memᴰ.head q)) e = p ∙ sym q
one_of_two m m' (Memᴰ.tail (Memᴰ.tail p)) j e = elim p [ ]
one_of_two m m' (Memᴰ.head p) (Memᴰ.tail (Memᴰ.tail j)) e = elim j [ ]
one_of_two m m' (Memᴰ.tail (Memᴰ.head p)) (Memᴰ.tail (Memᴰ.tail j)) e = elim j [ ]

files-IsStore : IsStore json readable root files
unfolding walk_file has_suffix has_prefix meta_path slot_dir sanitize id_base text_eq
files-IsStore = record {
  placed = ((refl, tt), (tt, ((refl, tt), tt)));
  one_run = λ m m' i j e. one_of_two m m' (rw (← walked_runs) i) (rw (← walked_runs) j) e;
}

abbrev removes : Text → Bool
removes path = true

listed : list_runs json readable present files ≡ some (run 20 ∷ run 10 ∷ [])
unfolding list_runs walk walk_file has_suffix has_prefix sort_slice sort_key
listed = refl

abbrev swept : Swept
swept = record { entries = 1; bytes = 3; files = (codes "/joblogs/acme/1/20.json", 20 ∷ []) ∷ [] }

prunes : prune json readable removes present root (pos 15) false files ≡ some swept
unfolding prune prune_loop read remove list_runs walk walk_file has_suffix has_prefix sort_slice
    sort_key log_path meta_path slot_dir sanitize id_base text_eq
prunes = refl

list_runs-prune_example :
    ((left : List Meta) × (list_runs json readable present swept.files ≡ some left)
      × Perm left (keep (λ m. not (is_old (pos 15) m)) (run 20 ∷ run 10 ∷ []))
      × IsSortedBy newer left)
    × (1 ≡ length (keep (is_old (pos 15)) (run 20 ∷ run 10 ∷ [])))
list_runs-prune_example =
    list_runs-prune json readable removes root (pos 15) files (run 20 ∷ run 10 ∷ []) swept
      files-IsStore (λ path. refl) listed prunes

prunes_dry :
    prune json readable removes present root (pos 15) true files
    ≡ some (record swept { files = files })
unfolding prune prune_loop read remove list_runs walk walk_file has_suffix has_prefix sort_slice
    sort_key log_path meta_path slot_dir sanitize id_base text_eq
prunes_dry = refl

sanitize-IsComponent_example : IsComponent (sanitize (codes "../etc"))
sanitize-IsComponent_example = sanitize-IsComponent (codes "../etc")
