-- ===== src/JobLog.antt =====
-- internal/joblog/joblog.go: the store of job logs. The disk is a list of files with different paths;
-- encoding/json is a parameter. removeEmptyDirs is left out: it removes no file.
pub mod Paths
pub mod Sweep
use srm.Prelude.{
  ℕ, zero, suc, ◌+◌, ◌-◌, Bool, true, false, ◌&&◌, ◌||◌, not, Option, none, some, List, [], ◌∷◌,
  ◌++◌, map, length, ltb, ◌==◌, if◌then◌else◌, Text, codes, text_eq,
}
use srm.Prelude.Int.{ℤ, pos, negsuc, ltb_ℤ, eqb_ℤ}
use srm.Prelude.Strings.{has_suffix}
use srm.Prelude.Sort.{sort_slice}
use srm.Prelude.Decimal.{decimal}

pub record Meta : Type 0 where
  pub org : Text
  pub slot : Text
  pub runner_name : Text
  pub runner_id : ℤ
  pub started_unix : ℤ
  pub ended_unix : ℤ
  pub ok : Bool
  pub error : Text
  pub has_log : Bool
  pub captured_unix : ℤ

unfoldable pub sort_key : Meta → ℤ
sort_key m = if ltb_ℤ (pos 0) m.started_unix then m.started_unix else m.captured_unix

-- strings.ReplaceAll of one byte by another
abbrev pub replace_all : ℕ → ℕ → Text → Text
replace_all old new s = map (λ c. if c == old then new else c) s

unfoldable pub sanitize : Text → Text
sanitize segment =
    let seg = replace_all b'/' b'_' (replace_all 92 b'_' segment) in
    if text_eq seg [] || (text_eq seg (codes ".") || text_eq seg (codes ".."))
    then codes "_"
    else seg

-- strconv.FormatInt(id, 10) of a positive id
unfoldable pub id_base : ℤ → Text
unfolding decimal
id_base (pos zero) = codes "unknown"
id_base (pos (suc n)) = decimal (suc n)
id_base (negsuc n) = codes "unknown"

-- filepath.Join of components that are clean
unfoldable pub slot_dir : Text → Text → Text → Text
slot_dir root org slot = root ++ b'/' ∷ (sanitize org ++ b'/' ∷ sanitize slot)

unfoldable pub log_path : Text → Meta → Text
log_path root m = slot_dir root m.org m.slot ++ (b'/' ∷ (id_base m.runner_id ++ codes ".log"))

unfoldable pub meta_path : Text → Meta → Text
meta_path root m = slot_dir root m.org m.slot ++ (b'/' ∷ (id_base m.runner_id ++ codes ".json"))

-- Files: a path and its bytes
abbrev pub Files : Type 0
Files = List (Text × Text)

-- os.ReadFile or os.Stat
unfoldable pub read : Text → Files → Option Text
read path [] = none
read path ((p, bytes) ∷ files) =
    let rest = read path files in if text_eq p path then some bytes else rest

-- os.Remove, if it succeeds
unfoldable pub remove : Text → Files → Files
remove path [] = []
remove path ((p, bytes) ∷ files) =
    let rest = remove path files in if text_eq p path then rest else (p, bytes) ∷ rest

-- os.WriteFile
unfoldable pub write_file : Text → Text → Files → Files
write_file path bytes [] = (path, bytes) ∷ []
write_file path bytes ((p, old) ∷ files) =
    let rest = write_file path bytes files in
    if text_eq p path then (path, bytes) ∷ files else (p, old) ∷ rest

pub record Json : Type 0 where
  pub marshal : Meta → Text
  pub unmarshal : Text → Option Meta

-- os.Stat of the root
pub data RootStat : Type 0 where
  present missing denied : RootStat

-- What WalkDir's function appends for one file
walked : Json → Option Text → Text → List Meta
walked json none path = []
walked json (some bytes) path = elim (json.unmarshal bytes) [
  | none ↦ []
  | some m ↦ if not (eqb_ℤ m.runner_id (pos 0)) then m ∷ [] else []
]

-- A file that cannot be read is not `readable`.
unfoldable pub walk_file : Json → (Text → Bool) → Text → Text → List Meta
unfolding walked
walk_file json readable path bytes =
    if has_suffix path (codes ".json")
    then walked json (if readable path then some bytes else none) path
    else []

unfoldable pub walk : Json → (Text → Bool) → Files → List Meta
walk json readable [] = []
walk json readable ((p, bytes) ∷ files) =
    walk_file json readable p bytes ++ walk json readable files

-- out[i].sortKey() > out[j].sortKey()
abbrev pub newer : Meta → Meta → Bool
newer a b = ltb_ℤ (sort_key b) (sort_key a)

-- List: `none` is an error
unfoldable pub list_runs : Json → (Text → Bool) → RootStat → Files → Option (List Meta)
unfolding sort_slice walk
list_runs json readable missing files = some []
list_runs json readable denied files = none
list_runs json readable present files = some (sort_slice newer (walk json readable files))

pub record Swept : Type 0 where
  pub entries : ℕ
  pub bytes : ℕ
  pub files : Files

abbrev size_of : Option Text → ℕ
size_of none = 0
size_of (some bytes) = length bytes

abbrev pub is_old : ℤ → Meta → Bool
is_old cut m = ltb_ℤ (sort_key m) cut

-- os.Remove, whose error is ignored: `removes` tells of which paths it succeeds
abbrev pub try_remove : (Text → Bool) → Text → Files → Files
try_remove removes path files = if removes path then remove path files else files

-- One round of Prune's loop
unfoldable pub prune_step : (Text → Bool) → Text → ℤ → Bool → Swept → Meta → Swept
prune_step removes root cut dry_run s m = if not (is_old cut m) then s else record {
  entries = suc s.entries;
  bytes = s.bytes + size_of (read (log_path root m) s.files);
  files =
      if dry_run
      then s.files
      else try_remove removes (meta_path root m) (try_remove removes (log_path root m) s.files);
}

unfoldable pub prune_loop : (Text → Bool) → Text → ℤ → Bool → Swept → List Meta → Swept
unfolding prune_step
prune_loop removes root cut dry_run s [] = s
prune_loop removes root cut dry_run s (m ∷ runs) =
    prune_loop removes root cut dry_run (prune_step removes root cut dry_run s m) runs

pruned : (Text → Bool) → Text → ℤ → Bool → Files → Option (List Meta) → Option Swept
unfolding prune_loop
pruned removes root cut dry_run files none = none
pruned removes root cut dry_run files (some runs) =
    some
      (prune_loop removes root cut dry_run (record { entries = 0; bytes = 0; files = files }) runs)

unfoldable pub prune :
    Json → (Text → Bool) → (Text → Bool) → RootStat → Text → ℤ → Bool → Files → Option Swept
unfolding pruned list_runs
prune json readable removes stat root cut dry_run files =
    pruned removes root cut dry_run files (list_runs json readable stat files)

-- What copyFile makes of the source log: none is named, it cannot be opened, or some or all of it is copied.
pub data Source : Type 0 where
  unnamed unopened : Source
  partial whole : Text → Source

-- Write, where MkdirAll and WriteFile succeed
unfoldable pub write : Json → Text → Meta → Source → Files → Files
unfolding write_file
write json root m unnamed files = write_file (meta_path root m) (json.marshal m) files
write json root m unopened files = write_file (meta_path root m) (json.marshal m) files
write json root m (partial log) files =
    write_file (meta_path root m) (json.marshal m) (write_file (log_path root m) log files)
write json root m (whole log) files =
    write_file (meta_path root m) (json.marshal (record m { has_log = true }))
      (write_file (log_path root m) log files)
