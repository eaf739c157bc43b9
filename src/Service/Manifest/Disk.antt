-- ===== src/Service/Manifest/Disk.antt =====
-- LoadState, Save and mutateState of internal/service/state.go. The disk holds the manifest's file and
-- the temporary file of one writer; encoding/json is a parameter. Save returns the disk after each
-- system call too, since the process may be killed between any two of them.
pub mod Atomic
use srm.Prelude.{
  ℕ, ◌≡◌, Bool, true, false, Option, none, some, List, [], ◌∷◌, ◌++◌, ◌==◌, if◌then◌else◌, Text,
}
use srm.Service.Manifest.{StateManifest, current_state_version}

-- What the operating system answers.
pub data Errno : Type 0 where
  errno : ℕ → Errno

pub data StateError : Type 0 where
  read_failed parse_failed save_failed : Errno → StateError

pub data Result {ℓ} (A : Type ℓ) : Type ℓ where
  ok : A → Result A
  err : StateError → Result A

-- The bytes of StatePath (`none`: no such file), whether they can be read, and the temporary file.
pub record Disk : Type 0 where
  pub file : Option Text
  pub unreadable : Option Errno
  pub temp : Option Text

-- encoding/json: the text of a manifest, and the manifest of a text or an error.
pub record Json : Type 0 where
  pub marshal : StateManifest → Text
  pub unmarshal : Text → Option StateManifest

-- The system calls of one Save: which fail, and what a failed write leaves in the temporary file.
pub record Faults : Type 0 where
  pub mkdir_all : Option Errno
  pub create_temp : Option Errno
  pub chmod : Option Errno
  pub write : Option Errno
  pub written : Text
  pub sync : Option Errno
  pub close : Option Errno
  pub rename : Option Errno
  pub remove : Option Errno

abbrev pub stamp : StateManifest → StateManifest
stamp m = if m.state_version == 0 then record m { state_version = current_state_version } else m

abbrev empty_manifest : StateManifest
empty_manifest = record { state_version = current_state_version; runners = [] }

parse : Option StateManifest → Result StateManifest
parse none = err (parse_failed (errno 0))
parse (some m) = ok (stamp m)

read_file : Json → Option Errno → Option Text → Result StateManifest
unfolding parse
read_file json (some e) bytes = err (read_failed e)
read_file json none none = ok empty_manifest
read_file json none (some bytes) = parse (json.unmarshal bytes)

unfoldable pub load_state : Json → Disk → Result StateManifest
unfolding read_file
load_state json d = read_file json d.unreadable d.file

-- The outcome of a Save: the error, if any, and the disk after each system call, the last one first.
abbrev pub Outcome : Type 0
Outcome = Option Errno × List Disk

-- defer os.Remove(tmp), whose error is ignored, then the return of `e`
abbrev give_up : Faults → Errno → Disk → List Disk → Outcome
give_up f e d past =
    (some e, elim f.remove [ none ↦ record d { temp = none } | some x ↦ d ] ∷ d ∷ past)

rename_temp : Faults → Text → Disk → List Disk → Outcome
rename_temp f bytes d past = elim f.rename [
  | some e ↦ give_up f e d past
  | none ↦ (none, record d { file = some bytes; temp = none } ∷ d ∷ past)
]

close_temp : Faults → Text → Disk → List Disk → Outcome
unfolding rename_temp
close_temp f bytes d past = elim f.close [
  | some e ↦ give_up f e d past
  | none ↦ rename_temp f bytes d past
]

sync_temp : Faults → Text → Disk → List Disk → Outcome
unfolding close_temp
sync_temp f bytes d past = elim f.sync [
  | some e ↦ give_up f e d past
  | none ↦ close_temp f bytes d past
]

write_temp : Faults → Text → Disk → List Disk → Outcome
unfolding sync_temp
write_temp f bytes d past = elim f.write [
  | some e ↦ give_up f e (record d { temp = some f.written }) past
  | none ↦ sync_temp f bytes (record d { temp = some bytes }) past
]

chmod_temp : Faults → Text → Disk → List Disk → Outcome
unfolding write_temp
chmod_temp f bytes d past = elim f.chmod [
  | some e ↦ give_up f e d past
  | none ↦ write_temp f bytes d past
]

create_temp : Faults → Text → Disk → List Disk → Outcome
unfolding chmod_temp
create_temp f bytes d past = elim f.create_temp [
  | some e ↦ (some e, d ∷ past)
  | none ↦ chmod_temp f bytes (record d { temp = some [] }) past
]

unfoldable pub save : Json → Faults → StateManifest → Disk → Outcome
unfolding create_temp
save json f m d = elim f.mkdir_all [
  | some e ↦ (some e, d ∷ [])
  | none ↦ create_temp f (json.marshal (stamp m)) d []
]

abbrev pub last_disk : Disk → List Disk → Disk
last_disk d [] = d
last_disk d (d' ∷ past) = d'

saved : Disk → Outcome → Option StateError × Disk
saved d (none, past) = (none, last_disk d past)
saved d (some e, past) = (some (save_failed e), last_disk d past)

mutate_loaded :
    Json
    → Faults
    → (StateManifest → StateManifest)
    → Disk
    → Result StateManifest
    → Option StateError × Disk
unfolding saved
mutate_loaded json f fn d (err e) = (some e, d)
mutate_loaded json f fn d (ok st) = saved d (save json f (fn st) d)

-- mutateState: the error of the load or of the save, and the disk that is left
unfoldable pub mutate_state :
    Json → Faults → (StateManifest → StateManifest) → Disk → Option StateError × Disk
unfolding mutate_loaded
mutate_state json f fn d = mutate_loaded json f fn d (load_state json d)
