-- ===== src/Service/Manifest/Disk/Atomic.antt =====
-- Save replaces the manifest at once or not at all, wherever the process stops.
use srm.Prelude.{◌≡◌, ◌≢◌, refl, ap, ◌∙◌, ◌⊎◌, none, some, arith, All, Text}
use srm.Service.Manifest.{StateManifest}
use srm.Service.Manifest.Disk.{
  StateError, Result, ok, err, Disk, Json, Faults, stamp, load_state, Outcome, save, last_disk,
  saved, mutate_state, mutate_loaded,
}

-- The file is as it was, or holds the whole new text.
abbrev pub IsWhole : Disk → Text → Disk → Type 0
IsWhole d bytes d' = (d'.file ≡ d.file) ⊎ (d'.file ≡ some bytes)

-- After every system call of Save, failed or not, the manifest's file is as it was or holds the whole
-- new manifest.
pub save-IsWhole :
    (json : Json) (f : Faults) (m : StateManifest) (d : Disk)
    → All (IsWhole d (json.marshal (stamp m))) (save json f m d).1
unfolding save
save-IsWhole json f m d = ground arith

abbrev pub final : Disk → Outcome → Disk
final d o = last_disk d o.1

-- If no temporary file was there before, Save either reports success, the file holds the new manifest
-- and no temporary file is left, or it reports an error, the file is as it was, and a temporary file is
-- left only if its removal fails.
pub save_outcome :
    (json : Json) (f : Faults) (m : StateManifest) (d : Disk)
    → d.temp ≡ none
    → (((save json f m d).0 ≡ none)
          × ((final d (save json f m d)).file ≡ some (json.marshal (stamp m)))
          × ((final d (save json f m d)).temp ≡ none)
        ⊎ ((save json f m d).0 ≢ none)
          × ((final d (save json f m d)).file ≡ d.file)
          × (((final d (save json f m d)).temp ≡ none) ⊎ (f.remove ≢ none)))
unfolding save
save_outcome json f m d h = ground arith

stamp-stamp : (m : StateManifest) → stamp (stamp m) ≡ stamp m
stamp-stamp m = ground arith

unreadable-save :
    (json : Json) (f : Faults) (m : StateManifest) (d : Disk)
    → (final d (save json f m d)).unreadable ≡ d.unreadable
unfolding save
unreadable-save json f m d = ground arith

load_state-readable :
    (json : Json) (d : Disk) (st : StateManifest) → load_state json d ≡ ok st → d.unreadable ≡ none
unfolding load_state
load_state-readable json d st h = ground arith

pub load_state-file :
    (json : Json) (d : Disk) (m : StateManifest) (bytes : Text)
    → d.unreadable ≡ none
    → d.file ≡ some bytes
    → json.unmarshal bytes ≡ some m
    → load_state json d ≡ ok (stamp m)
unfolding load_state
load_state-file json d m bytes r h e = ground arith

saved-ok :
    (d : Disk) (o : Outcome) → (saved d o).0 ≡ none → (o.0 ≡ none) × ((saved d o).1 ≡ final d o)
unfolding saved
saved-ok d (none, past) h = (refl, refl)
saved-ok d (some e, past) h = absurd (ground arith)

saved-error :
    (d : Disk) (o : Outcome) {e : StateError}
    → (saved d o).0 ≡ some e
    → (o.0 ≢ none) × ((saved d o).1 ≡ final d o)
unfolding saved
saved-error d (none, past) h = absurd (ground arith)
saved-error d (some e, past) h = ((λ p. cc), refl)

-- If mutateState reports no error, the next load gives the manifest that the change made of the loaded
-- one, provided that the JSON text of a manifest is read back as that manifest and that no temporary
-- file was there before.
pub load_state-mutate_state :
    (json : Json) (f : Faults) (fn : StateManifest → StateManifest) (d : Disk) (st : StateManifest)
    → ((m : StateManifest) → json.unmarshal (json.marshal m) ≡ some m)
    → d.temp ≡ none
    → load_state json d ≡ ok st
    → (mutate_state json f fn d).0 ≡ none
    → load_state json (mutate_state json f fn d).1 ≡ ok (stamp (fn st))
unfolding mutate_state
load_state-mutate_state json f fn d st back h l = rw l (λ e.
    let (done, at) = saved-ok d (save json f (fn st) d) e in
    let file : (final d (save json f (fn st) d)).file ≡ some (json.marshal (stamp (fn st))) =
      ground (arith, save_outcome json f (fn st) d h) in
    ap (load_state json) at
    ∙ load_state-file json (final d (save json f (fn st) d)) (stamp (fn st))
        (json.marshal (stamp (fn st)))
        (unreadable-save json f (fn st) d ∙ load_state-readable json d st l) file
        (back (stamp (fn st)))
    ∙ ap ok (stamp-stamp (fn st)))

mutate_loaded-keeps_file :
    (json : Json) (f : Faults) (fn : StateManifest → StateManifest) (d : Disk)
    (r : Result StateManifest) {e : StateError}
    → d.temp ≡ none
    → (mutate_loaded json f fn d r).0 ≡ some e
    → (mutate_loaded json f fn d r).1.file ≡ d.file
unfolding mutate_loaded
mutate_loaded-keeps_file json f fn d (err x) h q = refl
mutate_loaded-keeps_file json f fn d (ok st) h q =
    let (failed, at) = saved-error d (save json f (fn st) d) q in
    ap (λ (x : Disk). x.file) at ∙ ground (arith, save_outcome json f (fn st) d h)

-- If mutateState reports an error, in the load or in the save, and no temporary file was there before,
-- the manifest's file is as it was.
mutate_state-keeps_file :
    (json : Json) (f : Faults) (fn : StateManifest → StateManifest) (d : Disk) (e : StateError)
    → d.temp ≡ none
    → (mutate_state json f fn d).0 ≡ some e
    → (mutate_state json f fn d).1.file ≡ d.file
unfolding mutate_state
mutate_state-keeps_file json f fn d e h x =
    mutate_loaded-keeps_file json f fn d (load_state json d) h x
