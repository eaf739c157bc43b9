-- ===== src/Service/Snapshot/Merge.antt =====
-- What merging the host tier changes, and what is counted.
use srm.Prelude.{
  ℕ, ◌+◌, ◌≡◌, refl, sym, ap, ap₂, ◌∙◌, Bool, true, false, false≢true, Option, none, some, List, [],
  ◌∷◌, map, All, All-map, Text,
}
use srm.Prelude.Sort.{sort_slice-All}
use srm.Service.Drift.{drop_in_newer, ephemeral_newer, unaudited}
use srm.Service.Manifest.{StateManifest, RunnerRecord}
use srm.Service.Manifest.Disk.{Result}
use srm.Service.Reconcile.Model.{RunnerWithOrg, RunnerState, World}
use srm.Service.Reconcile.{ReconcileReport}
use srm.Service.Snapshot.{
  EphemeralSlot, FusedRunner, FusedSlot, FleetSnapshot, verdict, merge_runner, merge_slot,
  runner_key, slot_key, merge_host_tier, count, newer_on_disk, runner_drifted, slot_drifted,
  drift_count, behind_count, is_class,
}
use srm.Service.Snapshot.Fast.{
  Fleet, persistent_rows, records, fuse_runner, with_record, fused_less, fuse_slot, fused_slots,
  fleet_fast,
}

count-none : {A : Type 0} (p : A → Bool) (xs : List A) → All (λ x. p x ≡ false) xs → count p xs ≡ 0
unfolding count
count-none p [] h = refl
count-none p (x ∷ xs) h = rw h.0 (count-none p xs h.1)

count-map :
    {A B : Type 0} (p : B → Bool) (q : A → Bool) (f : A → B) (xs : List A)
    → ((a : A) → p (f a) ≡ q a)
    → count p (map f xs) ≡ count q xs
unfolding count
count-map p q f [] h = refl
count-map p q f (x ∷ xs) h = rw (h x, count-map p q f xs h) refl

-- Nothing is known of a runner from the host yet.
abbrev pub IsUnaudited : FusedRunner → Type 0
IsUnaudited r = (r.host_known ≡ false) × (r.drift_class ≡ unaudited)

with_record-IsUnaudited :
    (fr : FusedRunner) (rec : Option RunnerRecord)
    → IsUnaudited fr
    → IsUnaudited (with_record fr rec)
unfolding with_record
with_record-IsUnaudited fr none h = h
with_record-IsUnaudited fr (some rec) h = h

pub fuse_runner-IsUnaudited :
    (fl : Fleet) (recs : List RunnerRecord) (row : RunnerWithOrg)
    → IsUnaudited (fuse_runner fl recs row)
unfolding fuse_runner
fuse_runner-IsUnaudited fl recs row = with_record-IsUnaudited _ _ (refl, refl)

module _ (w : World) (fl : Fleet) (loaded : Result StateManifest) (org_filter : Text) where
  fleet_fast-IsUnaudited : All IsUnaudited (fleet_fast w fl loaded org_filter).runners
  unfolding fleet_fast
  fleet_fast-IsUnaudited =
      sort_slice-All fused_less IsUnaudited
        (map (fuse_runner fl (records loaded)) (persistent_rows w org_filter))
        (All-map IsUnaudited (fuse_runner fl (records loaded)) (persistent_rows w org_filter)
          (fuse_runner-IsUnaudited fl (records loaded)))

  slots-unaudited :
      (slots : Option (List EphemeralSlot))
      → All (λ (l : FusedSlot). l.drift_class ≡ unaudited) (fused_slots fl (records loaded) slots)
  slots-unaudited none = tt
  slots-unaudited (some slots) =
      All-map (λ (l : FusedSlot). l.drift_class ≡ unaudited) (fuse_slot fl (records loaded)) slots
        (λ s. unfold fuse_slot in refl)

  fleet_fast-slots :
      All (λ (l : FusedSlot). l.drift_class ≡ unaudited) (fleet_fast w fl loaded org_filter).slots
  unfolding fleet_fast
  fleet_fast-slots = slots-unaudited (fl.list_slots org_filter)

All-imp :
    {A : Type 0} (P Q : A → Type 0) (xs : List A) → ((a : A) → P a → Q a) → All P xs → All Q xs
All-imp P Q [] f h = tt
All-imp P Q (x ∷ xs) f h = (f x h.0, All-imp P Q xs f h.1)

unaudited-counts :
    (s : FleetSnapshot)
    → All IsUnaudited s.runners
    → All (λ (l : FusedSlot). l.drift_class ≡ unaudited) s.slots
    → (drift_count s ≡ 0) × (newer_on_disk s ≡ 0)
unfolding drift_count newer_on_disk
unaudited-counts s h k = (
  ap₂ (λ a b. a + b)
      (count-none runner_drifted s.runners
        (All-imp IsUnaudited (λ r. runner_drifted r ≡ false) s.runners (λ r u. rw u.0 refl) h))
      (count-none slot_drifted s.slots (
        All-imp (λ l. l.drift_class ≡ unaudited) (λ l. slot_drifted l ≡ false) s.slots
          (λ l u. rw u refl) k)),
  ap₂ (λ a b. a + b)
      (count-none (λ (r : FusedRunner). is_class r.drift_class drop_in_newer) s.runners
        (All-imp IsUnaudited (λ r. is_class r.drift_class drop_in_newer ≡ false) s.runners
          (λ r u. rw u.1 refl) h))
      (count-none (λ (l : FusedSlot). is_class l.drift_class ephemeral_newer) s.slots
        (All-imp (λ l. l.drift_class ≡ unaudited)
          (λ l. is_class l.drift_class ephemeral_newer ≡ false) s.slots (λ l u. rw u refl) k)),
)

-- Before the host tier is merged no runner and no slot counts as drifted or as newer than this program.
drift_count-fleet_fast :
    (w : World) (fl : Fleet) (loaded : Result StateManifest) (org_filter : Text)
    → (drift_count (fleet_fast w fl loaded org_filter) ≡ 0)
      × (newer_on_disk (fleet_fast w fl loaded org_filter) ≡ 0)
drift_count-fleet_fast w fl loaded org_filter =
    unaudited-counts (fleet_fast w fl loaded org_filter)
      (fleet_fast-IsUnaudited w fl loaded org_filter) (fleet_fast-slots w fl loaded org_filter)

merge_runner-behind :
    (o : Option RunnerState) (r : FusedRunner) → (merge_runner o r).behind ≡ r.behind
unfolding merge_runner
merge_runner-behind none r = refl
merge_runner-behind (some st) r = refl

merge_slot-behind : (o : Option RunnerState) (l : FusedSlot) → (merge_slot o l).behind ≡ l.behind
unfolding merge_slot
merge_slot-behind none l = refl
merge_slot-behind (some st) l = refl

-- Merging the host tier does not change how many agents are behind.
pub behind_count-merge_host_tier :
    (snap : FleetSnapshot) (rep : ReconcileReport) (at : ℕ)
    → behind_count (merge_host_tier snap rep at) ≡ behind_count snap
unfolding behind_count merge_host_tier
behind_count-merge_host_tier snap rep at =
    ap₂ (λ a b. a + b)
      (count-map (λ (r : FusedRunner). r.behind) (λ r. r.behind)
        (λ r. merge_runner (verdict rep.runners (runner_key r)) r) snap.runners
        (λ r. merge_runner-behind (verdict rep.runners (runner_key r)) r))
      (count-map (λ (l : FusedSlot). l.behind) (λ l. l.behind)
        (λ l. merge_slot (verdict rep.runners (slot_key l)) l) snap.slots
        (λ l. merge_slot-behind (verdict rep.runners (slot_key l)) l))

same_verdict :
    (o : Option RunnerState) (r : FusedRunner) (l : FusedSlot)
    → r.host_known ≡ false
    → (merge_runner o r).host_known ≡ true
    → (merge_runner o r).drift_class ≡ (merge_slot o l).drift_class
unfolding merge_runner merge_slot
same_verdict none r l u h = absurd (false≢true (sym u ∙ h))
same_verdict (some st) r l u h = refl

merge_runner-key :
    (o : Option RunnerState) (r : FusedRunner) → runner_key (merge_runner o r) ≡ runner_key r
unfolding merge_runner
merge_runner-key none r = refl
merge_runner-key (some st) r = refl

merge_slot-key : (o : Option RunnerState) (l : FusedSlot) → slot_key (merge_slot o l) ≡ slot_key l
unfolding merge_slot
merge_slot-key none l = refl
merge_slot-key (some st) l = refl

-- A runner and a slot that have the same org and name have the same class, if the runner was audited.
abbrev pub HasSameClass : FusedRunner → FusedSlot → Type 0
HasSameClass r l = runner_key r ≡ slot_key l → r.host_known ≡ true → r.drift_class ≡ l.drift_class

merged-HasSameClass :
    (sts : List RunnerState) (r : FusedRunner) (l : FusedSlot)
    → r.host_known ≡ false
    → HasSameClass
        (merge_runner (verdict sts (runner_key r)) r)
        (merge_slot (verdict sts (slot_key l)) l)
merged-HasSameClass sts r l u e h =
    let same =
      sym (merge_runner-key (verdict sts (runner_key r)) r)
      ∙ e
      ∙ merge_slot-key (verdict sts (slot_key l)) l in
    same_verdict (verdict sts (runner_key r)) r l u h
    ∙ ap (λ key. (merge_slot (verdict sts key) l).drift_class) same

All-map_from :
    {A B : Type 0} (P : A → Type 0) (Q : B → Type 0) (f : A → B) (xs : List A)
    → ((a : A) → P a → Q (f a))
    → All P xs
    → All Q (map f xs)
All-map_from P Q f [] g h = tt
All-map_from P Q f (x ∷ xs) g h = (g x h.0, All-map_from P Q f xs g h.1)

-- In the merge of a report into a snapshot of which nothing was audited, every runner has the class of every
-- slot with the same org and the same name, if it was audited.
pub merge_host_tier-HasSameClass :
    (snap : FleetSnapshot) (rep : ReconcileReport) (at : ℕ)
    → All IsUnaudited snap.runners
    → All
        (λ r. All (HasSameClass r) (merge_host_tier snap rep at).slots)
        (merge_host_tier snap rep at).runners
unfolding merge_host_tier
merge_host_tier-HasSameClass snap rep at h =
    All-map_from IsUnaudited _ (λ r. merge_runner (verdict rep.runners (runner_key r)) r)
      snap.runners
      (λ r u.
        All-map (HasSameClass (merge_runner (verdict rep.runners (runner_key r)) r))
          (λ l. merge_slot (verdict rep.runners (slot_key l)) l) snap.slots
          (λ l. merged-HasSameClass rep.runners r l u.0))
      h
