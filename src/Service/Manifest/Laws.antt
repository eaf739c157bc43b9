-- ===== src/Service/Manifest/Laws.antt =====
-- Reading after writing, and one entry for each key.
use srm.Prelude.{
  ◌≡◌, ◌≢◌, ◌↔◌, refl, sym, ap, ◌∙◌, Bool, true, false, ◌&&◌, none, some, List, [], ◌∷◌, arith,
  if◌then◌else◌, Bool-cases, inl, inr, All, Text, text_eq, text_eq_iff,
}
use srm.Service.Manifest.{
  Kind, kind_eq, RunnerRecord, StateManifest, matches, get_runners, get, put_runners, put,
  remove_runners, remove, put_created, stamped,
}

abbrev pub same_key : Kind → Text → Text → Kind → Text → Text → Bool
same_key k o n k' o' n' = kind_eq k k' && text_eq o o' && text_eq n n'

kind_eq_iff : (k k' : Kind) → (kind_eq k k' ≡ true) ↔ (k ≡ k')
kind_eq_iff k k' = ground arith

-- A key decides which entries match.
matches_of_matches :
    (r : RunnerRecord) (k : Kind) (o n : Text) (k' : Kind) (o' n' : Text)
    → matches r k o n ≡ true
    → matches r k' o' n' ≡ same_key k o n k' o' n'
unfolding matches
matches_of_matches r k o n k' o' n' h = ground (
  arith,
  text_eq_iff r.org o,
  text_eq_iff r.org o',
  text_eq_iff o o',
  text_eq_iff r.name n,
  text_eq_iff r.name n',
  text_eq_iff n n',
)

matches_self : (rs : RunnerRecord) → matches rs rs.kind rs.org rs.name ≡ true
unfolding matches
matches_self rs = ground (arith, text_eq_iff rs.org rs.org, text_eq_iff rs.name rs.name)

get-put_runners :
    (rs : RunnerRecord) (runners : List RunnerRecord) (k : Kind) (o n : Text)
    → get_runners (put_runners rs runners) k o n
      ≡ (if matches rs k o n then some rs else get_runners runners k o n)
unfolding get_runners put_runners
get-put_runners rs [] k o n = refl
get-put_runners rs (r ∷ runners) k o n = elim (Bool-cases (matches r rs.kind rs.org rs.name)) [
  | inl e ↦ ground (
    arith,
    e,
    matches_of_matches r rs.kind rs.org rs.name k o n e,
    matches_of_matches rs rs.kind rs.org rs.name k o n (matches_self rs),
  )
  | inr e ↦ ground (
    arith,
    e,
    get-put_runners rs runners k o n,
    matches_of_matches r k o n rs.kind rs.org rs.name,
    matches_of_matches rs k o n rs.kind rs.org rs.name,
    matches_self rs,
  )
]

-- Get after Put: the new entry at its own key, and what was there before at every other key.
pub get-put :
    (m : StateManifest) (rs : RunnerRecord) (k : Kind) (o n : Text)
    → get (put m rs) k o n ≡ (if matches rs k o n then some rs else get m k o n)
unfolding get put
get-put m rs k o n = get-put_runners rs m.runners k o n

same_key_sym :
    (k : Kind) (o n : Text) (k' : Kind) (o' n' : Text)
    → same_key k o n k' o' n' ≡ same_key k' o' n' k o n
same_key_sym k o n k' o' n' =
    ground (arith, text_eq_iff o o', text_eq_iff n n', text_eq_iff o' o, text_eq_iff n' n)

get-remove_runners :
    (runners : List RunnerRecord) (k : Kind) (o n : Text) (k' : Kind) (o' n' : Text)
    → get_runners (remove_runners runners k o n) k' o' n'
      ≡ (if same_key k o n k' o' n' then none else get_runners runners k' o' n')
unfolding get_runners remove_runners
get-remove_runners [] k o n k' o' n' = ground arith
get-remove_runners (r ∷ runners) k o n k' o' n' = ground (
  arith,
  get-remove_runners runners k o n k' o' n',
  matches_of_matches r k o n k' o' n',
  matches_of_matches r k' o' n' k o n,
  same_key_sym k o n k' o' n',
)

-- Get after Remove: nothing under the removed key, and what was there before under every other.
get-remove :
    (m : StateManifest) (k : Kind) (o n : Text) (k' : Kind) (o' n' : Text)
    → get (remove m k o n) k' o' n' ≡ (if same_key k o n k' o' n' then none else get m k' o' n')
unfolding get remove
get-remove m k o n k' o' n' = get-remove_runners m.runners k o n k' o' n'

-- A recreated entry keeps the creation time of the entry that it replaces, if that had one.
put_created-keeps_time :
    (now : Text) (rec prev : RunnerRecord) (m : StateManifest)
    → get m rec.kind rec.org rec.name ≡ some prev
    → prev.configured_at ≢ []
    → get (put_created now rec m) rec.kind rec.org rec.name
      ≡ some (record rec { configured_at = prev.configured_at })
unfolding put_created
put_created-keeps_time now rec prev m h n =
    let kept : stamped rec now (some prev) ≡ record rec { configured_at = prev.configured_at } =
      ground (arith, text_eq_iff prev.configured_at []) in
    ap (λ o. get (put m (stamped rec now o)) rec.kind rec.org rec.name) h
    ∙ ap (λ r. get (put m r) rec.kind rec.org rec.name) kept
    ∙ get-put m (record rec { configured_at = prev.configured_at }) rec.kind rec.org rec.name
    ∙ rw (matches_self (record rec { configured_at = prev.configured_at }))

-- Entries under pairwise different keys.
abbrev pub HasUniqueKeys : List RunnerRecord → Type 0
HasUniqueKeys [] = Unit {0}
HasUniqueKeys (r ∷ runners) =
    All (λ s. matches s r.kind r.org r.name ≡ false) runners × HasUniqueKeys runners

put_runners-All :
    (P : RunnerRecord → Type 0) (rs : RunnerRecord) (runners : List RunnerRecord)
    → P rs
    → All P runners
    → All P (put_runners rs runners)
unfolding put_runners
put_runners-All P rs [] p h = (p, tt)
put_runners-All P rs (r ∷ runners) p h = elim (Bool-cases (matches r rs.kind rs.org rs.name)) [
  | inl e ↦ rw e (p, h.1)
  | inr e ↦ rw e (h.0, put_runners-All P rs runners p h.1)
]

-- An entry that does not match a key under which another stands matches no entry of that key.
matches_of_same :
    (s r rs : RunnerRecord)
    → matches r rs.kind rs.org rs.name ≡ true
    → matches s r.kind r.org r.name ≡ matches s rs.kind rs.org rs.name
unfolding matches
matches_of_same s r rs h =
    ground (arith, text_eq_iff r.org rs.org, text_eq_iff r.name rs.name, kind_eq_iff r.kind rs.kind)

same_key_misses :
    (r rs : RunnerRecord) (runners : List RunnerRecord)
    → matches r rs.kind rs.org rs.name ≡ true
    → All (λ s. matches s r.kind r.org r.name ≡ false) runners
    → All (λ s. matches s rs.kind rs.org rs.name ≡ false) runners
same_key_misses r rs [] e h = tt
same_key_misses r rs (s ∷ runners) e h =
    (sym (matches_of_same s r rs e) ∙ h.0, same_key_misses r rs runners e h.1)

matches_comm : (r s : RunnerRecord) → matches r s.kind s.org s.name ≡ matches s r.kind r.org r.name
unfolding matches
matches_comm r s = same_key_sym r.kind r.org r.name s.kind s.org s.name

put_runners-HasUniqueKeys :
    (rs : RunnerRecord) (runners : List RunnerRecord)
    → HasUniqueKeys runners
    → HasUniqueKeys (put_runners rs runners)
unfolding put_runners
put_runners-HasUniqueKeys rs [] h = (tt, tt)
put_runners-HasUniqueKeys rs (r ∷ runners) h =
    elim (Bool-cases (matches r rs.kind rs.org rs.name)) [
      | inl e ↦ rw e (same_key_misses r rs runners e h.0, h.1)
      | inr e ↦ rw e (
        put_runners-All (λ s. matches s r.kind r.org r.name ≡ false) rs runners
            (sym (matches_comm r rs) ∙ e) h.0,
        put_runners-HasUniqueKeys rs runners h.1,
      )
    ]

remove_runners-All :
    (P : RunnerRecord → Type 0) (k : Kind) (o n : Text) (runners : List RunnerRecord)
    → All P runners
    → All P (remove_runners runners k o n)
unfolding remove_runners
remove_runners-All P k o n [] h = tt
remove_runners-All P k o n (r ∷ runners) h = elim (Bool-cases (matches r k o n)) [
  | inl e ↦ rw e (remove_runners-All P k o n runners h.1)
  | inr e ↦ rw e (h.0, remove_runners-All P k o n runners h.1)
]

remove_runners-HasUniqueKeys :
    (k : Kind) (o n : Text) (runners : List RunnerRecord)
    → HasUniqueKeys runners
    → HasUniqueKeys (remove_runners runners k o n)
unfolding remove_runners
remove_runners-HasUniqueKeys k o n [] h = tt
remove_runners-HasUniqueKeys k o n (r ∷ runners) h = elim (Bool-cases (matches r k o n)) [
  | inl e ↦ rw e (remove_runners-HasUniqueKeys k o n runners h.1)
  | inr e ↦ rw e (
    remove_runners-All (λ s. matches s r.kind r.org r.name ≡ false) k o n runners h.0,
    remove_runners-HasUniqueKeys k o n runners h.1,
  )
]

-- What an operator command does to the manifest: record a created runner, write an entry, forget one.
pub data Update : Type 0 where
  created : Text → RunnerRecord → Update
  upserted : RunnerRecord → Update
  forgotten : Kind → Text → Text → Update

abbrev pub apply : StateManifest → Update → StateManifest
apply m (created now rec) = put_created now rec m
apply m (upserted rs) = put m rs
apply m (forgotten k o n) = remove m k o n

abbrev pub apply_all : StateManifest → List Update → StateManifest
apply_all m [] = m
apply_all m (u ∷ updates) = apply_all (apply m u) updates

apply-HasUniqueKeys :
    (m : StateManifest) (u : Update) → HasUniqueKeys m.runners → HasUniqueKeys (apply m u).runners
unfolding put_created put remove
apply-HasUniqueKeys m (created now rec) h = put_runners-HasUniqueKeys _ m.runners h
apply-HasUniqueKeys m (upserted rs) h = put_runners-HasUniqueKeys rs m.runners h
apply-HasUniqueKeys m (forgotten k o n) h = remove_runners-HasUniqueKeys k o n m.runners h

-- Whatever is recorded, written and forgotten, in any order, a manifest with one entry for each key
-- keeps one entry for each key.
pub apply_all-HasUniqueKeys :
    (m : StateManifest) (updates : List Update)
    → HasUniqueKeys m.runners
    → HasUniqueKeys (apply_all m updates).runners
apply_all-HasUniqueKeys m [] h = h
apply_all-HasUniqueKeys m (u ∷ updates) h =
    apply_all-HasUniqueKeys (apply m u) updates (apply-HasUniqueKeys m u h)

get_runners-key :
    (runners : List RunnerRecord) (kind : Kind) (org name : Text) (rec : RunnerRecord)
    → get_runners runners kind org name ≡ some rec
    → (rec.org ≡ org) × (rec.name ≡ name)
unfolding get_runners matches
get_runners-key [] kind org name rec e = absurd (ground arith)
get_runners-key (r ∷ runners) kind org name rec e = elim (Bool-cases (matches r kind org name)) [
  | inr n ↦ get_runners-key runners kind org name rec (ground (arith, e, n))
  | inl m ↦
      let same : r ≡ rec = ground (arith, e, m) in
      (
        ap (λ (x : RunnerRecord). x.org) (sym same) ∙ (text_eq_iff r.org org).0 (ground (arith, m)),
        ap (λ (x : RunnerRecord). x.name) (sym same)
            ∙ (text_eq_iff r.name name).0 (ground (arith, m)),
      )
]

-- What Get finds is of the org and the name asked for.
pub get-key :
    (m : StateManifest) (kind : Kind) (org name : Text) (rec : RunnerRecord)
    → get m kind org name ≡ some rec
    → (rec.org ≡ org) × (rec.name ≡ name)
unfolding get
get-key m kind org name rec e = get_runners-key m.runners kind org name rec e
