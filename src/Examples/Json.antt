-- ===== src/Examples/Json.antt =====
-- A stand-in for encoding/json that reads back what it writes: every text is preceded by its length.
use srm.Prelude.{
  ℕ, zero, suc, ◌≡◌, refl, ap, ◌∙◌, Option, none, some, List, [], ◌∷◌, ◌++◌, length, Text,
}
use srm.Service.Manifest.{Kind, persistent, ephemeral, RunnerRecord, StateManifest}
use srm.Service.Manifest.Disk.{Json}

put_text : Text → Text → Text
put_text t rest = length t ∷ t ++ rest

-- The first `n` codes, and the rest
take_codes : ℕ → Text → Text × Text
take_codes zero t = ([], t)
take_codes (suc n) [] = ([], [])
take_codes (suc n) (c ∷ t) = let (taken, rest) = take_codes n t in (c ∷ taken, rest)

take_text : Text → Text × Text
unfolding take_codes
take_text [] = ([], [])
take_text (n ∷ t) = take_codes n t

take_codes-append : (t rest : Text) → take_codes (length t) (t ++ rest) ≡ (t, rest)
unfolding take_codes
take_codes-append [] rest = refl
take_codes-append (c ∷ t) rest = rw (take_codes-append t rest) refl

take_text-put_text : (t rest : Text) → take_text (put_text t rest) ≡ (t, rest)
unfolding take_text put_text
take_text-put_text t rest = take_codes-append t rest

kind_code : Kind → ℕ
kind_code persistent = 0
kind_code ephemeral = 1

code_kind : ℕ → Kind
code_kind zero = persistent
code_kind (suc n) = ephemeral

put_record : RunnerRecord → Text → Text
put_record r rest =
    kind_code r.kind
    ∷ r.github_runner_id
    ∷ r.template_version
    ∷ put_text r.org (
        put_text r.name (
          put_text r.agent_version (
            put_text r.previous_version
              (put_text r.configured_at (put_text r.last_upgrade_at rest)))))

take_fields : ℕ → ℕ → ℕ → Text → RunnerRecord × Text
take_fields k id tmpl t0 =
    let (org, t1) = take_text t0 in
    let (name, t2) = take_text t1 in
    let (agent, t3) = take_text t2 in
    let (previous, t4) = take_text t3 in
    let (configured, t5) = take_text t4 in
    let (upgraded, t6) = take_text t5 in
    (
      record {
        kind = code_kind k;
        org = org;
        name = name;
        github_runner_id = id;
        agent_version = agent;
        previous_version = previous;
        template_version = tmpl;
        configured_at = configured;
        last_upgrade_at = upgraded;
      },
      t6,
    )

pub take_records : ℕ → Text → List RunnerRecord
unfolding take_fields
take_records (suc n) (k ∷ id ∷ tmpl ∷ t) =
    let (r, rest) = take_fields k id tmpl t in r ∷ take_records n rest
take_records _ _ = []

code_kind-kind_code : (k : Kind) → code_kind (kind_code k) ≡ k
unfolding code_kind kind_code
code_kind-kind_code persistent = refl
code_kind-kind_code ephemeral = refl

pub put_records : List RunnerRecord → Text
put_records [] = []
put_records (r ∷ rs) = put_record r (put_records rs)

take_records-put_record :
    (n : ℕ) (r : RunnerRecord) (rest : Text)
    → take_records (suc n) (put_record r rest) ≡ r ∷ take_records n rest
unfolding take_records put_record take_fields
take_records-put_record n r rest =
    rw
      (
        take_text-put_text r.org _,
        take_text-put_text r.name _,
        take_text-put_text r.agent_version _,
        take_text-put_text r.previous_version _,
        take_text-put_text r.configured_at _,
        take_text-put_text r.last_upgrade_at rest,
        code_kind-kind_code r.kind,
      )
      refl

take_records-put_records : (rs : List RunnerRecord) → take_records (length rs) (put_records rs) ≡ rs
unfolding put_records
take_records-put_records [] = unfold take_records in refl
take_records-put_records (r ∷ rs) =
    take_records-put_record (length rs) r (put_records rs)
    ∙ ap (λ tail. r ∷ tail) (take_records-put_records rs)

abbrev pub marshal : StateManifest → Text
marshal m = m.state_version ∷ length m.runners ∷ put_records m.runners

abbrev pub unmarshal : Text → Option StateManifest
unmarshal (v ∷ n ∷ t) = some (record { state_version = v; runners = take_records n t })
unmarshal _ = none

pub unmarshal-marshal : (m : StateManifest) → unmarshal (marshal m) ≡ some m
unmarshal-marshal m =
    ap (λ rs. some (record { state_version = m.state_version; runners = rs }))
      (take_records-put_records m.runners)

abbrev pub json : Json
json = record { marshal = marshal; unmarshal = unmarshal }
