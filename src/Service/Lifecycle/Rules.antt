-- ===== src/Service/Lifecycle/Rules.antt =====
-- What an operation may call: one rule for each way to build an operation.
use srm.Prelude.{ℕ, ◌≡◌, refl, Bool, true, false, Option, none, some, if◌then◌else◌, All, Text}
use srm.Config.{Config}
use srm.Service.Manifest.{RunnerRecord, Kind}
use srm.Service.Lifecycle.Model.{
  Failure, Call, Site, Trail, Result, ok, err, Op, go_on, ◌>>=◌, ◌>>◌, pure, raise, guard, or_raise,
  ask, query, act, record_created, forget, attempt, put_entry, drop_entry,
}

-- On the site `w`, every call that `m` makes satisfies `Q`.
pub record Calls {A : Type 0} (w : Site) (Q : Call → Type 0) (m : Op A) : Type 0 where
  pub at : (t : Trail) → All Q t.log → All Q (m w t).1.log

module _ {w : Site} {Q : Call → Type 0} where
  pub Calls-pure : {A : Type 0} (a : A) → Calls w Q (pure a)
  unfolding pure
  Calls-pure a = record { at = λ t h. h }

  pub Calls-raise : {A : Type 0} (e : Failure) → Calls w Q (raise {A = A} e)
  unfolding raise
  Calls-raise e = record { at = λ t h. h }

  pub Calls-guard : (b : Bool) (e : Failure) → Calls w Q (guard b e)
  unfolding guard
  Calls-guard b e = record { at = λ t h. h }

  pub Calls-or_raise : {A : Type 0} (o : Option A) (e : Failure) → Calls w Q (or_raise o e)
  unfolding or_raise
  Calls-or_raise o e = record { at = λ t h. h }

  pub Calls-ask : {A : Type 0} (f : Config → A) → Calls w Q (ask f)
  unfolding ask
  Calls-ask f = record { at = λ t h. h }

  pub Calls-query : {A : Type 0} (f : Site → ℕ → A) → Calls w Q (query f)
  unfolding query
  Calls-query f = record { at = λ t h. h }

  pub Calls-act : {A : Type 0} (c : Call) (f : Site → ℕ → A) → Q c → Calls w Q (act c f)
  unfolding act
  Calls-act c f q = record { at = λ t h. (q, h) }

  pub Calls-record_created :
      (rec : RunnerRecord) → Q (put_entry rec) → Calls w Q (record_created rec)
  unfolding record_created
  Calls-record_created rec q = record { at = λ t h. (q, h) }

  pub Calls-forget :
      (kind : Kind) (org name : Text)
      → Q (drop_entry kind org name)
      → Calls w Q (forget kind org name)
  unfolding forget
  Calls-forget kind org name q = record { at = λ t h. (q, h) }

  pub Calls-attempt : {A : Type 0} (m : Op A) → Calls w Q m → Calls w Q (attempt m)
  unfolding attempt
  Calls-attempt m h = record { at = λ t k. h.at t k }

  pub Calls-if :
      {A : Type 0} (b : Bool) (m n : Op A)
      → (b ≡ true → Calls w Q m)
      → (b ≡ false → Calls w Q n)
      → Calls w Q (if b then m else n)
  Calls-if true m n hm hn = hm refl
  Calls-if false m n hm hn = hn refl

  pub Calls-bind :
      {A B : Type 0} (m : Op A) (f : A → Op B)
      → Calls w Q m
      → ((a : A) → Calls w Q (f a))
      → Calls w Q (m >>= f)
  unfolding ◌>>=◌
  Calls-bind m f hm hf = record { at = λ t h. next (m w t) (hm.at t h) }
    where
      next : (o : Result _ × Trail) → All Q o.1.log → All Q (go_on o (λ a t'. f a w t')).1.log
      next (ok a, t') h = (hf a).at t' h
      next (err e, t') h = h

  pub Calls-then :
      {A B : Type 0} (m : Op A) (n : Op B) → Calls w Q m → Calls w Q n → Calls w Q (m >> n)
  Calls-then m n hm hn = Calls-bind m _ hm (λ _. hn)

  -- What follows may use the configuration
  pub Calls-bind_ask :
      {A B : Type 0} (f : Config → A) (g : A → Op B)
      → Calls w Q (g (f w.cfg))
      → Calls w Q (ask f >>= g)
  unfolding ◌>>=◌ ask
  Calls-bind_ask f g h = record { at = λ t k. h.at t k }

  -- or the answer
  pub Calls-bind_query :
      {A B : Type 0} (f : Site → ℕ → A) (g : A → Op B)
      → ((n : ℕ) → Calls w Q (g (f w n)))
      → Calls w Q (query f >>= g)
  unfolding ◌>>=◌ query
  Calls-bind_query f g h = record { at = λ t k. (h t.now).at _ k }

  -- or that a guard was passed
  pub Calls-bind_guard :
      {B : Type 0} (b : Bool) (e : Failure) (g : Unit {0} → Op B)
      → (b ≡ true → Calls w Q (g tt))
      → Calls w Q (guard b e >>= g)
  unfolding ◌>>=◌ guard
  Calls-bind_guard true e g h = record { at = λ t k. (h refl).at t k }
  Calls-bind_guard false e g h = record { at = λ t k. k }

  -- or that an option has a value
  pub Calls-bind_or_raise :
      {A B : Type 0} (o : Option A) (e : Failure) (g : A → Op B)
      → ((a : A) → o ≡ some a → Calls w Q (g a))
      → Calls w Q (or_raise o e >>= g)
  unfolding ◌>>=◌ or_raise
  Calls-bind_or_raise none e g h = record { at = λ t k. k }
  Calls-bind_or_raise (some a) e g h = record { at = λ t k. (h a refl).at t k }

pub ruleset calls_rules = (
  Calls-pure, Calls-raise, Calls-guard, Calls-or_raise, Calls-ask, Calls-query, Calls-attempt,
  Calls-if, Calls-bind,
)
