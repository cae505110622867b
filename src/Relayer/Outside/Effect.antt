-- ===== src/Relayer/Outside/Effect.antt =====
-- What a piece of the worker's code writes: nothing, or one row, the last of its updates.
use mathlib.Core.Path.{subst}
use digital_objects_network.Prelude.{
  ◌≡◌, refl, sym, ◌∙◌, ap, List, Option, none, some, String, Result, ok, err, Bool, true, false,
  if◌then◌else◌, ◌⊎◌, inl, inr,
}
use digital_objects_network.Relayer.Job.{RelayJob}
use digital_objects_network.Relayer.Store.{update_row}
use digital_objects_network.Relayer.Store
use digital_objects_network.Relayer.Store.Rows.{put_job-rows, update_row_twice}
use digital_objects_network.Relayer.Outside.{
  Outside, World, Exec, pure, fail, logged, continue, attempt, ask, read, statement_after, put_job,
  ◌>>=◌,
}

-- The rows are as before, or one row with the given key has become a job that satisfies `Q`.
abbrev pub Writes : (RelayJob → Type 0) → String → List RelayJob → List RelayJob → Type 0
Writes Q id rows rows' =
    (rows' ≡ rows) ⊎ ((job : RelayJob) × (job.job_id ≡ id) × Q job × (rows' ≡ update_row job rows))

module _ (Q : RelayJob → Type 0) (id : String) where
  Writes-trans : (a b c : List RelayJob) → Writes Q id a b → Writes Q id b c → Writes Q id a c
  Writes-trans a b c (inl e) (inl f) = inl (f ∙ e)
  Writes-trans a b c (inl e) (inr (job, k, q, f)) = inr (job, k, q, f ∙ ap (update_row job) e)
  Writes-trans a b c (inr (job, k, q, e)) (inl f) = inr (job, k, q, f ∙ e)
  Writes-trans a b c (inr (job, k, q, e)) (inr (job', k', q', f)) =
      inr (job', k', q', f ∙ ap (update_row job') e ∙ update_row_twice job job' a (k ∙ sym k'))

  module _ {E : Type 0} where
    pub record Effect {A : Type 0} (m : Exec E A) : Type 0 where
      pub writes : (w : World E) → Writes Q id w.rows (m w).1.rows

    pub Effect-pure : {A : Type 0} (a : A) → Effect (pure a)
    Effect-pure a = record { writes = λ w. inl refl }

    pub Effect-fail : {A : Type 0} (e : String) → Effect (fail {A = A} e)
    Effect-fail e = record { writes = λ w. inl refl }

    pub Effect-ask : {A : Type 0} (f : E → Result String A × E) → Effect (ask f)
    Effect-ask f = record { writes = λ w. inl refl }

    pub Effect-read : {A : Type 0} (f : E → A × E) → Effect (read f)
    Effect-read f = record { writes = λ w. inl refl }

    pub Effect-attempt : {A : Type 0} {m : Exec E A} → Effect m → Effect (attempt m)
    Effect-attempt h = record { writes = h.writes }

    pub Effect-logged : {m : Exec E (Unit {0})} → Effect m → Effect (logged m)
    Effect-logged h = record { writes = h.writes }

    continue-Writes :
        {A B : Type 0} (r : Result String A) (f : A → Exec E B) (a : List RelayJob) (w : World E)
        → Writes Q id a w.rows
        → ((x : A) → Effect (f x))
        → Writes Q id a (continue r f w).1.rows
    continue-Writes (ok x) f a w h k = Writes-trans a w.rows _ h ((k x).writes w)
    continue-Writes (err e) f a w h k = h

    pub Effect-bind :
        {A B : Type 0} {m : Exec E A} {f : A → Exec E B}
        → Effect m
        → ((x : A) → Effect (f x))
        → Effect (m >>= f)
    Effect-bind {m} {f} h k = record {
      writes = λ w. continue-Writes (m w).0 f w.rows (m w).1 (h.writes w) k;
    }

    pub Effect-if :
        {A : Type 0} (b : Bool) {m n : Exec E A} → Effect m → Effect n → Effect (if b then m else n)
    Effect-if true h k = h
    Effect-if false h k = k

    statement_after-Writes :
        (job : RelayJob) (fault : Option String) (w : World E)
        → job.job_id ≡ id
        → Q job
        → Writes Q id w.rows (statement_after fault (Store.put_job job) w).1.rows
    statement_after-Writes job none w k q = inr (job, k, q, put_job-rows job w.rows)
    statement_after-Writes job (some e) w k q = inl refl

    pub Effect-put_job :
        (outside : Outside E) (job : RelayJob)
        → job.job_id ≡ id
        → Q job
        → Effect (put_job outside job)
    unfolding put_job
    Effect-put_job outside job k q = record {
      writes = λ w. statement_after-Writes job (outside.db_fault w.env).0 _ k q;
    }

ok-injective : {A : Type 0} {x y : A} {r : Result String A} → r ≡ ok x → r ≡ ok y → x ≡ y
ok-injective e f = cc

module _ (Q : RelayJob → Type 0) (id : String) {E : Type 0} where
  -- Besides what it writes, what holds of the value it returns.
  pub record Yields {A : Type 0} (P : A → Type 0) (m : Exec E A) : Type 0 where
    pub effect : Effect Q id m
    pub result : (w : World E) (x : A) → (m w).0 ≡ ok x → P x

  pub Yields-pure : {A : Type 0} (P : A → Type 0) (a : A) → P a → Yields P (pure a)
  Yields-pure P a p = record {
    effect = Effect-pure Q id a;
    result = λ w x e. subst P (ok-injective {r = ok a} refl e) p;
  }

  continue-result :
      {A B : Type 0} (P : B → Type 0) (r : Result String A) (f : A → Exec E B) (w : World E) (y : B)
      → ((x : A) → Yields P (f x))
      → (continue r f w).0 ≡ ok y
      → P y
  continue-result P (ok x) f w y k e = (k x).result w y e
  continue-result P (err e') f w y k e = cc

  pub Yields-bind :
      {A B : Type 0} (P : B → Type 0) {m : Exec E A} {f : A → Exec E B}
      → Effect Q id m
      → ((x : A) → Yields P (f x))
      → Yields P (m >>= f)
  Yields-bind P {m} {f} h k = record {
    effect = Effect-bind Q id h (λ x. (k x).effect);
    result = λ w y e. continue-result P (m w).0 f (m w).1 y k e;
  }

  pub Yields-if :
      {A : Type 0} (P : A → Type 0) (b : Bool) {m n : Exec E A}
      → (b ≡ true → Yields P m)
      → Yields P n
      → Yields P (if b then m else n)
  Yields-if P true h k = h refl
  Yields-if P false h k = k

  continue-yields :
      {A B : Type 0} (P : A → Type 0) (r : Result String A) (f : A → Exec E B) (a : List RelayJob)
      (w : World E)
      → Writes Q id a w.rows
      → ((x : A) → r ≡ ok x → P x)
      → ((x : A) → P x → Effect Q id (f x))
      → Writes Q id a (continue r f w).1.rows
  continue-yields P (ok x) f a w h p k = Writes-trans Q id a w.rows _ h ((k x (p x refl)).writes w)
  continue-yields P (err e) f a w h p k = h

  pub Effect-bind_Yields :
      {A B : Type 0} (P : A → Type 0) {m : Exec E A} {f : A → Exec E B}
      → Yields P m
      → ((x : A) → P x → Effect Q id (f x))
      → Effect Q id (m >>= f)
  Effect-bind_Yields P {m} {f} h k = record {
    writes = λ w.
        continue-yields P (m w).0 f w.rows (m w).1 (h.effect.writes w) (λ x e. h.result w x e) k;
  }
