-- ===== src/Synchronizer/Sync/Reads.antt =====
-- Rules for runs of the node that leave the log alone: the fetches, with what their results satisfy.
use digital_objects_network.Synchronizer.Beacon.{fetch_once_available, found_or}
use digital_objects_network.Synchronizer.World.{Failure, World, Run, ask, peek}
use digital_objects_network.Prelude.{
  ℕ, zero, suc, Option, none, some, Bool, true, false, Result, ok, err, ◌≡◌, refl, if◌then◌else◌,
  ◌∙◌,
}
use digital_objects_network.Prelude.Exec.{pure, lift, fail, ensure, continue, ◌>>=◌}

-- A run that leaves the log alone, and whose result is good.
unfoldable pub Good : {A : Type 0} → (A → Type 0) → Result Failure A → Type 0
Good G (ok a) = G a
Good G (err e) = Unit {0}

Good_any : {A : Type 0} (r : Result Failure A) → Good (λ a. Unit {0}) r
unfolding Good
Good_any (ok a) = tt
Good_any (err e) = tt

relax_Good :
    {A : Type 0} (G H : A → Type 0)
    → ((a : A) → G a → H a)
    → (r : Result Failure A) → Good G r
    → Good H r
unfolding Good
relax_Good G H k (ok a) g = k a g
relax_Good G H k (err e) g = tt

Good_ok : {A : Type 0} (r s : Result Failure A) → r ≡ s → Good (λ a. r ≡ ok a) s
unfolding Good
Good_ok r (ok a) h = h
Good_ok r (err e) h = tt

module _ {E : Type 0} where
  pub record Reads {A : Type 0} (m : Run E A) (G : A → Type 0) : Type 0 where
    pub read : (w : World E) → ((m w).1.log ≡ w.log) × Good G (m w).0

  continue_Reads :
      {A B : Type 0} (G : A → Type 0) (H : B → Type 0) (f : A → Run E B)
      → ((a : A) → G a → Reads (f a) H)
      → (r : Result Failure A) (w : World E) → Good G r
      → ((continue r f w).1.log ≡ w.log) × Good H (continue r f w).0
  unfolding Good
  continue_Reads G H f k (ok a) w g = (k a g).read w
  continue_Reads G H f k (err e) w g = (refl, tt)

  pub bind_Reads :
      {A B : Type 0} {G : A → Type 0} {H : B → Type 0} {m : Run E A} {f : A → Run E B}
      → Reads m G
      → ((a : A) → G a → Reads (f a) H)
      → Reads (m >>= f) H
  bind_Reads {G} {H} {m} {f} h k = record {
    read = λ w.
        let (e, g) = h.read w in
        let (e₁, g₁) = continue_Reads G H f k (m w).0 (m w).1 g in (e₁ ∙ e, g₁);
  }

  pub pure_Reads : {A : Type 0} {G : A → Type 0} {a : A} → G a → Reads (pure a) G
  unfolding Good
  pure_Reads g = record { read = λ w. (refl, g) }

  pub fail_Reads : {A : Type 0} {G : A → Type 0} {e : Failure} → Reads (fail {A = A} e) G
  unfolding Good
  fail_Reads = record { read = λ w. (refl, tt) }

  pub lift_ok : {A : Type 0} (r : Result Failure A) → Reads (lift r) (λ a. r ≡ ok a)
  lift_ok r = record { read = λ w. (refl, Good_ok r r refl) }

  pub lift_Reads : {A : Type 0} {r : Result Failure A} → Reads (lift r) (λ a. Unit {0})
  lift_Reads {r} = record { read = λ w. (refl, Good_any r) }

  answered_Good :
      {A : Type 0} (f : E → Result Failure A × E) (e : E) (r : Result Failure A)
      → (f e).0 ≡ r
      → Good (λ a. (e : E) × ((f e).0 ≡ ok a)) r
  unfolding Good
  answered_Good f e (ok a) h = (e, h)
  answered_Good f e (err x) h = tt

  pub ask_Reads :
      {A : Type 0} (f : E → Result Failure A × E) → Reads (ask f) (λ a. (e : E) × ((f e).0 ≡ ok a))
  ask_Reads f = record { read = λ w. (refl, answered_Good f w.env (f w.env).0 refl) }

  pub peek_Reads : {A : Type 0} (f : E → A × E) → Reads (peek f) (λ a. Unit {0})
  unfolding Good
  peek_Reads f = record { read = λ w. (refl, tt) }

  pub ensure_Reads : (b : Bool) (e : Failure) → Reads (ensure b e) (λ u. Unit {0})
  ensure_Reads true e = pure_Reads tt
  ensure_Reads false e = fail_Reads

  pub if_Reads :
      {A : Type 0} {G : A → Type 0} {m n : Run E A} (b : Bool)
      → ((b ≡ true) → Reads m G)
      → ((b ≡ false) → Reads n G)
      → Reads (if b then m else n) G
  if_Reads true h k = h refl
  if_Reads false h k = k refl

  pub relax_Reads :
      {A : Type 0} {G H : A → Type 0} {m : Run E A} → Reads m G → ((a : A) → G a → H a) → Reads m H
  relax_Reads {G} {H} {m} h k = record {
    read = λ w. let (e, g) = h.read w in (e, relax_Good G H k (m w).0 g);
  }

  found_or_Reads :
      {A : Type 0} {G : A → Type 0} {again : Run E A} (o : Option A)
      → ((a : A) → o ≡ some a → G a)
      → Reads again G
      → Reads (found_or again o) G
  found_or_Reads none k h = h
  found_or_Reads (some a) k h = pure_Reads (k a refl)

  pub fetch_once_available_Reads :
      {A : Type 0} {G : A → Type 0} (e : Failure) (fetch : Run E (Option A))
      → Reads fetch (λ o. (a : A) → o ≡ some a → G a)
      → (retries : ℕ) → Reads (fetch_once_available e fetch retries) G
  unfolding fetch_once_available
  fetch_once_available_Reads e fetch h zero = bind_Reads h λ o k. found_or_Reads o k fail_Reads
  fetch_once_available_Reads e fetch h (suc n) =
      bind_Reads h λ o k. found_or_Reads o k (fetch_once_available_Reads e fetch h n)
