-- ===== src/Synchronizer/Sync/Triples.antt =====
-- Rules for runs of the node: what a run leaves in the log when it ends with a result, and, with the
-- invariant, when it ends with a failure.
use digital_objects_network.Synchronizer.Log.{Log, LogError}
use digital_objects_network.Synchronizer.World.{
  Failure, World, Run, Gateway, query, transact, query_after, transact_after, written, kept, asked,
}
use digital_objects_network.Prelude.{
  Option, none, some, Bool, true, false, Result, ok, err, ◌≡◌, refl, if◌then◌else◌,
}
use digital_objects_network.Prelude.Exec.{pure, continue, ◌>>=◌}
use digital_objects_network.Synchronizer.Sync.Reads.{Good, Reads}

unfoldable pub Ends :
    (Log → Type 0) → {A : Type 0} → (A → Log → Type 0) → Result Failure A → Log → Type 0
Ends I Q (ok a) log = Q a log
Ends I Q (err e) log = I log

module _ (I : Log → Type 0) where
  -- A stronger condition before, a weaker one after.
  relax_Ends :
      {A : Type 0} (R Q : A → Log → Type 0)
      → ((a : A) (log : Log) → R a log → Q a log)
      → (r : Result Failure A) (log : Log) → Ends I R r log
      → Ends I Q r log
  unfolding Ends
  relax_Ends R Q k (ok a) log h = k a log h
  relax_Ends R Q k (err e) log h = h

  asked-Ends :
      {A : Type 0} (P : Log → Type 0) (f : Log → Result LogError A) (log : Log)
      → ((log : Log) → P log → I log)
      → P log
      → (r : Result LogError A) → f log ≡ r
      → Ends I (λ (a : A) (log : Log). P log × (f log ≡ ok a)) (asked r) log
  unfolding Ends
  asked-Ends P f log i p (ok a) e = (p, e)
  asked-Ends P f log i p (err x) e = i log p

  kept_lem :
      (P Q : Log → Type 0) (f : Log → Result LogError Log) (log : Log)
      → ((log : Log) → P log → I log)
      → ((log : Log) → Q log → I log)
      → ((log after : Log) → P log → f log ≡ ok after → Q after)
      → P log
      → (r : Result LogError Log) → f log ≡ r
      → I (kept r log)
  kept_lem P Q f log i j k p (ok after) e = j after (k log after p e)
  kept_lem P Q f log i j k p (err x) e = i log p

  read_Ends :
      {A : Type 0} (P : Log → Type 0) (G : A → Type 0) (r : Result Failure A) (log : Log)
      → ((log : Log) → P log → I log)
      → Good G r
      → P log
      → Ends I (λ a log. P log × G a) r log
  unfolding Ends Good
  read_Ends P G (ok a) log i g p = (p, g)
  read_Ends P G (err e) log i g p = i log p

module _ {E : Type 0} (I : Log → Type 0) where
  pub record Triple {A : Type 0} (P : Log → Type 0) (m : Run E A) (Q : A → Log → Type 0)
      : Type 0 where
    pub ends : (w : World E) → P w.log → Ends I Q (m w).0 (m w).1.log

  continue-Ends :
      {A B : Type 0} (R : A → Log → Type 0) (Q : B → Log → Type 0) (f : A → Run E B)
      → ((a : A) → Triple (R a) (f a) Q)
      → (r : Result Failure A) (w : World E) → Ends I R r w.log
      → Ends I Q (continue r f w).0 (continue r f w).1.log
  unfolding Ends
  continue-Ends R Q f k (ok a) w h = (k a).ends w h
  continue-Ends R Q f k (err e) w h = h

  pub bind_Triple :
      {A B : Type 0} {P : Log → Type 0} {R : A → Log → Type 0} {Q : B → Log → Type 0} {m : Run E A}
      {f : A → Run E B}
      → Triple P m R
      → ((a : A) → Triple (R a) (f a) Q)
      → Triple P (m >>= f) Q
  bind_Triple {R} {Q} {m} {f} h k = record {
    ends = λ w p. continue-Ends R Q f k (m w).0 (m w).1 (h.ends w p);
  }

  pub pure_Triple :
      {A : Type 0} {P : Log → Type 0} {Q : A → Log → Type 0} {a : A}
      → ((log : Log) → P log → Q a log)
      → Triple P (pure a) Q
  unfolding Ends
  pure_Triple k = record { ends = λ w p. k w.log p }

  -- What the condition says apart from the log.
  pub given_Triple :
      {A : Type 0} {P : Log → Type 0} {Q : A → Log → Type 0} {m : Run E A} (F : Type 0)
      → ((log : Log) → P log → F)
      → (F → Triple P m Q)
      → Triple P m Q
  given_Triple F g k = record { ends = λ w p. (k (g w.log p)).ends w p }

  pub if_Triple :
      {A : Type 0} {P : Log → Type 0} {Q : A → Log → Type 0} {m n : Run E A} (b : Bool)
      → ((b ≡ true) → Triple P m Q)
      → ((b ≡ false) → Triple P n Q)
      → Triple P (if b then m else n) Q
  if_Triple true h k = h refl
  if_Triple false h k = k refl

  pub relax_Triple :
      {A : Type 0} {P S : Log → Type 0} {R Q : A → Log → Type 0} {m : Run E A}
      → ((log : Log) → S log → P log)
      → Triple P m R
      → ((a : A) (log : Log) → R a log → Q a log)
      → Triple S m Q
  relax_Triple {R} {Q} {m} before h after = record {
    ends = λ w p. relax_Ends I R Q after (m w).0 (m w).1.log (h.ends w (before w.log p));
  }

  query_after-Ends :
      {A : Type 0} (P : Log → Type 0) (f : Log → Result LogError A)
      → ((log : Log) → P log → I log)
      → (fault : Option Bool) (w : World E) → P w.log
      → Ends I
          (λ (a : A) (log : Log). P log × (f log ≡ ok a))
          (query_after fault f w).0
          (query_after fault f w).1.log
  unfolding Ends
  query_after-Ends P f i (some b) w p = i w.log p
  query_after-Ends P f i none w p = asked-Ends I P f w.log i p (f w.log) refl

  written-Ends :
      (P Q : Log → Type 0) (f : Log → Result LogError Log) (w : World E)
      → ((log : Log) → P log → I log)
      → ((log after : Log) → P log → f log ≡ ok after → Q after)
      → P w.log
      → (r : Result LogError Log) → f w.log ≡ r
      → Ends I (λ u. Q) (written r w).0 (written r w).1.log
  unfolding Ends
  written-Ends P Q f w i k p (ok after) e = k w.log after p e
  written-Ends P Q f w i k p (err x) e = i w.log p

  transact_after-Ends :
      (P Q : Log → Type 0) (f : Log → Result LogError Log)
      → ((log : Log) → P log → I log)
      → ((log : Log) → Q log → I log)
      → ((log after : Log) → P log → f log ≡ ok after → Q after)
      → (fault : Option Bool) (w : World E) → P w.log
      → Ends I (λ u. Q) (transact_after fault f w).0 (transact_after fault f w).1.log
  unfolding Ends
  transact_after-Ends P Q f i j k (some true) w p = kept_lem I P Q f w.log i j k p (f w.log) refl
  transact_after-Ends P Q f i j k (some false) w p = i w.log p
  transact_after-Ends P Q f i j k none w p = written-Ends P Q f w i k p (f w.log) refl

  module _ (gateway : Gateway E) where
    pub query_Triple :
        {A : Type 0} {P : Log → Type 0} {f : Log → Result LogError A}
        → ((log : Log) → P log → I log)
        → Triple P (query gateway f) (λ a log. P log × (f log ≡ ok a))
    query_Triple {P} {f} i = record {
      ends = λ w p.
          query_after-Ends P f i (gateway.db_fault w.env).0
            (record w { env = (gateway.db_fault w.env).1 }) p;
    }

    pub transact_Triple :
        {P Q : Log → Type 0} {f : Log → Result LogError Log}
        → ((log : Log) → P log → I log)
        → ((log : Log) → Q log → I log)
        → ((log after : Log) → P log → f log ≡ ok after → Q after)
        → Triple P (transact gateway f) (λ u. Q)
    transact_Triple {P} {Q} {f} i j k = record {
      ends = λ w p.
          transact_after-Ends P Q f i j k (gateway.db_fault w.env).0
            (record w { env = (gateway.db_fault w.env).1 }) p;
    }

-- A run that only reads, in front of anything.
module _ {E : Type 0} {I : Log → Type 0} where
  pub read_Triple :
      {A : Type 0} {P : Log → Type 0} {G : A → Type 0} {m : Run E A}
      → ((log : Log) → P log → I log)
      → Reads m G
      → Triple I P m (λ a log. P log × G a)
  read_Triple {P} {G} {m} i h = record {
    ends = λ w p. let (e, g) = h.read w in read_Ends I P G (m w).0 (m w).1.log i g (rw e p);
  }
