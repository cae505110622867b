-- ===== src/Synchronizer/Apply/Distinct.antt =====
-- Lists of hashes without repetitions, by the test `has`.
use digital_objects_network.Synchronizer.Apply.{has}
use digital_objects_network.Prelude.{
  Hash, List, ◌++◌, ◌∷◌, ◌≡◌, false, [], ◌||◌, hash_eq, arith, hash_eq_iff, refl,
}

unfoldable pub NoDup : List Hash → Type 0
NoDup [] = Unit
NoDup (x ∷ xs) = (has x xs ≡ false) × NoDup xs

-- Each of the hashes is new when it is appended to the list.
unfoldable pub Appendable : List Hash → List Hash → Type 0
Appendable xs [] = Unit
Appendable xs (y ∷ ys) = (has y xs ≡ false) × Appendable (xs ++ y ∷ []) ys

pub has-append : (h : Hash) (xs ys : List Hash) → has h (xs ++ ys) ≡ (has h xs || has h ys)
unfolding has
has-append h [] ys = refl
has-append h (x ∷ xs) ys = ground (arith, has-append h xs ys)

pub has_last : (h v : Hash) (xs : List Hash) → has h (xs ++ v ∷ []) ≡ (has h xs || hash_eq v h)
unfolding has
has_last h v xs = ground (arith, has-append h xs (v ∷ []))

pub NoDup-last : (v : Hash) (xs : List Hash) → NoDup xs → has v xs ≡ false → NoDup (xs ++ v ∷ [])
unfolding NoDup has
NoDup-last v [] h k = (refl, tt)
NoDup-last v (x ∷ xs) h k = (
  ground (arith, has_last x v xs, hash_eq_iff x v, hash_eq_iff v x),
  NoDup-last v xs h.1 (ground arith),
)
