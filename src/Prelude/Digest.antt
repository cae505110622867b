-- ===== src/Prelude/Digest.antt =====
-- pod2's `Hash`: four field elements, each given by its canonical value. The program builds hashes
-- elsewhere and only compares them.
use Prim.Native.Nat.{ℕ}
use mathlib.Core.Path.{◌≡◌, refl}
use mathlib.Core.Logic.{◌↔◌}
use mathlib.Core.Bool.{Bool, true, ◌&&◌}
use native.Mathlib.Omega.{arith}
use digital_objects_network.Prelude.Tests.{◌==◌}

pub record Hash : Type 0 where
  pub e0 : ℕ
  pub e1 : ℕ
  pub e2 : ℕ
  pub e3 : ℕ

unfoldable pub hash_eq : Hash → Hash → Bool
hash_eq a b = a.e0 == b.e0 && a.e1 == b.e1 && a.e2 == b.e2 && a.e3 == b.e3

pub hash_eq_iff : (a b : Hash) → (hash_eq a b ≡ true) ↔ (a ≡ b)
unfolding hash_eq
hash_eq_iff a b = ground arith

pub hash_eq_refl : (a : Hash) → hash_eq a a ≡ true
hash_eq_refl a = (hash_eq_iff a a).1 refl
