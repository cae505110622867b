-- ===== src/Prelude.antt =====
-- What every component shares: the library's names passed on, Boolean tests, lists measured by
-- native numbers, results of fallible code and the machine integers of the Rust sources.
mod Tests
mod Lists
mod Outcome
mod Digest
pub mod Int
pub mod Exec
pub use Tests.*
unfoldable pub use Lists.{replicate}
pub use Lists.*
pub use Outcome.*
pub use Digest.*
unfoldable pub use Digest.{hash_eq}
pub use Int.{ℤ, pos, negsuc}
pub use Prim.Native.Nat.{ℕ, zero, suc, ◌+◌, ◌-◌, ◌*◌, ◌/◌, ◌%◌, ◌^◌, ◌≤◌, ◌<◌, min, max}
pub use mathlib.Core.Path.{◌≡◌, refl, sym, ap, ◌∙◌}
pub use mathlib.Core.Logic.{◌≢◌, ◌↔◌, ◌⊎◌, inl, inr}
pub use mathlib.Core.Bool.{Bool, true, false, ◌&&◌, ◌||◌, not}
pub use mathlib.Core.Option.{Option, none, some}
pub use mathlib.Core.List.{List, [], ◌∷◌, ◌++◌, map, append-nil, append_assoc, map-append}
pub use native.Mathlib.Omega.{arith}
pub use Prim.Native.String.{String}
pub use text.Mathlib.Text.{◌==◌ as str_eq}
pub use text.Mathlib.TextEquality.{eq_iff as str_eq_iff}
