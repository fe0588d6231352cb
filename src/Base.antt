-- ===== src/Base.antt =====
-- The names that every component shares: those of the libraries, passed on, and two children.
mod Tests
mod Lists
mod Words
mod Maybe
mod Int
pub use Tests.*
pub use Lists.*
pub use Words.*
pub use Maybe.*
pub use Int.*
pub use Prim.Native.Nat.{
  ℕ, zero, suc, ◌+◌, ◌-◌, ◌*◌, ◌/◌, ◌%◌, ◌^◌, ◌≤◌, ◌<◌, min, max, bit_and, bit_or, bit_xor,
}
pub use mathlib.Core.Path.{◌≡◌, refl, sym, ap, ap₂, subst, ◌∙◌}
pub use mathlib.Core.Logic.{◌≢◌, ◌↔◌, ◌⊎◌, inl, inr}
pub use mathlib.Core.Bool.{Bool, true, false, not, ◌&&◌, ◌||◌}
pub use mathlib.Core.Option.{Option, none, some}
pub use mathlib.Core.List.{List, [], ◌∷◌, ◌++◌, append-nil, append_assoc}
pub use native.Mathlib.Omega.{arith}
pub use native.Mathlib.Nat.{mod-eq_of_lt, mod-add-mod, mod-eq-sub-mod}
unfoldable pub use native.Mathlib.Decide.{dec_lt, dec_le, ℕ_discrete}
