-- ===== src/Base.antt =====
-- The names that the other modules share: the libraries', passed on, and those of the children.
mod Conditions
mod Outcome
mod Chains
mod Lists
pub use Conditions.*
pub use Outcome.*
pub use Chains.{
  bind-returned, bind-threw, then-returned, then-threw, bind-ok, then-ok, bind-Keeps, then-Keeps,
  bind-Throws, then-Throws, pure-Keeps, throw-Keeps, throw_if-Keeps, throw_if-Throws,
  throw_if-false, ok-err, same_answer, same_error,
}
unfoldable pub use Chains.{Keeps, Throws}
pub use Lists.*
pub use Prim.Native.Nat.{ℕ, zero, suc, ◌+◌, ◌-◌, ◌*◌, ◌/◌, ◌%◌, ◌^◌, ◌≤◌, ◌<◌, min, max}
pub use mathlib.Core.Path.{◌≡◌, refl, sym, ap, ◌∙◌, subst, subst₂}
pub use mathlib.Core.Logic.{◌≢◌, ◌↔◌, ◌⊎◌, inl, inr, ite}
pub use mathlib.Core.Bool.{Bool, true, false, ◌&&◌, ◌||◌, not}
pub use mathlib.Core.Option.{Option, none, some}
pub use mathlib.Core.List.{List, [], ◌∷◌, ◌++◌, map}
pub use native.Mathlib.Omega.{arith}
unfoldable pub use native.Mathlib.Decide.{ℕ_discrete}
