-- ===== src/Prelude.antt =====
-- Names that the modules of this library share: the libraries', passed on, and those of the
-- children: Boolean tests, lists over the native numbers, machine words and text.
mod Tests
mod Lists
mod Maps
mod Words
mod Ints
mod Chars
mod Strings
mod Texts
pub use Tests.*
pub use Lists.*
pub use Maps.*
unfoldable pub use Words.*
unfoldable pub use Ints.*
unfoldable pub use Chars.*
unfoldable pub use Strings.*
pub use Texts.*
pub use Prim.Native.Nat.{
  ℕ, zero, suc, ◌+◌, ◌-◌, ◌*◌, ◌/◌, ◌%◌, ◌^◌, ◌≤◌, ◌<◌, min, max, bit_and, bit_or, bit_xor,
}
pub use mathlib.Core.Path.{◌≡◌, refl, sym, ap, ap₂, subst, ◌∙◌, fun_ext, ◌≡⟨◌⟩◌, ◌∎}
pub use mathlib.Core.Logic.{◌≢◌, ◌↔◌, ◌⊎◌, inl, inr}
pub use mathlib.Core.Bool.{Bool, true, false, not, ◌&&◌, ◌||◌, false≢true}
pub use mathlib.Core.Option.{Option, none, some}
pub use mathlib.Core.List.{List, [], ◌∷◌, ◌++◌, map, append-nil, append_assoc}
pub use native.Mathlib.Omega.{arith}
pub use native.Mathlib.Nat.{zero-add, add-zero, add_comm, add_assoc}
