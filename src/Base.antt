-- ===== src/Base.antt =====
-- Names that the modules share: the libraries', passed on, and those of its children.
mod Tests
mod Lists
mod Text
mod Maps
mod Format
mod Tables
mod Letters
mod Trimmed
mod Pigeonhole
mod Passing
unfoldable pub use Tests.*
unfoldable pub use Lists.*
unfoldable pub use Text.*
unfoldable pub use Maps.*
unfoldable pub use Format.*
unfoldable pub use Tables.*
unfoldable pub use Letters.*
unfoldable pub use Trimmed.*
unfoldable pub use Pigeonhole.*
unfoldable pub use Passing.*
pub use Prim.Native.Nat.{ℕ, zero, suc, ◌+◌, ◌-◌, ◌*◌, ◌/◌, ◌%◌, ◌^◌, ◌≤◌, ◌<◌, min}
pub use Prim.Native.Char.{Char, code}
pub use Prim.Native.String.{String}
pub use mathlib.Core.Path.{◌≡◌, refl, sym, ap, subst, ◌∙◌}
pub use mathlib.Core.Logic.{◌≢◌, ◌↔◌, ◌⊎◌, inl, inr}
pub use mathlib.Core.Bool.{Bool, true, false, not, ◌&&◌, ◌||◌}
pub use mathlib.Core.Option.{Option, none, some}
pub use mathlib.Core.List.{List, [], ◌∷◌, ◌++◌, map, Memᴰ, append-nil, append_assoc}
pub use native.Mathlib.Omega.{arith}
