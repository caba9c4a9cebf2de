-- ===== src/Prelude.antt =====
-- The names that the other modules share: the libraries', passed on, and those of the children.
mod Tests
mod Lists
mod Orders
mod Sort
mod Prefixes
mod Sets
mod Texts
mod Results
pub mod Json
pub mod Options
pub mod Maps
pub use Tests.*
pub use Lists.*
pub use Orders.*
unfoldable pub use Sort.{sorted_by, insert_by}
unfoldable pub use Sets.{contains, to_set, has_duplicates, from_keys}
pub use Sort.*
pub use Prefixes.*
pub use Sets.*
pub use Texts.*
unfoldable pub use Texts.{strip, join}
pub use Results.*
pub use Prim.Native.Nat.{ℕ, zero, suc, ◌+◌, ◌-◌, ◌*◌, ◌/◌, ◌%◌, ◌≤◌, ◌<◌, Ordering}
pub use Prim.Native.String.{String}
pub use mathlib.Core.Path.{◌≡◌, refl, sym, ap, ◌∙◌, subst}
pub use mathlib.Core.Logic.{◌≢◌, ◌↔◌, ◌⊎◌, inl, inr, ⊎_elim}
pub use mathlib.Core.Bool.{Bool, true, false, not, ◌&&◌, ◌||◌}
pub use mathlib.Core.Option.{Option, none, some}
pub use mathlib.Core.List.{
  List, [], ◌∷◌, ◌++◌, map, filter_map, Memᴰ, Perm, append_assoc, append-nil,
}
unfoldable pub use mathlib.Core.List.{reverse}
pub use native.Mathlib.Omega.{arith}
