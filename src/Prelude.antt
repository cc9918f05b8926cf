-- ===== src/Prelude.antt =====
-- The names that the other modules share: the libraries', passed on, and those of the children.
mod Tests
mod Lists
mod Words
pub mod Text
pub mod Decimal
pub mod Sort
pub mod Trim
pub mod Results
pub use Tests.*
pub use Lists.*
unfoldable pub use Words.{add_u64, mul_u64}
pub use Words.{
  ℤ, pos, negsuc, as_i64, u16_mod, u32_mod, u64_mod, wrap_u64, add_u64_exact, mul_u64_exact,
}
pub use Prim.Native.Nat.{ℕ, zero, suc, ◌+◌, ◌-◌, ◌*◌, ◌/◌, ◌%◌, ◌^◌, ◌≤◌, ◌<◌}
pub use mathlib.Core.Path.{◌≡◌, refl, sym, ap, ap₂, subst, ◌∙◌}
pub use mathlib.Core.Logic.{◌≢◌, ◌↔◌, ◌⊎◌, inl, inr, if_pos, if_neg}
unfoldable pub use mathlib.Core.Logic.{ite}
pub use mathlib.Core.Bool.{Bool, true, false, Bool-set}
unfoldable pub use mathlib.Core.Bool.{not, ◌&&◌, ◌||◌}
pub use mathlib.Core.Option.{Option, none, some}
pub use mathlib.Core.List.{List, [], ◌∷◌, Mem, Perm, Nodup}
unfoldable pub use mathlib.Core.List.{◌++◌, map}
pub use mathlib.Core.List.{
  append-nil, append_assoc, mem-cons, mem-cons_self, mem-cons_of_mem, not-mem-nil, map-append,
  mem-append, Mem-prop, mem-map_of_mem, exists_of_mem-map, Nodup-cons, Nodup-nil, Nodup-append,
}
pub use native.Mathlib.Omega.{arith}
unfoldable pub use native.Mathlib.Decide.{dec_lt, dec_le, ℕ_discrete}
