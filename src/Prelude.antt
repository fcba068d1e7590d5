-- ===== src/Prelude.antt =====
-- The names that the other modules share: those of the libraries and of its children.
pub mod Tests
pub mod Lists
pub mod Int
pub mod Text
pub mod Table
pub use Tests.{
  ltb, leb, ◌==◌, if◌then◌else◌, ltb→lt, lt→ltb, leb→le, ==_iff, Bool-cases, Option-cases, if-both,
}
pub use Lists.{
  length, get_elem?, set, get_or, take, drop, replicate, All, length-append, length-set,
  get_or-set_self, get_or-set_ne, take-append-drop, length-take, length-drop, length-replicate,
  All-append, All-imp,
}
pub use Int.{
  ℤ, pos, negsuc, pos_part, neg_part, ◌+ℤ◌, ◌-ℤ◌, ◌<ℤ◌, ltb_ℤ, eq_of_parts, eq_of_not_lt, ne_of_lt,
  ne_of_gt, int_laws, to_int-small,
}
unfoldable pub use Int.{to_int}
pub use Text.{Bytes, codes, str_eq_iff, str_eq_refl, IsText, c_string-IsText, c_string_text}
unfoldable pub use Text.{str_eq, c_string, str_case_eq, starts_with, has_part}
pub use Table.{scan_sound}
unfoldable pub use Table.{scan}
pub use Prim.Native.Nat.{ℕ, zero, suc, ◌+◌, ◌-◌, ◌*◌, ◌/◌, ◌%◌, ◌^◌, ◌≤◌, ◌<◌, min}
pub use mathlib.Core.Path.{◌≡◌, refl, sym, ap, subst, ◌∙◌}
pub use mathlib.Core.Logic.{◌≢◌, ◌↔◌, ◌⊎◌, inl, inr}
pub use mathlib.Core.Bool.{Bool, true, false, not, ◌&&◌, ◌||◌}
pub use mathlib.Core.Option.{Option, none, some}
pub use mathlib.Core.List.{List, [], ◌∷◌, ◌++◌, map, append_assoc, append-nil}
pub use native.Mathlib.Omega.{arith}
pub use Prim.Native.String.{String}
