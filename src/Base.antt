-- ===== src/Base.antt =====
-- The names that the other modules share: the libraries', passed on, and those of the children.
mod Tests
mod Lists
mod Utf8
mod Text
mod Maps
pub mod Int
pub mod Base64
mod Parts
unfoldable pub use Tests.*
unfoldable pub use Lists.*
unfoldable pub use Text.{
  bytes_lt, has_prefix, index, contains_text, index_any, split, split_n2, join, trim_left,
  trim_right, trim, trim_suffix, remove_first, fields,
}
unfoldable pub use Utf8.{decode_rune, runes_from, rune_text, chars_from, is_space}
pub use Utf8.{
  rune_error, rune_self, within, Rune, runes, chars, singletons, IsAscii, HighFor,
  decode_rune_ascii, runes_ascii, rune_text_ascii, chars_ascii, decode_rune-HighFor,
}
pub use Parts.*
unfoldable pub use Maps.{lookup, insert, delete, has_key}
pub use Maps.{lookup-insert, lookup-delete, map_laws, keys}
pub use Prim.Native.Nat.{ℕ, zero, suc, ◌+◌, ◌-◌, ◌*◌, ◌/◌, ◌%◌, ◌^◌, ◌≤◌, ◌<◌, min}
pub use Prim.Native.String.{String}
pub use mathlib.Core.Path.{◌≡◌, refl, sym, ap, ◌∙◌}
pub use mathlib.Core.Logic.{◌≢◌, ◌↔◌, ◌⊎◌, inl, inr}
pub use mathlib.Core.Bool.{Bool, true, false, not, ◌&&◌, ◌||◌}
pub use mathlib.Core.Option.{Option, none, some}
pub use mathlib.Core.List.{List, [], ◌∷◌, ◌++◌, map, append-nil, append_assoc}
pub use native.Mathlib.Omega.{arith}
