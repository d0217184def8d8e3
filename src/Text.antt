-- ===== src/Text.antt =====
-- The texts that the code compares: codes of scooters, names, addresses, tokens.
pub use Prim.Native.String.{String}
pub use text.Mathlib.Text.{◌==◌ as text_eq}
use mad_devs_transport_shari.Prelude.{Bool, true, not, ◌&&◌, ◌==◌}
use Prim.Native.Char.{code}

-- PostgreSQL takes no text with the character U+0000.
unfoldable pub is_column_text : String → Bool
is_column_text String.[] = true
is_column_text (String.◌∷◌ c rest) = not (code c == 0) && is_column_text rest
