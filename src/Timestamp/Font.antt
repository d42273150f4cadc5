-- ===== src/Timestamp/Font.antt =====
-- The table of characters of src/timestamp.c, in its order.
pub mod Glyph
pub mod Digits
pub mod Brackets
pub mod Stops
pub mod LowerA
pub mod LowerJ
pub mod LowerS
pub mod UpperA
pub mod UpperJ
pub mod UpperS
use camkit.Base.{List, ◌++◌}
use Glyph.{DrawChar}
use Digits.{space_and_digits}
use Brackets.{brackets}
use Stops.{stops}
use LowerA.{lower_a_to_i}
use LowerJ.{lower_j_to_r}
use LowerS.{lower_s_to_z}
use UpperA.{upper_a_to_i}
use UpperJ.{upper_j_to_r}
use UpperS.{upper_s_to_z}

unfoldable pub draw_table : List DrawChar
draw_table =
    space_and_digits ++ brackets ++ stops ++ lower_a_to_i ++ lower_j_to_r ++ lower_s_to_z
    ++ upper_a_to_i ++ upper_j_to_r ++ upper_s_to_z
