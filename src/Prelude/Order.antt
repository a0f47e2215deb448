-- ===== src/Prelude/Order.antt =====
-- Three-way comparison results, as Go's `bytes.Compare` and `cmp` functions return them.

use mathlib.Core.Bool.{Bool, true, false}

-- -1, 0 and +1.
pub data Sign : Type 0 where
  less same greater : Sign

abbrev pub flip : Sign → Sign
flip less = greater
flip same = same
flip greater = less

abbrev pub is_less : Sign → Bool
is_less less = true
is_less same = false
is_less greater = false

abbrev pub is_greater : Sign → Bool
is_greater less = false
is_greater same = false
is_greater greater = true
