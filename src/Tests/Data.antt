-- ===== src/Tests/Data.antt =====
-- Records and tables that the tests share.
use ascent_db.Prelude.{[], ◌∷◌, arith}
use ascent_db.Record.{Record, IsRecord, type_put, type_del}

-- Put("ab", "x") at 7, and Delete("c") at 9.
abbrev pub put_ab : Record
put_ab = record {
  internal_key = record { user_key = b'a' ∷ b'b' ∷ []; seq_num = 7; typ = type_put };
  value = b'x' ∷ [];
}

abbrev pub del_c : Record
del_c = record {
  internal_key = record { user_key = b'c' ∷ []; seq_num = 9; typ = type_del };
  value = [];
}

pub put_ab-IsRecord : IsRecord put_ab
put_ab-IsRecord = omega arith

pub del_c-IsRecord : IsRecord del_c
del_c-IsRecord = omega arith
