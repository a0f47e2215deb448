-- ===== src/Record/Order.antt =====
-- InternalKey.Compare is a total order on (user key, sequence number), newest first.
use ascent_db.Prelude.{is_less, is_greater, false, ◌<◌, ◌≡◌, arith, less, same, flip, ◌↔◌}
use ascent_db.Bytes.Compare.{
  compare_bytes_refl, compare_bytes-eq, compare_bytes-flip, compare_bytes_trans,
}
use ascent_db.Record.{InternalKey, compare}

-- Swapping the arguments of Compare negates its result.
pub compare-flip : (a b : InternalKey) → compare b a ≡ flip (compare a b)
unfolding compare
compare-flip a b = ground (arith, compare_bytes-flip a.user_key b.user_key)

pub compare_trans :
    (a b c : InternalKey) → compare a b ≡ less → compare b c ≡ less → compare a c ≡ less
unfolding compare
compare_trans a b c p q = ground (
  arith,
  compare_bytes_trans a.user_key b.user_key c.user_key,
  compare_bytes-eq a.user_key b.user_key,
  compare_bytes-eq b.user_key c.user_key,
)

-- What stands behind a key that is not before `c` is not before `c` either.
pub not_less_trans :
    (a b c : InternalKey)
    → is_greater (compare a b) ≡ false
    → is_less (compare a c) ≡ false
    → is_less (compare b c) ≡ false
unfolding compare
not_less_trans a b c p q = ground (
  arith,
  compare_bytes_trans a.user_key b.user_key c.user_key,
  compare_bytes-eq a.user_key b.user_key,
  compare_bytes-eq b.user_key c.user_key,
)

-- Two keys compare as equal exactly if they agree in user key and sequence number.
pub compare-same_iff :
    (a b : InternalKey)
    → (compare a b ≡ same) ↔ ((a.user_key ≡ b.user_key) × (a.seq_num ≡ b.seq_num))
unfolding compare
compare-same_iff a b = (sound, complete)
  where
    sound : compare a b ≡ same → (a.user_key ≡ b.user_key) × (a.seq_num ≡ b.seq_num)
    sound h = ground (arith, compare_bytes-eq a.user_key b.user_key)

    complete : (a.user_key ≡ b.user_key) × (a.seq_num ≡ b.seq_num) → compare a b ≡ same
    complete (p, q) = rw (p, q) (ground (arith, compare_bytes_refl b.user_key))

-- Among the entries of one user key, a lookup key at sequence number `s` comes before exactly the
-- entries that are older or as old.
pub compare-same_user_key :
    (a b : InternalKey) → a.user_key ≡ b.user_key → (compare a b ≡ less) ↔ (b.seq_num < a.seq_num)
unfolding compare
compare-same_user_key a b e = (
  λ h. ground (arith, e, compare_bytes_refl b.user_key),
  λ h. ground (arith, e, compare_bytes_refl b.user_key),
)

-- Compare is a total order on pairs of user key and sequence number: swapping its arguments negates
-- it, `less` is transitive, and `same` means that both parts are equal.
pub compare_total_order :
    (a b c : InternalKey)
    → (compare b a ≡ flip (compare a b))
      × (compare a b ≡ less → compare b c ≡ less → compare a c ≡ less)
      × ((compare a b ≡ same) ↔ ((a.user_key ≡ b.user_key) × (a.seq_num ≡ b.seq_num)))
compare_total_order a b c = (compare-flip a b, compare_trans a b c, compare-same_iff a b)
