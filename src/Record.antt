-- ===== src/Record.antt =====
-- internal/record: keys with a sequence number and a type, and the records that carry them.
pub mod Order
pub mod Encode
pub mod Decode
pub mod RoundTrip
use ascent_db.Prelude.{
  ℕ, ◌+◌, ◌%◌, ◌^◌, ◌<◌, List, length, Bool, ◌==◌, if◌then◌else◌, ltb, Sign, less, same, greater,
}
use ascent_db.Bytes.Word.{u32, IsByte, IsU32, IsU64}
use ascent_db.Bytes.Compare.{compare_bytes}

-- The two values of IKType that the program writes.
abbrev pub type_put : ℕ
type_put = 1

abbrev pub type_del : ℕ
type_del = 0

pub record InternalKey : Type 0 where
  pub user_key : List ℕ
  pub seq_num : ℕ
  pub typ : ℕ

pub record Record : Type 0 where
  pub internal_key : InternalKey
  pub open internal_key use *
  pub value : List ℕ

-- The uint32 sizes of the source, which wrap.
unfoldable pub key_size : InternalKey → ℕ
key_size k = u32 (4 + u32 (length k.user_key) + 8 + 1)

unfoldable pub size : Record → ℕ
size r = u32 (key_size r.internal_key + 4 + u32 (length r.value))

unfoldable pub key_len : Record → ℕ
key_len r = u32 (length r.user_key)

unfoldable pub is_tombstone : Record → Bool
is_tombstone r = r.typ == type_del

-- Of two keys with one user key, the one with the larger sequence number comes first.
unfoldable pub compare_seq : ℕ → ℕ → Sign
compare_seq s t = if ltb s t then greater else if ltb t s then less else same

unfoldable pub on_same : Sign → Sign → Sign
on_same same other = other
on_same less other = less
on_same greater other = greater

unfoldable pub compare : InternalKey → InternalKey → Sign
unfolding compare_seq on_same
compare k other =
    on_same (compare_bytes k.user_key other.user_key) (compare_seq k.seq_num other.seq_num)

-- The ranges of the Go types: a key that the 4-byte length field can carry, a uint64, a byte.
pub record IsKey (k : InternalKey) : Type 0 where
  pub key_fits : IsU32 (length k.user_key)
  pub seq_fits : IsU64 k.seq_num
  pub typ_fits : IsByte k.typ

-- The sizes of a record fit the uint32 in which `Size` computes them.
pub record IsRecord (r : Record) : Type 0 where
  pub key_ok : IsKey r.internal_key
  pub size_fits : IsU32 (length r.user_key + length r.value + 17)
