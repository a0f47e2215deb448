-- ===== src/Meta/Items.antt =====
-- One item of the manifest: its bytes, and how replay reads them.
use ascent_db.Prelude.{
  ℕ, ◌-◌, ◌<◌, ◌≡◌, ◌∙◌, ap, arith, List, [], ◌++◌, length, append_assoc, append-nil, length-append,
  drop-append, take-append, leb, false, ok,
}
use ascent_db.Bytes.Word.{u32, le_bytes, length-le_bytes, IsU32, IsU64}
use ascent_db.Bytes.Reader.{
  Reads, Reads-need, Reads-bind, Reads-end, Reads-last, Reads-lift, Reads-return, get_u32-Reads,
}
use ascent_db.Meta.{
  Item, add_table, delete_table, last_sequence, next_file_num, log_number, unknown, IsTable,
  IsDeleted,
}
use ascent_db.Meta.Uvarint.{put_uvarint, read_uvarint-Reads, put_uvarint-nonempty}
use ascent_db.Meta.Encode.{
  table_bytes, deleted_bytes, length-table_bytes, length-deleted_bytes, table_bytes-sized,
}
use ascent_db.Meta.RoundTrip.{decode_table_meta-table_bytes, decode_deleted_table-deleted_bytes}
use ascent_db.Meta.Replay.{
  read_size, read_into, read_sized, read_tag, read_number, read_payload, read_item,
}

read_size-Reads : (n : ℕ) → IsU32 n → Reads read_size (le_bytes 4 (u32 n)) n
unfolding read_size
read_size-Reads n h =
    let four = length-le_bytes 4 (u32 n) in
    Reads-need 1 _ (omega (arith, four)) (Reads-need 4 _ (omega (arith, four)) (get_u32-Reads n h))

read_into-Reads : (s : List ℕ) → 0 < length s → Reads (read_into (length s)) s s
unfolding read_into
read_into-Reads s h = record {
  run = λ front rest.
      let more : (leb (length (front ++ (s ++ rest))) (length front)) ≡ false =
        ground (arith, length-append front (s ++ rest), length-append s rest) in
      let none_left : length s - length s ≡ 0 = omega arith in
      rw (more, drop-append front (s ++ rest), take-append s rest, none_left, append-nil)
        (rw (length-append front s));
}

-- An entry that starts with its own length is read whole.
read_sized-Reads :
    (s tail : List ℕ)
    → s ≡ le_bytes 4 (u32 (length s)) ++ tail
    → IsU32 (length s)
    → Reads read_sized s s
unfolding read_sized
read_sized-Reads s tail e h = record {
  run = λ front rest.
      let n = length s in
      let width = length-le_bytes 4 (u32 n) in
      let shape : s ++ rest ≡ le_bytes 4 (u32 n) ++ (tail ++ rest) =
        ap (λ x. x ++ rest) e ∙ append_assoc (le_bytes 4 (u32 n)) tail rest in
      let first : read_size (front ++ (s ++ rest)) (length front)
          ≡ ok (n, length (front ++ le_bytes 4 (u32 n))) =
        rw shape ((read_size-Reads n h).run front (tail ++ rest)) in
      let back : length (front ++ le_bytes 4 (u32 n)) - 4 ≡ length front =
        omega (arith, length-append front (le_bytes 4 (u32 n)), width) in
      let nonempty : 0 < length s =
        omega (arith, ap length e, length-append (le_bytes 4 (u32 n)) tail, width) in
      rw (first, back) ((read_into-Reads s nonempty).run front rest);
}

-- The bytes of one item: its tag, and what stands behind the tag.
unfoldable pub payload_bytes : Item → List ℕ
payload_bytes (add_table t) = table_bytes t
payload_bytes (delete_table d) = deleted_bytes d
payload_bytes (last_sequence n) = put_uvarint n
payload_bytes (next_file_num n) = put_uvarint n
payload_bytes (log_number n) = put_uvarint n
payload_bytes unknown = []

unfoldable pub tag_of : Item → ℕ
tag_of (add_table t) = 1
tag_of (delete_table d) = 2
tag_of (last_sequence n) = 3
tag_of (next_file_num n) = 4
tag_of (log_number n) = 5
tag_of unknown = 6

unfoldable pub item_bytes : Item → List ℕ
item_bytes item = put_uvarint (tag_of item) ++ payload_bytes item

abbrev pub IsItem : Item → Type 0
IsItem (add_table t) = IsTable t
IsItem (delete_table d) = IsDeleted d
IsItem (last_sequence n) = IsU64 n
IsItem (next_file_num n) = IsU64 n
IsItem (log_number n) = IsU64 n
IsItem unknown = Unit {0}

read_number-Reads : (f : ℕ → Item) (n : ℕ) → IsU64 n → Reads (read_number f) (put_uvarint n) (f n)
unfolding read_number
read_number-Reads f n h = Reads-end (λ p. f p.0) (read_uvarint-Reads n h)

read_payload-Reads :
    (item : Item) → IsItem item → Reads (read_payload (tag_of item)) (payload_bytes item) item
unfolding read_payload payload_bytes tag_of
read_payload-Reads (add_table t) h =
    let (tail, sized) = table_bytes-sized t h in
    let fits : IsU32 (length (table_bytes t)) =
      omega (arith, length-table_bytes t, h.length_fits) in
    Reads-last _ (read_sized-Reads (table_bytes t) tail sized fits)
      (Reads-lift _ (decode_table_meta-table_bytes t h) (Reads-return (add_table t)))
read_payload-Reads (delete_table d) h =
    let width : length (deleted_bytes d) ≡ 12 = length-deleted_bytes d in
    Reads-last _ (rw width at (read_into-Reads (deleted_bytes d) (rw width (omega arith))))
      (Reads-lift _ (decode_deleted_table-deleted_bytes d h) (Reads-return (delete_table d)))
read_payload-Reads (last_sequence n) h = read_number-Reads last_sequence n h
read_payload-Reads (next_file_num n) h = read_number-Reads next_file_num n h
read_payload-Reads (log_number n) h = read_number-Reads log_number n h
read_payload-Reads unknown h = Reads-return unknown

tag_of-IsU64 : (item : Item) → IsU64 (tag_of item)
unfolding tag_of
tag_of-IsU64 (add_table t) = omega arith
tag_of-IsU64 (delete_table d) = omega arith
tag_of-IsU64 (last_sequence n) = omega arith
tag_of-IsU64 (next_file_num n) = omega arith
tag_of-IsU64 (log_number n) = omega arith
tag_of-IsU64 unknown = omega arith

read_tag-Reads : (n : ℕ) → IsU64 n → Reads read_tag (put_uvarint n) n
unfolding read_tag
read_tag-Reads n h = Reads-last _ (read_uvarint-Reads n h) (Reads-return n)

pub read_item-Reads : (item : Item) → IsItem item → Reads read_item (item_bytes item) item
unfolding read_item item_bytes
read_item-Reads item h =
    Reads-bind _ (read_tag-Reads (tag_of item) (tag_of-IsU64 item)) (read_payload-Reads item h)

-- An item is a byte long at least.
pub item_bytes-nonempty : (item : Item) → 0 < length (item_bytes item)
unfolding item_bytes
item_bytes-nonempty item = omega (
  arith,
  length-append (put_uvarint (tag_of item)) (payload_bytes item),
  put_uvarint-nonempty (tag_of item),
)
