-- ===== src/Meta/Replay.antt =====
-- VersionSet.replay over the bytes of the manifest, and removeFromLevel.
use ascent_db.Prelude.{
  ℕ, zero, suc, ◌+◌, ◌-◌, List, [], ◌∷◌, ◌++◌, length, take, drop, replicate, set, get_elem?,
  Option, none, some, leb, ◌==◌, if◌then◌else◌, Result, ok, err, panic, read_eof,
  read_unexpected_eof, demand,
}
use ascent_db.Prelude as Result
use ascent_db.Bytes.Reader.{Read, ◌>>=◌, ◌>>◌, return, need, get_u32, lift}
use ascent_db.Meta.{
  TableMeta, VersionSet, Item, add_table, delete_table, last_sequence, next_file_num, log_number,
  unknown, tag_add_table, tag_delete_table, tag_last_sequence, tag_next_file_num, tag_log_num,
}
use ascent_db.Meta.Uvarint.{read_uvarint}
use ascent_db.Meta.Decode.{decode_table_meta, decode_deleted_table}

-- binary.Read of a uint32.
unfoldable pub read_size : Read ℕ
read_size = do need 1 read_eof; need 4 read_unexpected_eof; get_u32

-- `reader.Seek(-n, io.SeekCurrent)`
unfoldable pub seek_back : ℕ → Read (Unit {0})
seek_back n b off = ok (tt, off - n)

-- `buf := make([]byte, n); reader.Read(buf)`: fewer bytes are no error, and the rest stays zero.
unfoldable pub read_into : ℕ → Read (List ℕ)
read_into n b off =
    let got = take n (drop off b) in
    if leb (length b) off
    then err read_eof
    else ok (got ++ replicate (n - length got) 0, off + length got)

-- The entry of a table starts with its own length, which is read twice.
unfoldable pub read_sized : Read (List ℕ)
unfolding seek_back
read_sized = do size ← read_size; seek_back 4; read_into size

unfoldable pub read_tag : Read ℕ
read_tag = do (tag, e) ← read_uvarint; lift (elim e [ some x ↦ err x | none ↦ ok tag ])

-- A number, whose error is not looked at.
unfoldable pub read_number : (ℕ → Item) → Read Item
read_number item = do (value, _) ← read_uvarint; return (item value)

-- The cases of the switch up to the change of the version set.
unfoldable pub read_payload : ℕ → Read Item
read_payload tag =
    if tag == tag_add_table
    then (do buf ← read_sized; t ← lift (decode_table_meta buf); return (add_table t))
    else if tag == tag_delete_table
    then (do buf ← read_into 12; d ← lift (decode_deleted_table buf); return (delete_table d))
    else if tag == tag_last_sequence
    then read_number last_sequence
    else if tag == tag_next_file_num
    then read_number next_file_num
    else if tag == tag_log_num
    then read_number log_number
    else return unknown

unfoldable pub read_item : Read Item
read_item = do tag ← read_tag; read_payload tag

-- The loop of removeFromLevel. It goes over the `len` tables that the level had, in the array that
-- the removals shift, and does not stop at the first one: `count` rounds are left, the next is at
-- `i`, and the level has `len` tables left.
unfoldable pub remove_loop : ℕ → ℕ → ℕ → List TableMeta → ℕ → Result (List TableMeta)
remove_loop zero i num tables len = ok (take len tables)
remove_loop (suc count) i num tables len = elim (get_elem? tables i) [
  | none ↦ panic
  | some t ↦
      let shifted =
        take i tables ++ (take (len - (i + 1)) (drop (i + 1) tables) ++ drop (len - 1) tables) in
      let gone = remove_loop count (i + 1) num shifted (len - 1) in
      let stays = remove_loop count (i + 1) num tables len in
      if t.file_num == num then Result.◌>>◌ (demand (leb (i + 1) len)) gone else stays
]

unfoldable pub remove_from_level : ℕ → ℕ → VersionSet → Result VersionSet
unfolding remove_loop
remove_from_level lvl num vs = elim (get_elem? vs.levels lvl) [
  | none ↦ panic
  | some l ↦
      Result.◌>>=◌ (remove_loop (length l) 0 num l (length l))
        (λ l'. ok (record vs { levels = set vs.levels lvl l' }))
]

-- What the switch does with what it read.
unfoldable pub apply_item : Item → VersionSet → Result VersionSet
apply_item (add_table t) vs = elim (get_elem? vs.levels t.level) [
  | none ↦ panic
  | some l ↦ ok (record vs { levels = set vs.levels t.level (l ++ (t ∷ [])) })
]
apply_item (delete_table d) vs = remove_from_level d.level d.file_num vs
apply_item (last_sequence n) vs = ok (record vs { last_seq_num = n })
apply_item (next_file_num n) vs = ok (record vs { next_file_num = n })
apply_item (log_number n) vs = ok (record vs { log_num = n })
apply_item unknown vs = ok vs

-- `zero` fuel is no state of the source: each round reads a byte at least.
unfoldable pub replay_loop : ℕ → VersionSet → List ℕ → ℕ → Result VersionSet
replay_loop zero vs b off = panic
replay_loop (suc fuel) vs b off = if leb (length b) off then ok vs else (elim (read_item b off) [
  | ok (item, off') ↦ Result.◌>>=◌ (apply_item item vs) (λ vs'. replay_loop fuel vs' b off')
  | err e ↦ err e
  | panic ↦ panic
])

unfoldable pub replay : VersionSet → List ℕ → Result VersionSet
replay vs manifest = replay_loop (suc (length manifest)) vs manifest 0
