-- ===== src/Tests/Lookup.antt =====
-- Lookups in a block.
use ascent_db.Prelude.{
  ℕ, ◌+◌, ◌≡◌, refl, arith, List, [], ◌∷◌, Option, true, ok, length, le→leb, take_all,
}
use ascent_db.Bytes.Compare.{compare_bytes}
use ascent_db.Bytes.Checksum.{fnv64a}
use ascent_db.Record.{InternalKey, Record, compare, type_put}
use ascent_db.Sstable.Reader.{keys, search_block, Sorted}
use ascent_db.Sstable.Reader.Lookup.{Answer, search_block-Answer}
use ascent_db.Sstable.Format.{IndexEntry, Filter}
use ascent_db.Sstable.Filter as Filter
use ascent_db.Sstable.Writer.{write_block}
use ascent_db.Sstable.Reader.{read_block, get}
use ascent_db.Sstable.Reader.Table.{Indexed, none_left, block, get-Answer}
use ascent_db.Tests.Sstable.{writer, decoded}
use ascent_db.Tests.Data.{put_ab, del_c}

-- An older version of the same key.
abbrev pub old_ab : Record
old_ab = record {
  internal_key = record { user_key = put_ab.user_key; seq_num = 4; typ = type_put };
  value = [];
}

-- Looking for "ab" as of 6.
abbrev pub key : InternalKey
key = record { user_key = put_ab.user_key; seq_num = 6; typ = type_put }

ordered : Sorted (keys (put_ab ∷ old_ab ∷ del_c ∷ []))
unfolding Sorted compare compare_bytes
ordered = ((refl, (refl, tt)), ((refl, tt), (tt, tt)))

search_block-Answer_example :
    Answer key (put_ab ∷ old_ab ∷ del_c ∷ []) (search_block key (put_ab ∷ old_ab ∷ del_c ∷ []))
search_block-Answer_example = search_block-Answer key (put_ab ∷ old_ab ∷ del_c ∷ []) ordered

-- A table of one block.
abbrev pub file : List ℕ
file = (write_block writer).0

abbrev pub entry : IndexEntry
entry = record { separator_key = del_c.internal_key; block_offset = 0; block_size = length file }

-- A filter whose bits are all set.
abbrev pub full : Filter
full = record { bits = 255 ∷ []; m = 8; k = 2 }

read_entry : read_block file entry ≡ ok (put_ab ∷ del_c ∷ [])
unfolding read_block
read_entry =
    rw
      (
        le→leb (0 + length file) (length file) (omega arith),
        take_all (length file) file (omega arith),
      )
      decoded

pub indexed : Indexed file (entry ∷ []) (put_ab ∷ del_c ∷ [])
indexed = block (put_ab ∷ []) del_c read_entry refl none_left

pub two_ordered : Sorted (keys (put_ab ∷ del_c ∷ []))
unfolding Sorted compare compare_bytes
two_ordered = ((refl, tt), (tt, tt))

pub full_ab : Filter.contains put_ab.user_key full ≡ ok true
unfolding Filter.contains Filter.contains_loop Filter.test_bit fnv64a
full_ab = refl

pub full_c : Filter.contains del_c.user_key full ≡ ok true
unfolding Filter.contains Filter.contains_loop Filter.test_bit fnv64a
full_c = refl

get-Answer_example :
    (o : Option Record) × (get file full (entry ∷ []) put_ab.internal_key ≡ ok o)
    × Answer put_ab.internal_key (put_ab ∷ del_c ∷ []) o
get-Answer_example =
    get-Answer file full (entry ∷ []) (put_ab ∷ del_c ∷ []) put_ab.internal_key true indexed
      two_ordered (full_ab, (full_c, tt)) full_ab
