-- ===== src/Sstable/Writer/Invariant.antt =====
-- The writer's invariant: the file is a row of blocks, and the index has an entry for each.
use ascent_db.Prelude.{
  ℕ, ◌+◌, ◌≡◌, ◌∙◌, refl, sym, ap, arith, List, [], ◌∷◌, ◌++◌, length, length-append, All,
  append_assoc, All-append, append-nil, Result, ok, ◌>>=◌, Option, none, some, Option-cases, inl,
  inr, leb, Bool-cases, true,
}
use mathlib.Core.List.{get_last?}
use ascent_db.Bytes.Word.{u32}
use ascent_db.Record.{Record, IsRecord}
use ascent_db.Record.Encode.{size-length}
use ascent_db.Sstable.Format.{IndexEntry, Filter}
use ascent_db.Sstable.Filter as Filter
use ascent_db.Sstable.Filter.Members as Members
use ascent_db.Sstable.Block.RoundTrip.{entry_frames, block_bytes, length-entry_frame, entry_frame}
use ascent_db.Sstable.Writer.{TableWriter, create, collect, flush_block, add}
use ascent_db.Sstable.Writer.Block.{SizeKept, write_block-bytes}

-- The bytes of the blocks, and the index entries of blocks that start at `off`.
unfoldable pub blocks_bytes : List (List Record) → List ℕ
blocks_bytes [] = []
blocks_bytes (b ∷ bs) = block_bytes b ++ blocks_bytes bs

unfoldable pub entry_of : ℕ → List Record → Option Record → List IndexEntry
entry_of off b none = []
entry_of off b (some last) =
    record {
      separator_key = last.internal_key;
      block_offset = off;
      block_size = u32 (length (block_bytes b));
    }
    ∷ []

unfoldable pub index_of : ℕ → List (List Record) → List IndexEntry
index_of off [] = []
index_of off (b ∷ bs) = entry_of off b (get_last? b) ++ index_of (off + length (block_bytes b)) bs

unfoldable pub all_records : List (List Record) → List Record
all_records [] = []
all_records (b ∷ bs) = b ++ all_records bs

-- The filter answers true for the record's key.
abbrev pub Holds : Filter → Record → Type 0
Holds f r = Filter.contains r.user_key f ≡ ok true

-- `bs` are the blocks written so far.
pub record IsWriter (w : TableWriter) (bs : List (List Record)) : Type 0 where
  pub file_is : w.file ≡ blocks_bytes bs
  pub offset_is : w.offset ≡ length w.file
  pub index_is : w.index ≡ index_of 0 bs
  pub kept : SizeKept w
  pub valid : All IsRecord w.entries
  pub filter_ok : Filter.IsFilter w.filter
  pub found : All (Holds w.filter) (all_records bs ++ w.entries)

blocks_bytes_snoc :
    (bs : List (List Record)) (b : List Record)
    → blocks_bytes (bs ++ (b ∷ [])) ≡ blocks_bytes bs ++ block_bytes b
unfolding blocks_bytes
blocks_bytes_snoc [] b = append-nil (block_bytes b)
blocks_bytes_snoc (c ∷ bs) b = rw (blocks_bytes_snoc bs b, append_assoc)

index_of_snoc :
    (off : ℕ) (bs : List (List Record)) (b : List Record)
    → index_of off (bs ++ (b ∷ []))
      ≡ index_of off bs ++ entry_of (off + length (blocks_bytes bs)) b (get_last? b)
unfolding index_of blocks_bytes
index_of_snoc off [] b = let e : off + 0 ≡ off = omega arith in rw (e, append-nil)
index_of_snoc off (c ∷ bs) b =
    let e : off + length (block_bytes c) + length (blocks_bytes bs)
        ≡ off + length (block_bytes c ++ blocks_bytes bs) =
      omega (arith, length-append (block_bytes c) (blocks_bytes bs)) in
    rw (index_of_snoc (off + length (block_bytes c)) bs b, e, append_assoc)

all_records_snoc :
    (bs : List (List Record)) (b : List Record) → all_records (bs ++ (b ∷ [])) ≡ all_records bs ++ b
unfolding all_records
all_records_snoc [] b = append-nil b
all_records_snoc (c ∷ bs) b = rw (all_records_snoc bs b, append_assoc)

length-entry_frames_snoc :
    (rs : List Record) (r : Record)
    → length (entry_frames (rs ++ (r ∷ []))) ≡ length (entry_frames rs) + length (entry_frame r)
unfolding entry_frames
length-entry_frames_snoc [] r = rw append-nil (omega arith)
length-entry_frames_snoc (s ∷ rs) r = omega (
  arith,
  length-entry_frames_snoc rs r,
  length-append (entry_frame s) (entry_frames (rs ++ (r ∷ []))),
  length-append (entry_frame s) (entry_frames rs),
)

-- The writer after a block: the block is behind the others, and its entry behind theirs.
flushed-IsWriter :
    (w : TableWriter) (bs : List (List Record)) (last : Record)
    → IsWriter w bs
    → get_last? w.entries ≡ some last
    → IsWriter (flush_block w) (bs ++ (w.entries ∷ []))
unfolding flush_block entry_of entry_frames
flushed-IsWriter w bs last h e =
    let q = write_block-bytes w h.kept h.valid in
    let block = block_bytes w.entries in
    let start : w.offset ≡ 0 + length (blocks_bytes bs) =
      omega (arith, h.offset_is, ap length h.file_is) in
    rw (e, flush_block)
      (record {
        file_is = ground (arith, q, h.file_is, blocks_bytes_snoc bs w.entries);
        offset_is = ground (arith, q, h.offset_is, length-append w.file block);
        index_is = ground (arith, q, start, e, h.index_is, index_of_snoc 0 bs w.entries);
        kept = refl;
        valid = tt;
        filter_ok = h.filter_ok;
        found = rw (append-nil, all_records_snoc bs w.entries) h.found;
      })

-- Flushing keeps the invariant, and moves the collected records into a block of their own.
pub flush_block-IsWriter :
    (w : TableWriter) (bs : List (List Record))
    → IsWriter w bs
    → (bs' : List (List Record)) × IsWriter (flush_block w) bs'
      × (all_records bs' ++ (flush_block w).entries ≡ all_records bs ++ w.entries)
flush_block-IsWriter w bs h = elim (Option-cases (get_last? w.entries)) [
  | inl e ↦ unfold flush_block in rw (e, flush_block) (bs, h, refl)
  | inr (last, e) ↦ (
    bs ++ (w.entries ∷ []),
    flushed-IsWriter w bs last h e,
    unfold flush_block in rw (e, flush_block) (rw (append-nil, all_records_snoc bs w.entries)),
  )
]

Holds-keep :
    (f f' : Filter) (rs : List Record)
    → ((key : List ℕ) → Filter.contains key f ≡ ok true → Filter.contains key f' ≡ ok true)
    → All (Holds f) rs
    → All (Holds f') rs
Holds-keep f f' [] keep h = tt
Holds-keep f f' (r ∷ rs) keep (hr, hrs) = (keep r.user_key hr, Holds-keep f f' rs keep hrs)

collect-IsWriter :
    (w : TableWriter) (bs : List (List Record)) (r : Record) (f : Filter)
    → IsWriter w bs
    → IsRecord r
    → Filter.IsFilter f
    → Holds f r
    → ((key : List ℕ) → Filter.contains key w.filter ≡ ok true → Filter.contains key f ≡ ok true)
    → IsWriter (collect w r f) bs
unfolding collect
collect-IsWriter w bs r f h valid fine here keep = record {
  file_is = h.file_is;
  offset_is = h.offset_is;
  index_is = h.index_is;
  kept = omega (
    arith,
    h.kept,
    length-entry_frames_snoc w.entries r,
    length-entry_frame r,
    size-length r valid,
  );
  valid = All-append IsRecord w.entries (r ∷ []) h.valid (valid, tt);
  filter_ok = fine;
  found = rw (← append_assoc (all_records bs) w.entries (r ∷ [])) (
      All-append (Holds f) (all_records bs ++ w.entries) (r ∷ [])
        (Holds-keep w.filter f (all_records bs ++ w.entries) keep h.found) (here, tt));
}

-- Add succeeds and keeps the invariant, and the records in the blocks and in the collector are those
-- that were added, in order.
pub add-IsWriter :
    (w : TableWriter) (bs : List (List Record)) (r : Record)
    → IsWriter w bs
    → IsRecord r
    → (w' : TableWriter) × (bs' : List (List Record)) × (add w r ≡ ok w')
      × IsWriter w' bs'
      × (all_records bs' ++ w'.entries ≡ (all_records bs ++ w.entries) ++ (r ∷ []))
unfolding add
add-IsWriter w bs r h valid =
    let (f, added, fine, here, keep) = Members.add_lem r.user_key w.filter h.filter_ok in
    let c = collect w r f in
    let kept = collect-IsWriter w bs r f h valid fine here keep in
    let same : all_records bs ++ c.entries ≡ (all_records bs ++ w.entries) ++ (r ∷ []) =
      unfold collect in sym (append_assoc (all_records bs) w.entries (r ∷ [])) in
    elim (Bool-cases (leb c.max_block_size c.current_block_size)) [
      | inl t ↦
          let (bs', flushed, records) = flush_block-IsWriter c bs kept in
          (flush_block c, bs', rw (added, t), flushed, records ∙ same)
      | inr t ↦ (c, bs, rw (added, t), kept, same)
    ]

-- A new writer.
pub create-IsWriter :
    (block_size : ℕ) (filter : Filter)
    → Filter.IsFilter filter
    → IsWriter (create block_size filter) []
unfolding create blocks_bytes index_of entry_frames all_records
create-IsWriter block_size filter h = record {
  file_is = refl;
  offset_is = refl;
  index_is = refl;
  kept = refl;
  valid = tt;
  filter_ok = h;
  found = tt;
}

-- The Adds of a table's records, in order.
unfoldable pub add_records : TableWriter → List Record → Result TableWriter
add_records w [] = ok w
add_records w (r ∷ rs) = do w' ← add w r; add_records w' rs

add_records_lem :
    (w : TableWriter) (bs : List (List Record)) (rs : List Record)
    → IsWriter w bs
    → All IsRecord rs
    → (w' : TableWriter) × (bs' : List (List Record)) × (add_records w rs ≡ ok w')
      × IsWriter w' bs'
      × (all_records bs' ++ w'.entries ≡ (all_records bs ++ w.entries) ++ rs)
unfolding add_records
add_records_lem w bs [] h v = (w, bs, refl, h, sym (append-nil _))
add_records_lem w bs (r ∷ rs) h (vr, vrs) =
    let (w1, bs1, added, h1, same) = add-IsWriter w bs r h vr in
    let (w2, bs2, rest, h2, same2) = add_records_lem w1 bs1 rs h1 vrs in
    (w2, bs2, rw added rest, h2, same2 ∙ rw (same, append_assoc))

-- Adding records in range to a new table writer, whose filter is a filter with at least one bit and
-- a byte for every eight bits, succeeds; then the file is a row of blocks, the index names place,
-- length and last key of each, the blocks and the collector hold the records in order, and the
-- filter answers true for every key.
pub add_records-create :
    (block_size : ℕ) (filter : Filter) (rs : List Record)
    → Filter.IsFilter filter
    → All IsRecord rs
    → (w : TableWriter) × (bs : List (List Record)) × (add_records (create block_size filter) rs
        ≡ ok w)
      × IsWriter w bs
      × (all_records bs ++ w.entries ≡ rs)
unfolding create all_records
add_records-create block_size filter rs h v =
    add_records_lem (create block_size filter) [] rs (create-IsWriter block_size filter h) v
