-- ===== src/Sstable/Open/Blocks.antt =====
-- The blocks that the writer puts in a file, as the reader finds them by the index.
use ascent_db.Prelude.{
  ℕ, ◌+◌, ◌≤◌, ◌≡◌, ◌∙◌, refl, sym, ap, arith, List, [], ◌∷◌, ◌++◌, length, length-append,
  drop-append, take-append, append_assoc, All, All-left, All-right, none, some, Option-cases, inl,
  inr, le→leb, ok,
}
use mathlib.Core.List.{get_last?}
use mathlib.Core.Path.{subst}
use ascent_db.Bytes.Word.{IsU32, u32}
use ascent_db.Record.{Record, IsRecord}
use ascent_db.Record.Encode.{length-record_bytes}
use ascent_db.Sstable.Format.{IndexEntry, IsEntry}
use ascent_db.Sstable.Block.RoundTrip.{
  entry_frame, entry_frames, block_bytes, length-block_bytes, length-entry_frame,
  decode_block-block_bytes,
}
use ascent_db.Sstable.Writer.Invariant.{blocks_bytes, entry_of, index_of, all_records}
use ascent_db.Sstable.Reader.{read_block}
use ascent_db.Sstable.Reader.Table.{Indexed, none_left, block}

pub last-none : (b : List Record) → get_last? b ≡ none → b ≡ []
last-none [] h = refl
last-none (x ∷ []) h = cc
last-none (x ∷ y ∷ b) h = absurd (cc (last-none (y ∷ b) h))

last-some :
    (b : List Record) (last : Record)
    → get_last? b ≡ some last
    → (init : List Record) × (b ≡ init ++ (last ∷ []))
last-some [] last h = cc
last-some (x ∷ []) last h = ([], let e : x ≡ last = cc h in ap (λ z. z ∷ []) e)
last-some (x ∷ y ∷ b) last h = let (init, e) = last-some (y ∷ b) last h in (x ∷ init, ap (◌∷◌ x) e)

length-entry_frames-le : (b : List Record) → length b ≤ length (entry_frames b)
unfolding entry_frames
length-entry_frames-le [] = omega arith
length-entry_frames-le (r ∷ b) = omega (
  arith,
  length-entry_frames-le b,
  length-append (entry_frame r) (entry_frames b),
  length-entry_frame r,
)

-- The last record of a block takes less than the block.
length-last-le :
    (init : List Record) (last : Record)
    → length last.user_key + 33 ≤ length (block_bytes (init ++ (last ∷ [])))
unfolding entry_frames
length-last-le [] last = omega (
  arith,
  length-block_bytes (last ∷ []),
  length-append (entry_frame last) [],
  length-entry_frame last,
  length-record_bytes last,
)
length-last-le (x ∷ init) last = omega (
  arith,
  length-block_bytes (x ∷ (init ++ (last ∷ []))),
  length-block_bytes (init ++ (last ∷ [])),
  length-last-le init last,
  length-append (entry_frame x) (entry_frames (init ++ (last ∷ []))),
)

-- A block between other bytes.
read_block-block_bytes :
    (front : List ℕ) (b : List Record) (rest : List ℕ) (e : IndexEntry)
    → e.block_offset ≡ length front
    → e.block_size ≡ length (block_bytes b)
    → All IsRecord b
    → IsU32 (length (block_bytes b))
    → read_block (front ++ (block_bytes b ++ rest)) e ≡ ok b
unfolding read_block
read_block-block_bytes front b rest e off size h fits =
    let bytes = block_bytes b in
    let room : length front + length bytes ≤ length (front ++ (bytes ++ rest)) =
      omega (arith, length-append front (bytes ++ rest), length-append bytes rest) in
    let n : IsU32 (length b) = omega (arith, length-entry_frames-le b, length-block_bytes b) in
    rw (off, size, le→leb _ _ room, drop-append front (bytes ++ rest), take-append bytes rest)
      (decode_block-block_bytes b h n)

Indexed-cons :
    (file : List ℕ) (off : ℕ) (b : List Record) (es : List IndexEntry) (rest : List Record)
    → IsU32 (length (block_bytes b))
    → ((e : IndexEntry)
        → e.block_offset ≡ off
        → e.block_size ≡ length (block_bytes b)
        → read_block file e ≡ ok b)
    → Indexed file es rest
    → Indexed file (entry_of off b (get_last? b) ++ es) (b ++ rest)
unfolding entry_of
Indexed-cons file off b es rest fits reads i = elim (Option-cases (get_last? b)) [
  | inl h ↦ rw (h, last-none b h) i
  | inr (last, h) ↦
      let (init, e) = last-some b last h in
      let d : IndexEntry = record {
        separator_key = last.internal_key;
        block_offset = off;
        block_size = u32 (length (block_bytes b));
      } in
      let whole : init ++ (last ∷ rest) ≡ b ++ rest =
        sym (ap (λ z. z ++ rest) e ∙ append_assoc init (last ∷ []) rest) in
      rw h (
        subst (λ l. Indexed file (d ∷ es) l) whole
          (block init last (reads d refl (omega arith) ∙ ap ok e) refl i))
]

-- The index stands for the blocks, whose bytes are in the file behind `front`.
pub blocks-Indexed :
    (front : List ℕ) (bs : List (List Record)) (rest : List ℕ)
    → All IsRecord (all_records bs)
    → IsU32 (length (front ++ blocks_bytes bs))
    → Indexed (front ++ (blocks_bytes bs ++ rest)) (index_of (length front) bs) (all_records bs)
unfolding blocks_bytes index_of all_records
blocks-Indexed front [] rest h fits = none_left
blocks-Indexed front (b ∷ bs) rest h fits =
    let bytes = block_bytes b in
    let size : IsU32 (length bytes) = omega (
      arith,
      length-append front (bytes ++ blocks_bytes bs),
      length-append bytes (blocks_bytes bs),
      fits,
    ) in
    let ih =
      blocks-Indexed (front ++ bytes) bs rest (All-right IsRecord b (all_records bs) h)
        (rw append_assoc fits) in
    let later = blocks_bytes bs ++ rest in
    rw (append_assoc bytes (blocks_bytes bs) rest) (
      Indexed-cons (front ++ (bytes ++ later)) (length front) b _ (all_records bs) size
        (λ e off n. read_block-block_bytes front b later e off n (All-left IsRecord b _ h) size)
        (rw (append_assoc front bytes later, length-append front bytes) at ih))

-- The entries of the index are in range.
pub index_of-IsEntry :
    (off : ℕ) (bs : List (List Record))
    → All IsRecord (all_records bs)
    → IsU32 (off + length (blocks_bytes bs))
    → All IsEntry (index_of off bs)
unfolding blocks_bytes index_of all_records entry_of
index_of-IsEntry off [] h fits = tt
index_of-IsEntry off (b ∷ bs) h fits =
    let bytes = block_bytes b in
    let n = length-append bytes (blocks_bytes bs) in
    let ih =
      index_of-IsEntry (off + length bytes) bs (All-right IsRecord b (all_records bs) h)
        (omega (arith, n, fits)) in
    elim (Option-cases (get_last? b)) [
      | inl e ↦ rw e ih
      | inr (last, e) ↦
          let (init, q) = last-some b last e in
          let long : length last.user_key + 33 ≤ length bytes =
            rw (← q) at (length-last-le init last) in
          let valid : IsRecord last =
            (All-right IsRecord init (last ∷ [])
              (subst (All IsRecord) q (All-left IsRecord b _ h))).0 in
          rw e (
            record {
              key_ok = valid.key_ok;
              offset_fits = omega (arith, n, fits);
              size_fits = omega arith;
              length_fits = omega (arith, n, fits, long);
            },
            ih,
          )
    ]
