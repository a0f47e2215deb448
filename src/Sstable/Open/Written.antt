-- ===== src/Sstable/Open/Written.antt =====
-- Open on the file that Close wrote.
use ascent_db.Prelude.{
  ℕ, ◌+◌, ◌-◌, ◌≤◌, ◌≡◌, ◌∙◌, refl, sym, ap, arith, List, [], ◌∷◌, ◌++◌, length, length-append,
  drop-append, take-append, append_assoc, append-nil, All, Option-cases, inl, inr, le→leb, le→ltb,
  ok, ◌>>=◌,
}
use mathlib.Core.List.{get_last?}
use mathlib.Core.Path.{subst}
use ascent_db.Bytes.Word.{IsU32, u32, length-le_bytes}
use ascent_db.Record.{Record, IsRecord}
use ascent_db.Sstable.Format.{IsEntry, Footer, IsFooter, Filter, HasWidths, magic}
use ascent_db.Sstable.Filter as Filter
use ascent_db.Sstable.Encode.{
  footer_bytes, index_bytes, filter_bytes, encode_footer-bytes, encode_index_block-bytes,
  encode_filter-bytes,
}
use ascent_db.Sstable.Decode.{decode_footer, decode_index_block, decode_filter}
use ascent_db.Sstable.RoundTrip.{
  decode_footer-encode_footer, decode_filter-encode_filter, decode_index_block-encode_index_block,
}
use ascent_db.Sstable.Writer.{TableWriter, flush_block, close}
use ascent_db.Sstable.Writer.Invariant.{
  IsWriter, blocks_bytes, index_of, all_records, Holds, flush_block-IsWriter,
}
use ascent_db.Sstable.Open.{TableReader, read_at, read_footer_at_end, open_table}
use ascent_db.Sstable.Open.Blocks.{last-none, blocks-Indexed, index_of-IsEntry}
use ascent_db.Sstable.Reader.Table.{Indexed}

read_at-middle :
    (front mid back : List ℕ) (offset size : ℕ)
    → offset ≡ length front
    → size ≡ length mid
    → read_at (front ++ (mid ++ back)) offset size ≡ ok mid
unfolding read_at
read_at-middle front mid back offset size o n =
    let room : length front + length mid ≤ length (front ++ (mid ++ back)) =
      omega (arith, length-append front (mid ++ back), length-append mid back) in
    rw (o, n, le→leb _ _ room, drop-append front (mid ++ back), take-append mid back) refl

length-footer_bytes : (f : Footer) → length (footer_bytes f) ≡ 32
unfolding footer_bytes
length-footer_bytes f = simp (length-append, length-le_bytes) (omega arith)

length-filter_bytes : (f : Filter) → length (filter_bytes f) ≡ length f.bits + 9
unfolding filter_bytes
length-filter_bytes f =
    let one : length (f.k ∷ []) ≡ 1 = refl in
    simp (length-append, length-le_bytes) (omega (arith, one))

read_footer-last :
    (front last : List ℕ) → length last ≡ 32 → read_footer_at_end (front ++ last) ≡ ok last
unfolding read_footer_at_end
read_footer-last front last h =
    let long : 32 ≤ length (front ++ last) = omega (arith, length-append front last) in
    let off : length (front ++ last) - 32 ≡ length front =
      omega (arith, length-append front last) in
    let whole : front ++ last ≡ front ++ (last ++ []) =
      ap (λ z. front ++ z) (sym (append-nil last)) in
    rw (le→ltb (length (front ++ last)) 32 long) (
      ap (λ z. read_at z (length (front ++ last) - 32) 32) whole
      ∙ read_at-middle front last [] (length (front ++ last) - 32) 32 off (sym h))

-- The sizes that the fields of the footer, the index and the filter can carry.
pub record Fits (w : TableWriter) : Type 0 where
  pub file_fits : IsU32 (length w.file)
  pub index_fits : IsU32 (length (index_bytes w.index))
  pub count_fits : IsU32 (length w.index)
  pub widths : HasWidths w.filter
  pub filter_fits : IsU32 (length w.filter.bits + 9)

-- The footer of Close.
unfoldable pub footer_of : TableWriter → Footer
footer_of w = record {
  index_offset = w.offset;
  index_size = u32 (length (index_bytes w.index));
  filter_offset = w.offset + length (index_bytes w.index);
  filter_size = u32 (length (filter_bytes w.filter));
  magic_num = magic;
}

unfoldable pub file_of : TableWriter → List ℕ
file_of w = ((w.file ++ index_bytes w.index) ++ filter_bytes w.filter) ++ footer_bytes (footer_of w)

pub close-file_of :
    (w : TableWriter) → All IsEntry (flush_block w).index → close w ≡ ok (file_of (flush_block w))
unfolding close file_of footer_of
close-file_of w h =
    rw
      (
        encode_index_block-bytes (flush_block w).index h,
        encode_filter-bytes (flush_block w).filter,
        encode_footer-bytes _,
      )
      refl

footer_of-IsFooter : (w : TableWriter) → w.offset ≡ length w.file → Fits w → IsFooter (footer_of w)
unfolding footer_of
footer_of-IsFooter w e f = record {
  index_offset_fits = omega (arith, f.file_fits);
  index_size_fits = omega (arith, f.index_fits);
  filter_offset_fits = omega (arith, f.file_fits, f.index_fits);
  filter_size_fits = omega arith;
  is_magic = refl;
}

unfoldable pub reader_of : TableWriter → ℕ → TableReader
reader_of w file_num = record {
  file = file_of w;
  index = w.index;
  filter = w.filter;
  footer = footer_of w;
  file_num = file_num;
}

-- The parts of the file, read back.
module _ (w : TableWriter) (offset_is : w.offset ≡ length w.file) (f : Fits w) where
  read_at-footer : read_footer_at_end (file_of w) ≡ ok (footer_bytes (footer_of w))
  unfolding file_of
  read_at-footer = read_footer-last _ _ (length-footer_bytes (footer_of w))

  read_at-index :
      read_at (file_of w) (footer_of w).index_offset (footer_of w).index_size
      ≡ ok (index_bytes w.index)
  unfolding file_of footer_of
  read_at-index =
      rw
        (
          append_assoc (w.file ++ index_bytes w.index) (filter_bytes w.filter)
              (footer_bytes (footer_of w)),
          append_assoc w.file (index_bytes w.index)
              (filter_bytes w.filter ++ footer_bytes (footer_of w)),
        )
        (read_at-middle w.file (index_bytes w.index) _ _ _ offset_is (omega (arith, f.index_fits)))

  read_at-filter :
      read_at (file_of w) (footer_of w).filter_offset (footer_of w).filter_size
      ≡ ok (filter_bytes w.filter)
  unfolding file_of footer_of
  read_at-filter =
      rw
        (append_assoc (w.file ++ index_bytes w.index) (filter_bytes w.filter)
          (footer_bytes (footer_of w)))
        (read_at-middle (w.file ++ index_bytes w.index) (filter_bytes w.filter) _ _ _
          (omega (arith, offset_is, length-append w.file (index_bytes w.index)))
          (omega (arith, f.filter_fits, length-filter_bytes w.filter)))

  -- Open gives back the index, the filter and the footer.
  opened :
      (file_num : ℕ)
      → All IsEntry w.index
      → open_table file_num (file_of w) ≡ ok (reader_of w file_num)
  unfolding open_table reader_of
  opened file_num entries =
      let d : decode_footer (footer_bytes (footer_of w)) ≡ ok (footer_of w) =
        rw (encode_footer-bytes (footer_of w)) at
          (decode_footer-encode_footer (footer_of w) (footer_of-IsFooter w offset_is f)) in
      let i : decode_index_block (index_bytes w.index) ≡ ok w.index =
        rw (encode_index_block-bytes w.index entries) at
          (decode_index_block-encode_index_block w.index entries f.count_fits) in
      let g : decode_filter (filter_bytes w.filter) ≡ ok w.filter =
        rw (encode_filter-bytes w.filter) at (decode_filter-encode_filter w.filter f.widths) in
      rw (read_at-footer, d, read_at-index, i, read_at-filter, g) refl

pub flush_block-empty : (w : TableWriter) → (flush_block w).entries ≡ []
unfolding flush_block
flush_block-empty w = elim (Option-cases (get_last? w.entries)) [
  | inl e ↦ rw (e, flush_block) (last-none w.entries e)
  | inr (last, e) ↦ rw (e, flush_block) refl
]

file_of-Indexed :
    (w : TableWriter) (bs : List (List Record))
    → IsWriter w bs
    → All IsRecord (all_records bs)
    → IsU32 (0 + length (blocks_bytes bs))
    → Indexed (file_of w) w.index (all_records bs)
unfolding file_of
file_of-Indexed w bs h valid fits =
    let ib = index_bytes w.index in
    let fb = filter_bytes w.filter in
    let ftb = footer_bytes (footer_of w) in
    let whole : blocks_bytes bs ++ (ib ++ (fb ++ ftb)) ≡ ((w.file ++ ib) ++ fb) ++ ftb =
      ap (λ z. z ++ (ib ++ (fb ++ ftb))) (sym h.file_is)
      ∙ sym (append_assoc w.file ib (fb ++ ftb))
      ∙ sym (append_assoc (w.file ++ ib) fb ftb) in
    let short : IsU32 (length (blocks_bytes bs)) = omega (arith, fits) in
    subst (λ i. Indexed (file_of w) i (all_records bs)) (sym h.index_is)
      (subst (λ z. Indexed z (index_of 0 bs) (all_records bs)) whole
        (blocks-Indexed [] bs (ib ++ (fb ++ ftb)) valid short))

-- Close of a writer whose records are in range ends with a file. Open of that file gives a reader
-- whose index stands for blocks with the records that were added, in order, and whose filter is that
-- of the writer and knows every key. The sizes of the file, of the index and of the filter fit their
-- fields.
pub open_table-close :
    (w : TableWriter) (bs : List (List Record)) (rs : List Record) (file_num : ℕ)
    → IsWriter w bs
    → all_records bs ++ w.entries ≡ rs
    → All IsRecord rs
    → Fits (flush_block w)
    → (t : TableReader) × ((close w >>= open_table file_num) ≡ ok t)
      × (close w ≡ ok t.file)
      × Indexed t.file t.index rs
      × All (Holds t.filter) rs
      × Filter.IsFilter t.filter
unfolding reader_of
open_table-close w bs rs file_num h e valid f =
    let (bs', h', same) = flush_block-IsWriter w bs h in
    let w' = flush_block w in
    let all : all_records bs' ≡ rs =
      sym (append-nil _) ∙ ap (λ l. all_records bs' ++ l) (sym (flush_block-empty w)) ∙ same ∙ e in
    let ok_records : All IsRecord (all_records bs') = rw all valid in
    let fits : IsU32 (0 + length (blocks_bytes bs')) =
      omega (arith, ap length h'.file_is, f.file_fits) in
    let entries : All IsEntry w'.index = rw h'.index_is (index_of-IsEntry 0 bs' ok_records fits) in
    let closed = close-file_of w entries in
    (
      reader_of w' file_num,
      rw closed (opened w' h'.offset_is f file_num entries),
      closed,
      subst (Indexed (file_of w') w'.index) all (file_of-Indexed w' bs' h' ok_records fits),
      subst (All (Holds w'.filter)) all (
          subst (All (Holds w'.filter)) (append-nil _) (
            subst (λ l. All (Holds w'.filter) (all_records bs' ++ l)) (flush_block-empty w)
              h'.found)),
      h'.filter_ok,
    )
