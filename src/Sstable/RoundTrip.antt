-- ===== src/Sstable/RoundTrip.antt =====
-- Decoding a footer, an index block and a filter from the bytes that the writer produces.
use ascent_db.Prelude.{
  ◌≡◌, refl, arith, List, [], ◌∷◌, length, All, ok, ◌>>=◌, length-append, footer_corrupt, reject,
  not, ◌==◌,
}
use ascent_db.Bytes.Word.{length-le_bytes, IsU32}
use ascent_db.Bytes.Reader.{
  Reads, Reads-bind, Reads-end, Reads-need, Reads-lift, Reads-return, get_u32-Reads, get_u64-Reads,
  get_u8-Reads, take_u32-Reads, take_bytes-Reads, get_bytes-Reads, Reads-last, from_start-Reads_all,
}
use ascent_db.Record.RoundTrip.{decode_internal_key-Reads}
use ascent_db.Sstable.Format.{Footer, IndexEntry, Filter, IsFooter, IsEntry, HasWidths, magic}
use ascent_db.Sstable.Encode.{
  encode_footer, encode_index_block, encode_filter, footer_bytes, entry_bytes, entries_bytes,
  index_bytes, filter_bytes, encode_footer-bytes, encode_index_block-bytes, encode_filter-bytes,
  length-entry_bytes,
}
use ascent_db.Sstable.Decode.{
  decode_footer, decode_index_entry, decode_index_block, decode_filter, read_entries, read_footer,
  read_index_entry, read_index_block, read_filter,
}

footer-Reads : (f : Footer) → IsFooter f → Reads read_footer (footer_bytes f) f
unfolding read_footer footer_bytes
footer-Reads f h = Reads-need 32 _ (simp (length-append, length-le_bytes) (omega arith)) (
    Reads-bind _ (get_u64-Reads f.index_offset h.index_offset_fits) (
      Reads-bind _ (get_u32-Reads f.index_size h.index_size_fits) (
        Reads-bind _ (get_u64-Reads f.filter_offset h.filter_offset_fits) (
          Reads-bind _ (get_u32-Reads f.filter_size h.filter_size_fits) (
            Reads-last _ (get_u64-Reads f.magic_num (rw h.is_magic (omega arith))) (
              Reads-lift {r = reject (not (f.magic_num == magic)) footer_corrupt} _ {a = tt}
                (rw h.is_magic) (Reads-return f)))))))

-- decodeFooter gives back every footer that carries the magic number.
pub decode_footer-encode_footer :
    (f : Footer) → IsFooter f → (encode_footer f >>= decode_footer) ≡ ok f
unfolding decode_footer
decode_footer-encode_footer f h =
    rw (encode_footer-bytes f) (from_start-Reads_all (footer-Reads f h))

index_entry-Reads : (e : IndexEntry) → IsEntry e → Reads read_index_entry (entry_bytes e) e
unfolding read_index_entry entry_bytes
index_entry-Reads e h = Reads-need 12 _ (simp (length-append, length-le_bytes) (omega arith)) (
    Reads-bind _ (get_u64-Reads e.block_offset h.offset_fits) (
      Reads-bind _ (get_u32-Reads e.block_size h.size_fits)
        (Reads-end _ (decode_internal_key-Reads e.separator_key h.key_ok))))

decode_index_entry-entry_bytes :
    (e : IndexEntry) → IsEntry e → decode_index_entry (entry_bytes e) ≡ ok e
unfolding decode_index_entry
decode_index_entry-entry_bytes e h = from_start-Reads_all (index_entry-Reads e h)

entries-Reads :
    (es : List IndexEntry) → All IsEntry es → Reads (read_entries (length es)) (entries_bytes es) es
unfolding read_entries entries_bytes
entries-Reads [] h = Reads-return []
entries-Reads (e ∷ es) (he, hes) =
    let fits : IsU32 (length (entry_bytes e)) =
      omega (arith, length-entry_bytes e, he.length_fits) in
    Reads-bind _ (take_u32-Reads (length (entry_bytes e)) _ fits) (
      Reads-bind _ (take_bytes-Reads (entry_bytes e) _ refl)
        (Reads-lift _ (decode_index_entry-entry_bytes e he) (Reads-end _ (entries-Reads es hes))))

index_block-Reads :
    (es : List IndexEntry)
    → All IsEntry es
    → IsU32 (length es)
    → Reads read_index_block (index_bytes es) es
unfolding read_index_block index_bytes
index_block-Reads es h n = Reads-bind _ (take_u32-Reads (length es) _ n) (entries-Reads es h)

-- decodeIndexBlock gives back the entries of every index block that encodeIndexBlock wrote.
pub decode_index_block-encode_index_block :
    (es : List IndexEntry)
    → All IsEntry es
    → IsU32 (length es)
    → (encode_index_block es >>= decode_index_block) ≡ ok es
unfolding decode_index_block
decode_index_block-encode_index_block es h n =
    rw (encode_index_block-bytes es h) (from_start-Reads_all (index_block-Reads es h n))

filter-Reads : (f : Filter) → HasWidths f → Reads read_filter (filter_bytes f) f
unfolding read_filter filter_bytes
filter-Reads f h = Reads-bind _ (take_u32-Reads (length f.bits) _ h.bits_fit) (
    Reads-need _ _ (simp (length-append, length-le_bytes) (omega arith)) (
      Reads-bind _ (get_bytes-Reads f.bits refl)
        (Reads-bind _ (get_u32-Reads f.m h.m_fits) (Reads-end _ (get_u8-Reads f.k h.k_fits)))))

-- DecodeFilter gives back every filter that EncodeFilter wrote.
pub decode_filter-encode_filter :
    (f : Filter) → HasWidths f → (encode_filter f >>= decode_filter) ≡ ok f
unfolding decode_filter
decode_filter-encode_filter f h =
    rw (encode_filter-bytes f) (from_start-Reads_all (filter-Reads f h))
