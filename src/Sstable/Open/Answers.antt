-- ===== src/Sstable/Open/Answers.antt =====
-- From the first Add to the last Get of a table.
use ascent_db.Prelude.{ℕ, ◌≡◌, ◌∙◌, sym, List, ◌++◌, All, Option, ok, ◌>>=◌}
use mathlib.Core.Path.{subst}
use ascent_db.Record.{InternalKey, Record, IsRecord}
use ascent_db.Sstable.Format.{Filter}
use ascent_db.Sstable.Filter as Filter
use ascent_db.Sstable.Filter.Members.{contains_total}
use ascent_db.Sstable.Writer.{TableWriter, create, flush_block, close}
use ascent_db.Sstable.Writer.Invariant.{IsWriter, all_records, add_records, add_records-create}
use ascent_db.Sstable.Open.{TableReader, open_table}
use ascent_db.Sstable.Open.Written.{Fits, open_table-close}
use ascent_db.Sstable.Reader.{keys, Sorted, get}
use ascent_db.Sstable.Reader.Lookup.{Answer}
use ascent_db.Sstable.Reader.Table.{get-Answer}

ok_eq : {a b : TableWriter} → ok a ≡ ok b → a ≡ b
ok_eq e = cc e

-- A table is written by adding records in range and in order to a new writer, whose filter is a
-- filter with at least one bit and a byte for every eight bits, and the sizes of its file, of its
-- index and of its filter fit their fields. Then Close and Open succeed, and a Get of the table
-- ends without an error and returns the newest record of the user key that is not newer than the
-- lookup key, or nothing exactly if there is no such record.
pub get-open_table :
    (block_size : ℕ) (filter : Filter) (rs : List Record) (w : TableWriter) (file_num : ℕ)
    (key : InternalKey)
    → Filter.IsFilter filter
    → All IsRecord rs
    → Sorted (keys rs)
    → add_records (create block_size filter) rs ≡ ok w
    → Fits (flush_block w)
    → (t : TableReader) × ((close w >>= open_table file_num) ≡ ok t)
      × (o : Option Record) × (get t.file t.filter t.index key ≡ ok o)
      × Answer key rs o
get-open_table block_size filter rs w file_num key h valid s added fits =
    let (w', bs, added', kept, same) = add_records-create block_size filter rs h valid in
    let e : w' ≡ w = ok_eq (sym added' ∙ added) in
    let (t, opened, closed, i, known, fine) =
      open_table-close w bs rs file_num (subst (λ v. IsWriter v bs) e kept)
        (subst (λ v. all_records bs ++ v.entries ≡ rs) e same) valid fits in
    let (b, c) = contains_total key.user_key t.filter fine in
    let (o, q, answer) = get-Answer t.file t.filter t.index rs key b i s known c in
    (t, opened, o, q, answer)
