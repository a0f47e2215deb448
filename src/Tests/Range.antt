-- ===== src/Tests/Range.antt =====
-- A scan of an engine with a record in the memtable and two tables.
use ascent_db.Prelude.{
  ◌≡◌, ◌==◌, ◌>>=◌, refl, List, [], ◌∷◌, ◌++◌, ℕ, All, Option, some, less, if◌then◌else◌, ok,
}
use ascent_db.Bytes.Compare.{compare_bytes}
use ascent_db.Record.{Record}
use ascent_db.Meta.{TableMeta}
use ascent_db.Meta.Overlap.{AtMost}
use ascent_db.Sstable.Reader.Lookup.{Answer}
use ascent_db.Memtable.Iterate.{from_key}
use ascent_db.Merge.Order.{Ascending}
use ascent_db.Engine.Read.{live}
use ascent_db.Engine.Scan.{drain}
use ascent_db.Engine.Scan.Groups.{as_of}
use ascent_db.Engine.Scan.Client.{find, Rising}
use ascent_db.Engine.Scan.Sources.{TableScan, scan}
use ascent_db.Engine.Scan.Gathered.{IsScanned, table_records}
use ascent_db.Engine.Scan.Whole.{scan-newest}
use ascent_db.Tests.Data.{put_ab}
use ascent_db.Tests.Lookup.{old_ab}
use ascent_db.Tests.Read.{oldest_ab, table_meta, mt_holds, engine}

-- The user key "ab", and the end "b".
abbrev ab : List ℕ
ab = b'a' ∷ b'b' ∷ []

abbrev end : List ℕ
end = b'b' ∷ []

abbrev contents : TableMeta → List Record
contents t = if t.file_num == 1 then old_ab ∷ [] else oldest_ab ∷ []

abbrev table_scan : TableScan
table_scan t key = some (from_key key (contents t))

ab-AtMost : AtMost ab ab
unfolding compare_bytes
ab-AtMost = AtMost.at_most (λ e. cc e)

below_end : compare_bytes ab end ≡ less
unfolding compare_bytes
below_end = refl

old_ab-IsScanned :
    IsScanned table_scan (as_of ab 100) (table_meta 1 0 old_ab) (contents (table_meta 1 0 old_ab))
unfolding Ascending
old_ab-IsScanned = record {
  gives = refl;
  ordered = (tt, tt);
  inside = ((ab-AtMost, ab-AtMost), tt);
}

oldest_ab-IsScanned :
    IsScanned table_scan
      (as_of ab 100)
      (table_meta 2 1 oldest_ab)
      (contents (table_meta 2 1 oldest_ab))
unfolding Ascending
oldest_ab-IsScanned = record {
  gives = refl;
  ordered = (tt, tt);
  inside = ((ab-AtMost, ab-AtMost), tt);
}

scan-newest_example :
    (fuel : ℕ) × (out : List (List ℕ × List ℕ)) × (o : Option Record) × ((scan fuel table_scan
          engine ab end 100
        >>= drain fuel)
      ≡ ok out)
    × Rising out
    × All (λ p. compare_bytes p.0 end ≡ less) out
    × Answer (as_of ab 100) ((put_ab ∷ []) ++ ([] ++ table_records contents engine.vs.levels)) o
    × (find ab out ≡ live o)
scan-newest_example =
    scan-newest table_scan contents ab end ab 100 ab-AtMost below_end engine (put_ab ∷ []) []
      mt_holds.1 refl ((old_ab-IsScanned, tt), ((oldest_ab-IsScanned, tt), tt))
