-- ===== src/Engine/Read.antt =====
-- Get of the engine and of a snapshot. Opening the reader of a table and its Get are the argument
-- `table_get`, which has no value where the code logs an error.
use ascent_db.Prelude.{
  ℕ, List, [], ◌∷◌, length, get_elem?, map, Option, none, some, Bool, ◌||◌, ◌==◌, ltb,
  if◌then◌else◌, is_less, is_greater, Result, ok, ◌>>=◌,
}
use ascent_db.Bytes.Compare.{compare_bytes}
use ascent_db.Record.{InternalKey, Record, type_del}
use ascent_db.Meta.{TableMeta}
use ascent_db.Memtable.Table as Table
use ascent_db.Sstable.Reader.{at_least}
use ascent_db.Sstable.Search.{search}
use ascent_db.Engine.{Engine}

abbrev pub TableGet : Type 0
TableGet = TableMeta → InternalKey → Option (Option Record)

-- The best record so far, or the one that was found.
unfoldable pub better : Option Record → Option Record → Option Record
better best none = best
better none (some r) = some r
better (some b) (some r) = if ltb b.seq_num r.seq_num then some r else some b

unfoldable pub check_table : TableGet → InternalKey → TableMeta → Option Record → Option Record
check_table table_get key t best = elim (table_get t key) [ none ↦ best | some o ↦ better best o ]

-- Level 0, from the last table to the first.
unfoldable pub check_level0 :
    TableGet → InternalKey → List TableMeta → Option Record → Option Record
check_level0 table_get key [] best = best
check_level0 table_get key (t ∷ tables) best =
    let best' = check_level0 table_get key tables best in
    if is_less (compare_bytes key.user_key t.min_key.user_key)
      || is_greater (compare_bytes key.user_key t.max_key.user_key)
    then best'
    else check_table table_get key t best'

abbrev pub max_keys : List TableMeta → List InternalKey
max_keys = map (λ t. t.max_key)

-- The table of a deeper level whose range the key falls into or before.
unfoldable pub find_table : InternalKey → List TableMeta → Option TableMeta
find_table key tables = get_elem? tables (search (length tables) (at_least key (max_keys tables)))

-- The levels below level 0; the first one that finds something, or comes after something was found,
-- is the last.
unfoldable pub check_levels :
    TableGet → InternalKey → List (List TableMeta) → Option Record → Option Record
check_levels table_get key [] best = best
check_levels table_get key (tables ∷ levels) best = elim (find_table key tables) [
  | none ↦ check_levels table_get key levels best
  | some t ↦ elim (check_table table_get key t best) [
    | none ↦ check_levels table_get key levels none
    | some b ↦ some b
  ]
]

unfoldable pub get_from_tables : TableGet → InternalKey → List (List TableMeta) → Option Record
get_from_tables table_get key [] = none
get_from_tables table_get key (level0 ∷ levels) =
    check_levels table_get key levels (check_level0 table_get key level0 none)

-- The value, unless the record deletes the key.
unfoldable pub live : Option Record → Option (List ℕ)
live none = none
live (some r) = if r.typ == type_del then none else some r.value

-- What a memtable answers: whether the search ends there, and with which value.
unfoldable pub settled : List ℕ × Bool × Bool → Option (Option (List ℕ))
settled (value, found, deleted) =
    if found then some (if deleted then none else some value) else none

unfoldable pub get_immt : Option Table.Memtable → InternalKey → Result (Option (Option (List ℕ)))
get_immt none key = ok none
get_immt (some m) key = do v ← Table.get m key.user_key key; ok (settled v)

-- The rest of Get, after a memtable was asked.
unfoldable pub unless_settled :
    Option (Option (List ℕ)) → Result (Option (List ℕ)) → Result (Option (List ℕ))
unless_settled (some r) rest = ok r
unless_settled none rest = rest

unfoldable pub get_from_immt : TableGet → Engine → InternalKey → Result (Option (List ℕ))
get_from_immt table_get e key = do
  w ← get_immt e.immt key
  unless_settled w (ok (live (get_from_tables table_get key e.vs.levels)))

unfoldable pub get : TableGet → Engine → List ℕ → ℕ → Result (Option (List ℕ))
get table_get e user_key seq_num = do
  let key : InternalKey = record { user_key = user_key; seq_num = seq_num; typ = 0 }
  v ← Table.get e.mt user_key key
  unless_settled (settled v) (get_from_immt table_get e key)
