-- ===== src/Memtable/Table.antt =====
-- The memtable and its iterator. The locks are not part of the state: each operation is one step.
use ascent_db.Prelude.{
  ℕ, ◌+◌, ◌-◌, ◌^◌, List, [], Option, none, some, Bool, true, false, leb, Result, ok, ◌>>=◌,
}
use ascent_db.Bytes.Word.{u32, u64}
use ascent_db.Record.{InternalKey, Record, size}
use ascent_db.Memtable.{
  Skiplist, zero_key, new_skiplist, load, forward_at, seek_down, insert, search,
}

-- `refs` is an atomic int32 in two's complement.
pub record Memtable : Type 0 where
  pub list : Skiplist
  pub size : ℕ
  pub max_size : ℕ
  pub refs : ℕ

unfoldable pub new : ℕ → ℕ → Memtable
new max_size max_level = record {
  list = new_skiplist max_level;
  size = 0;
  max_size = max_size;
  refs = 1;
}

-- Put, with the outcomes that randomLevel draws.
unfoldable pub put : Memtable → Record → List Bool → Result Memtable
put m r coins = do
  list ← insert m.list r.internal_key r.value coins
  ok (record m { list = list; size = u64 (m.size + size r) })

unfoldable pub get : Memtable → List ℕ → InternalKey → Result (List ℕ × Bool × Bool)
get m user_key lookup_key = search m.list user_key lookup_key

unfoldable pub is_full : Memtable → Bool
is_full m = leb m.max_size m.size

unfoldable pub ref : Memtable → Memtable
ref m = record m { refs = u32 (m.refs + 1) }

unfoldable pub unref : Memtable → Memtable
unref m = record m { refs = u32 (m.refs + (2 ^ 32 - 1)) }

-- `nil` is `none`.
pub record MemtableIterator : Type 0 where
  pub list : Skiplist
  pub curr : Option ℕ

unfoldable pub iterator : Skiplist → Result MemtableIterator
iterator sl = do first ← forward_at sl.heap 0 0; ok (record { list = sl; curr = first })

unfoldable pub next : MemtableIterator → Result MemtableIterator
next it = elim it.curr [
  | none ↦ ok it
  | some p ↦ do q ← forward_at it.list.heap p 0; ok (record it { curr = q })
]

unfoldable pub valid : MemtableIterator → Bool
valid it = elim it.curr [ none ↦ false | some p ↦ true ]

unfoldable pub internal_key : MemtableIterator → Result InternalKey
internal_key it = elim it.curr [
  | none ↦ ok zero_key
  | some p ↦ do n ← load it.list.heap p; ok n.key
]

unfoldable pub value : MemtableIterator → Result (List ℕ)
value it = elim it.curr [ none ↦ ok [] | some p ↦ do n ← load it.list.heap p; ok n.value ]

unfoldable pub seek : MemtableIterator → InternalKey → Result MemtableIterator
seek it target = do
  curr ← seek_down it.list.next it.list.level it.list.heap target 0
  q ← forward_at it.list.heap curr 0
  ok (record it { curr = q })

unfoldable pub rewind : MemtableIterator → Result MemtableIterator
rewind it = do first ← forward_at it.list.heap 0 0; ok (record it { curr = first })
