-- ===== src/Memtable.antt =====
-- internal/memtable: the skip list, whose nodes stand in a heap, and the memtable over it. The head
-- has address 0, and a new node takes the next free address.
pub mod Nodes
pub mod Search
pub mod Invariant
pub mod Link
pub mod Splice
pub mod Relink
pub mod Fresh
pub mod Ordered
pub mod Insert
pub mod Table
pub mod Level
pub mod Permuted
pub mod History
pub mod Iterate
use ascent_db.Prelude.{
  ℕ, zero, suc, ◌+◌, ◌-◌, List, [], ◌∷◌, length, get_elem?, set, replicate, Option, none, some,
  Bool, true, false, ◌&&◌, ◌==◌, ltb, leb, if◌then◌else◌, is_less, Result, ok, panic, ◌>>=◌, ◌>>◌,
  demand,
}
use ascent_db.Bytes.Word.{u64}
use ascent_db.Bytes.Compare.{equal_bytes}
use ascent_db.Record.{InternalKey, Record, compare, size, type_del}

pub record Node : Type 0 where
  pub key : InternalKey
  pub value : List ℕ
  pub forward : List (Option ℕ)

abbrev pub Heap : Type 0
Heap = ℕ → Option Node

pub record Skiplist : Type 0 where
  pub heap : Heap
  pub next : ℕ
  pub level : ℕ
  pub max_level : ℕ

unfoldable pub write : Heap → ℕ → Node → Heap
write h p n q = if q == p then some n else h q

abbrev pub zero_key : InternalKey
zero_key = record { user_key = []; seq_num = 0; typ = 0 }

unfoldable pub new_skiplist : ℕ → Skiplist
unfolding write
new_skiplist max_level = record {
  heap =
      write (λ _. none) 0
        (record { key = zero_key; value = []; forward = replicate max_level none });
  next = 1;
  level = 1;
  max_level = max_level;
}

-- A read through an address that holds no node, or through nil, is a panic.
unfoldable pub load : Heap → ℕ → Result Node
load h p = elim (h p) [ none ↦ panic | some n ↦ ok n ]

unfoldable pub at_index : {A : Type 0} → List A → ℕ → Result A
at_index xs i = elim (get_elem? xs i) [ none ↦ panic | some x ↦ ok x ]

unfoldable pub assign : {A : Type 0} → List A → ℕ → A → Result (List A)
assign xs i v = do demand (ltb i (length xs)); ok (set xs i v)

-- `p.forward[i]`
unfoldable pub forward_at : Heap → ℕ → ℕ → Result (Option ℕ)
forward_at h p i = do n ← load h p; at_index n.forward i

-- `p.forward[i] = q`
unfoldable pub set_forward : Heap → ℕ → ℕ → Option ℕ → Result Heap
set_forward h p i q = do
  n ← load h p
  forward ← assign n.forward i q
  ok (write h p (record n { forward = forward }))

-- The inner loop of a search at level `i`, from `curr` on. Each round passes a node, so fuel above
-- the number of nodes is enough.
unfoldable pub walk : ℕ → Heap → InternalKey → ℕ → ℕ → Result ℕ
walk zero h key i curr = panic
walk (suc fuel) h key i curr = do
  next ← forward_at h curr i
  elim next [
    | none ↦ ok curr
    | some q ↦ do
      n ← load h q
      let more = walk fuel h key i q in if is_less (compare n.key key) then more else ok curr
  ]

-- The outer loop: the levels below `i`, from the top.
unfoldable pub seek_down : ℕ → ℕ → Heap → InternalKey → ℕ → Result ℕ
seek_down fuel zero h key curr = ok curr
seek_down fuel (suc i) h key curr = do curr ← walk fuel h key i curr; seek_down fuel i h key curr

-- The same loop in `insert`, which notes where each level was left.
unfoldable pub descend : ℕ → ℕ → Heap → InternalKey → ℕ → List (Option ℕ) → Result (List (Option ℕ))
descend fuel zero h key curr update = ok update
descend fuel (suc i) h key curr update = do
  curr ← walk fuel h key i curr
  update ← assign update i (some curr)
  descend fuel i h key curr update

-- `for i := sl.level; i < lvl; i++ { update[i] = sl.head }`, `n` rounds.
unfoldable pub raise : ℕ → ℕ → List (Option ℕ) → Result (List (Option ℕ))
raise zero i update = ok update
raise (suc n) i update = do update ← assign update i (some 0); raise n (i + 1) update

-- randomLevel, from the outcomes of `rand.Float64() < sl.p`. An outcome that is not given counts as
-- false.
unfoldable pub random_level : ℕ → List Bool → ℕ → ℕ
random_level max_level [] lvl = lvl
random_level max_level (c ∷ coins) lvl =
    let higher = random_level max_level coins (lvl + 1) in
    if c && ltb lvl max_level then higher else lvl

-- `update[i]`, which is followed.
unfoldable pub not_nil : Option ℕ → Result ℕ
not_nil none = panic
not_nil (some p) = ok p

-- The loop that puts the new node into the lists: `n` rounds from `i` on.
unfoldable pub link : ℕ → ℕ → ℕ → List (Option ℕ) → Heap → Result Heap
link zero i node update h = ok h
link (suc n) i node update h = do
  u ← at_index update i
  p ← not_nil u
  next ← forward_at h p i
  h ← set_forward h node i next
  h ← set_forward h p i (some node)
  link n (i + 1) node update h

-- `insert`, at the level that randomLevel returned.
unfoldable pub insert_at : Skiplist → InternalKey → List ℕ → ℕ → Result Skiplist
insert_at sl key value lvl = do
  update ← descend sl.next sl.level sl.heap key 0 (replicate sl.max_level none)
  update ← raise (lvl - sl.level) sl.level update
  let node : Node = record { key = key; value = value; forward = replicate lvl none }
  h ← link lvl 0 sl.next update (write sl.heap sl.next node)
  ok (record sl {
    heap = h;
    next = sl.next + 1;
    level = if ltb sl.level lvl then lvl else sl.level;
  })

unfoldable pub insert : Skiplist → InternalKey → List ℕ → List Bool → Result Skiplist
insert sl key value coins = insert_at sl key value (random_level sl.max_level coins 1)

-- The value, whether the key was found, and whether it is deleted.
unfoldable pub search : Skiplist → List ℕ → InternalKey → Result (List ℕ × Bool × Bool)
search sl user_key lookup_key = do
  curr ← seek_down sl.next sl.level sl.heap lookup_key 0
  first ← forward_at sl.heap curr 0
  elim first [
    | none ↦ ok ([], false, false)
    | some q ↦ do
      n ← load sl.heap q
      ok (
          if equal_bytes n.key.user_key user_key
          then if n.key.typ == type_del then ([], true, true) else (n.value, true, false)
          else ([], false, false))
  ]
