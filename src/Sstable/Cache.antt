-- ===== src/Sstable/Cache.antt =====
-- block_cache.go: the cache of blocks. The elements of the linked list are numbered in the order of
-- their allocation: `elements` holds what they point to, `ll` is the list from front to back, and
-- `items` is the map from keys to elements.
pub mod Views
pub mod Calls
pub mod Refines
pub mod Runs
use ascent_db.Prelude.{
  ℕ, zero, suc, List, [], ◌∷◌, ◌++◌, length, get_elem?, set as replace, Option, none, some, Bool,
  true, false, ◌&&◌, ◌==◌, ltb, if◌then◌else◌, Result, ok, panic, ◌>>=◌,
}
use mathlib.Core.List.{get_last?}
use ascent_db.Record.{Record}

pub record BlockKey : Type 0 where
  pub file_num : ℕ
  pub offset : ℕ

pub record Entry : Type 0 where
  pub key : BlockKey
  pub value : List Record

pub record Lru : Type 0 where
  pub cap : ℕ
  pub elements : List Entry
  pub ll : List ℕ
  pub items : List (BlockKey × ℕ)

-- newLRU
unfoldable pub new_lru : ℕ → Lru
new_lru cap = record { cap = cap; elements = []; ll = []; items = [] }

-- `==` of keys.
unfoldable pub same_key : BlockKey → BlockKey → Bool
same_key a b = (a.file_num == b.file_num) && (a.offset == b.offset)

-- `c.items[key]`
unfoldable pub item : BlockKey → List (BlockKey × ℕ) → Option ℕ
item key [] = none
item key ((k, i) ∷ items) = if same_key k key then some i else item key items

-- `delete(c.items, key)`
unfoldable pub delete_item : BlockKey → List (BlockKey × ℕ) → List (BlockKey × ℕ)
delete_item key [] = []
delete_item key ((k, i) ∷ items) =
    let rest = delete_item key items in if same_key k key then rest else (k, i) ∷ rest

-- `ll.Remove(ele)`: an element stands on the list once.
unfoldable pub remove : ℕ → List ℕ → List ℕ
remove i [] = []
remove i (j ∷ ll) = if j == i then ll else j ∷ remove i ll

-- `ll.MoveToFront(ele)`
unfoldable pub move_to_front : ℕ → List ℕ → List ℕ
move_to_front i ll = i ∷ remove i ll

-- `ele.Value.(*entry)`
unfoldable pub entry_at : List Entry → ℕ → Result Entry
entry_at elements i = elim (get_elem? elements i) [ none ↦ panic | some e ↦ ok e ]

unfoldable pub get : Lru → BlockKey → Result (Lru × Option (List Record))
get c key = elim (item key c.items) [
  | none ↦ ok (c, none)
  | some ele ↦ do
    e ← entry_at c.elements ele
    ok (record c { ll = move_to_front ele c.ll }, some e.value)
]

unfoldable pub evict : Lru → Result Lru
evict c = elim (get_last? c.ll) [
  | none ↦ ok c
  | some ele ↦ do
    e ← entry_at c.elements ele
    ok (record c { ll = remove ele c.ll; items = delete_item e.key c.items })
]

-- The part of set for a key that is there.
unfoldable pub update : Lru → ℕ → List Record → Result Lru
update c ele value = do
  e ← entry_at c.elements ele
  ok (record c {
    ll = move_to_front ele c.ll;
    elements = replace c.elements ele (record e { value = value });
  })

-- The new element of set, before the size test.
unfoldable pub push_front : Lru → BlockKey → List Record → Lru
push_front c key value =
    let ele = length c.elements in
    record c {
      elements = c.elements ++ (record { key = key; value = value } ∷ []);
      ll = ele ∷ c.ll;
      items = (key, ele) ∷ c.items;
    }

unfoldable pub set : Lru → BlockKey → List Record → Result Lru
set c key value = elim (item key c.items) [
  | some ele ↦ update c ele value
  | none ↦ let c' = push_front c key value in if ltb c'.cap (length c'.ll) then evict c' else ok c'
]
