-- ===== src/Memtable/Invariant.antt =====
-- What holds of a skip list between two operations, and what a search in it finds.
use ascent_db.Prelude.{
  All-weaken, ℕ, suc, ◌≤◌, ◌<◌, ◌≡◌, ◌∙◌, refl, ap, arith, List, [], ◌∷◌, ◌++◌, length,
  length-append, map, All, Option, none, some, Bool, true, false, ◌==◌, if◌then◌else◌, Bool-cases,
  inl, inr, is_less, is_greater, ok,
}
use ascent_db.Bytes.Compare.{equal_bytes}
use ascent_db.Record.{InternalKey, Record, compare, type_del}
use ascent_db.Record.Order.{not_less_trans}
use ascent_db.Memtable.{Heap, Skiplist, seek_down, search}
use ascent_db.Memtable.Nodes.{
  node_at, height, pointer, load-node_at, forward_at-pointer, first_above, last_above,
  first_above-up, Linked, Linked-head, Linked-tail, has, pointer-last_above,
}
use ascent_db.Sstable.Reader.{keys, picked, smaller, Sorted}
use ascent_db.Sstable.Reader.Lookup.{Answer, first, first-Answer}
use ascent_db.Memtable.Search.{is_below, Split, seek_down-levels}

-- The record at an address.
unfoldable pub entry : Heap → ℕ → Record
entry h p = record { internal_key = (node_at h p).key; value = (node_at h p).value }

abbrev pub entries : Heap → List ℕ → List Record
entries h = map (entry h)

-- No node comes before one that stands in front of it.
unfoldable pub InOrder : Heap → List ℕ → Type 0
InOrder h [] = Unit {0}
InOrder h (p ∷ l) =
    All (λ q. is_greater (compare (node_at h p).key (node_at h q).key) ≡ false) l × InOrder h l

unfoldable pub Distinct : List ℕ → Type 0
Distinct [] = Unit {0}
Distinct (p ∷ l) = (has p l ≡ false) × Distinct l

-- The skip list stands for the nodes `l`, in this order.
pub record IsSkiplist (sl : Skiplist) (l : List ℕ) : Type 0 where
  pub linked : Linked sl.heap (0 ∷ l)
  pub ordered : InOrder sl.heap l
  pub distinct : Distinct (0 ∷ l)
  pub used : All (λ p. p < sl.next) l
  pub counted : sl.next ≡ suc (length l)
  pub head_height : height sl.heap 0 ≡ sl.max_level
  pub heights : All (λ p. (0 < height sl.heap p) × (height sl.heap p ≤ sl.level)) l
  pub level_pos : 0 < sl.level
  pub level_fits : sl.level ≤ sl.max_level

-- The nodes before a key, and the others.
unfoldable pub front : Heap → InternalKey → List ℕ → List ℕ
front h key [] = []
front h key (q ∷ l) = let rest = front h key l in if is_below h key q then q ∷ rest else []

unfoldable pub back : Heap → InternalKey → List ℕ → List ℕ
back h key [] = []
back h key (q ∷ l) = let rest = back h key l in if is_below h key q then rest else q ∷ l

pub front-append-back :
    (h : Heap) (key : InternalKey) (l : List ℕ) → front h key l ++ back h key l ≡ l
unfolding front back
front-append-back h key [] = refl
front-append-back h key (q ∷ l) = elim (Bool-cases (is_below h key q)) [
  | inl e ↦ rw e (ap (◌∷◌ q) (front-append-back h key l))
  | inr e ↦ rw e
]

front-below :
    (h : Heap) (key : InternalKey) (l : List ℕ) → All (λ p. is_below h key p ≡ true) (front h key l)
unfolding front
front-below h key [] = tt
front-below h key (q ∷ l) = elim (Bool-cases (is_below h key q)) [
  | inl e ↦ rw e (e, front-below h key l)
  | inr e ↦ rw e tt
]

pub behind :
    (h : Heap) (key : InternalKey) (q : ℕ) (l : List ℕ)
    → All (λ p. is_greater (compare (node_at h q).key (node_at h p).key) ≡ false) l
    → is_below h key q ≡ false
    → All (λ p. is_below h key p ≡ false) l
unfolding is_below
behind h key q [] before e = tt
behind h key q (p ∷ l) (hp, before) e =
    (not_less_trans (node_at h q).key (node_at h p).key key hp e, behind h key q l before e)

-- Behind a node that is not below, none is.
back-not_below :
    (h : Heap) (key : InternalKey) (l : List ℕ)
    → InOrder h l
    → All (λ p. is_below h key p ≡ false) (back h key l)
unfolding back InOrder
back-not_below h key [] o = tt
back-not_below h key (q ∷ l) (before, o) = elim (Bool-cases (is_below h key q)) [
  | inl e ↦ rw e (back-not_below h key l o)
  | inr e ↦ rw e (e, behind h key q l before e)
]

pub IsSkiplist-Split :
    {sl : Skiplist} {l : List ℕ} (key : InternalKey)
    → IsSkiplist sl l
    → Split sl.heap key (front sl.heap key l) (back sl.heap key l)
IsSkiplist-Split {sl} {l} key s = record {
  linked = rw (front-append-back sl.heap key l) s.linked;
  below = front-below sl.heap key l;
  not_below = back-not_below sl.heap key l s.ordered;
}

pub length-front : (h : Heap) (key : InternalKey) (l : List ℕ) → length (front h key l) ≤ length l
length-front h key l =
    omega
      (arith, ap length (front-append-back h key l), length-append (front h key l) (back h key l))

pub front-All :
    (P : ℕ → Type 0) (h : Heap) (key : InternalKey) (l : List ℕ) → All P l → All P (front h key l)
unfolding front
front-All P h key [] all = tt
front-All P h key (q ∷ l) (hq, all) = elim (Bool-cases (is_below h key q)) [
  | inl e ↦ rw e (hq, front-All P h key l all)
  | inr e ↦ rw e tt
]

-- What `search` returns of the record that it found.
unfoldable pub view : Option Record → List ℕ × Bool × Bool
view none = ([], false, false)
view (some r) = if r.typ == type_del then ([], true, true) else (r.value, true, false)

-- The first record that is not before the lookup key, if it has the user key.
unfoldable pub hit : Heap → List ℕ → List ℕ → Option Record
hit h user_key [] = none
hit h user_key (q ∷ l) =
    if equal_bytes (entry h q).user_key user_key then some (entry h q) else none

search_back :
    (sl : Skiplist) (l rest : List ℕ) (user_key : List ℕ) (key : InternalKey)
    → All (λ p. 0 < height sl.heap p) rest
    → seek_down sl.next sl.level sl.heap key 0 ≡ ok (last_above sl.heap 0 0 l)
    → pointer sl.heap (last_above sl.heap 0 0 l) 0 ≡ some (first_above sl.heap 0 rest)
    → search sl user_key key ≡ ok (view (hit sl.heap user_key rest))
unfolding search hit view entry
search_back sl l [] user_key key high found e =
    let e' : pointer sl.heap (last_above sl.heap 0 0 l) 0 ≡ some none = unfold first_above in e in
    rw (found, forward_at-pointer sl.heap _ 0 e')
search_back sl l (q ∷ rest) user_key key (hq, high) found e =
    let e' : pointer sl.heap (last_above sl.heap 0 0 l) 0 ≡ some (some q) =
      e ∙ ap some (first_above-up sl.heap 0 q rest hq) in
    rw (found, forward_at-pointer sl.heap _ 0 e')
      (rw (load-node_at sl.heap q hq)
        (elim (Bool-cases (equal_bytes (node_at sl.heap q).key.user_key user_key)) [
          | inl m ↦ rw m
          | inr m ↦ rw m
        ]))

pub back-All :
    (P : ℕ → Type 0) (h : Heap) (key : InternalKey) (l : List ℕ) → All P l → All P (back h key l)
unfolding back
back-All P h key [] all = tt
back-All P h key (q ∷ l) (hq, all) = elim (Bool-cases (is_below h key q)) [
  | inl e ↦ rw e (back-All P h key l all)
  | inr e ↦ rw e (hq, all)
]

-- The loops end at the last node of the front, whose pointer leads to the first node behind.
pub seek_down-last :
    {sl : Skiplist} {l : List ℕ} (key : InternalKey)
    → IsSkiplist sl l
    → (seek_down sl.next sl.level sl.heap key 0 ≡ ok (last_above sl.heap 0 0 (front sl.heap key l)))
      × (pointer sl.heap (last_above sl.heap 0 0 (front sl.heap key l)) 0
          ≡ some (first_above sl.heap 0 (back sl.heap key l)))
seek_down-last {sl} {l} key s =
    let h = sl.heap in
    let split = IsSkiplist-Split key s in
    let ahead = front h key l in
    let high0 : 0 < height h 0 = omega (arith, s.head_height, s.level_pos, s.level_fits) in
    (
      seek_down-levels sl.next h key ahead (back h key l) split
          (omega (arith, length-front h key l, s.counted)) sl.level s.level_pos
          (omega (arith, s.head_height, s.level_fits)),
      pointer-last_above h 0 0 ahead (back h key l)
          (Linked-head h 0 (ahead ++ back h key l) split.linked 0 high0)
          (Linked-tail h 0 (ahead ++ back h key l) split.linked),
    )

-- `search` returns the first record that is not before the lookup key, if it has the user key.
search-hit :
    {sl : Skiplist} {l : List ℕ} (user_key : List ℕ) (key : InternalKey)
    → IsSkiplist sl l
    → search sl user_key key ≡ ok (view (hit sl.heap user_key (back sl.heap key l)))
search-hit {sl} {l} user_key key s =
    let (found, e) = seek_down-last key s in
    search_back sl (front sl.heap key l) (back sl.heap key l) user_key key
      (back-All _ sl.heap key l (All-weaken (λ p b. b.0) l s.heights)) found e

hit-first :
    (h : Heap) (key : InternalKey) (l : List ℕ)
    → hit h key.user_key (back h key l) ≡ first key (entries h l)
unfolding hit back first picked smaller is_below entry
hit-first h key [] = refl
hit-first h key (q ∷ l) = elim (Bool-cases (is_less (compare (node_at h q).key key))) [
  | inl e ↦ rw e (hit-first h key l)
  | inr e ↦ rw e
]

-- In a skip list whose keys are in order, without two equal ones, `search` ends and returns the
-- newest record of the user key that is not newer than the lookup key: its value, or that it is
-- deleted, or that there is none.
pub search-Answer :
    {sl : Skiplist} {l : List ℕ} (key : InternalKey)
    → IsSkiplist sl l
    → Sorted (keys (entries sl.heap l))
    → (o : Option Record) × (search sl key.user_key key ≡ ok (view o))
      × Answer key (entries sl.heap l) o
search-Answer {sl} {l} key s sorted = (
  first key (entries sl.heap l),
  search-hit key.user_key key s ∙ ap (λ o. ok (view o)) (hit-first sl.heap key l),
  first-Answer key (entries sl.heap l) sorted,
)
