-- ===== src/Sstable/Cache/Refines.antt =====
-- The block cache against a plain list of entries, the most recently used in front.
use ascent_db.Prelude.{
  ℕ, suc, ◌≤◌, ◌≡◌, ◌∙◌, refl, sym, ap, arith, List, [], ◌∷◌, length, get_elem?, set as replace,
  get_elem?-set_self, get_elem?-lt, none, some, Option-cases, true, ltb, ltb→le, ltb→lt,
  if◌then◌else◌, Bool-cases, inl, inr, take, take_all, length-take, zero, ok,
}
use ascent_db.Record.{Record}
use ascent_db.Sstable.Cache.{
  BlockKey, Entry, Lru, new_lru, same_key, item, entry_at, get, evict, update, push_front, set,
  move_to_front, remove, delete_item,
}
use ascent_db.Sstable.Cache.Views.{
  Held, position, Absent, Distinct, IsCache, without, same_key_refl, same_key-eq, Held-length,
  position-none, position-some, Absent-without, Distinct-without, Held-replace,
  get_elem?-append_last, Held-append,
}
use ascent_db.Sstable.Cache.Calls.{
  lookup, touch, value_of, length-without, lookup-position, lookup-Absent, position-front,
  item-delete_item, last_lem,
}

entry_at-some :
    (es : List Entry) (i : ℕ) (x : Entry) → get_elem? es i ≡ some x → entry_at es i ≡ ok x
unfolding entry_at
entry_at-some es i x h = rw (h, entry_at) refl

lookup-none :
    (c : Lru) (l : List Entry) (key : BlockKey)
    → IsCache c l
    → item key c.items ≡ none
    → Absent key l
lookup-none c l key h e = position-none c.elements key c.ll l h.held (sym (h.mapped key) ∙ e)

without-Absent : (key : BlockKey) (l : List Entry) → Absent key l → without key l ≡ l
unfolding without
without-Absent key [] h = refl
without-Absent key (e ∷ l) (h, hs) = rw h (ap (◌∷◌ e) (without-Absent key l hs))

Distinct-front :
    (key : BlockKey) (x : Entry) (l : List Entry)
    → Distinct l
    → x.key ≡ key
    → Distinct (x ∷ without key l)
Distinct-front key x l d e = (rw e (Absent-without key l d), Distinct-without key l d)

-- A key with an element, in front: with the entry it has, or with another value.
fronted :
    (c c' : Lru) (l : List Entry) (key : BlockKey) (i : ℕ) (x : Entry)
    → IsCache c l
    → item key c.items ≡ some i
    → get_elem? c'.elements i ≡ some x
    → x.key ≡ key
    → Held c'.elements (remove i c.ll) (without key l)
    → c'.ll ≡ move_to_front i c.ll
    → c'.items ≡ c.items
    → c'.cap ≡ c.cap
    → IsCache c' (x ∷ without key l)
unfolding move_to_front
fronted c c' l key i x h e at_i k held front same cap =
    let place : position key c.ll l ≡ some i = sym (h.mapped key) ∙ e in
    let t : same_key x.key key ≡ true = rw k (same_key_refl key) in
    record {
      held = rw front (at_i, held);
      mapped = λ q.
          rw (same, front)
            (h.mapped q ∙ sym (position-front c.elements key q c.ll l i x h.held place t));
      distinct = Distinct-front key x l h.distinct k;
      bounded =
          rw cap (omega (arith, h.bounded, length-without c.elements key c.ll l i h.held place));
    }

-- On a cache that is a list of entries, get returns the value of the key's entry, or none if there is
-- no such entry, without a panic; the entry moves to the front, and nothing else changes.
pub get-touch :
    (c : Lru) (l : List Entry) (key : BlockKey)
    → IsCache c l
    → (c' : Lru) × (get c key ≡ ok (c', value_of (lookup key l)))
      × IsCache c' (touch key l)
      × (c'.cap ≡ c.cap)
unfolding get touch value_of
get-touch c l key h = elim (Option-cases (item key c.items)) [
  | inl e ↦
      let n = lookup-Absent key l (lookup-none c l key h e) in
      rw (e, get, n, touch) (c, refl, h, refl)
  | inr (i, e) ↦
      let place : position key c.ll l ≡ some i = sym (h.mapped key) ∙ e in
      let (x, at_i, k, rest) = position-some c.elements key c.ll l i h.held place in
      let found = lookup-position c.elements key c.ll l i x h.held place at_i in
      rw (e, get, found, touch, entry_at-some c.elements i x at_i)
        (
          record c { ll = move_to_front i c.ll },
          refl,
          fronted c (record c { ll = move_to_front i c.ll }) l key i x h e at_i
              (same_key-eq x.key key k) rest refl refl refl,
          refl,
        )
]

-- The part of set for a key that is there.
update_lem :
    (c : Lru) (l : List Entry) (key : BlockKey) (value : List Record) (i : ℕ)
    → IsCache c l
    → item key c.items ≡ some i
    → (c' : Lru) × (update c i value ≡ ok c')
      × IsCache c' (record { key = key; value = value } ∷ without key l)
      × (c'.cap ≡ c.cap)
unfolding update
update_lem c l key value i h e =
    let place : position key c.ll l ≡ some i = sym (h.mapped key) ∙ e in
    let (x, at_i, k, rest) = position-some c.elements key c.ll l i h.held place in
    let y : Entry = record x { value = value } in
    let c' : Lru = record c { ll = move_to_front i c.ll; elements = replace c.elements i y } in
    let same : y ≡ record { key = key; value = value } =
      λ j. record { key = same_key-eq x.key key k j; value = value } in
    let held : Held c'.elements (remove i c.ll) (without key l) =
      Held-replace c.elements key (remove i c.ll) (without key l) i x y rest
        (Absent-without key l h.distinct) at_i k in
    let there : get_elem? c'.elements i ≡ some (record { key = key; value = value }) =
      get_elem?-set_self c.elements i y (get_elem?-lt c.elements i at_i) ∙ ap some same in
    (
      c',
      rw (entry_at-some c.elements i x at_i) refl,
      fronted c c' l key i (record { key = key; value = value }) h e there refl held refl refl refl,
      refl,
    )

Absent-take : (key : BlockKey) (n : ℕ) (l : List Entry) → Absent key l → Absent key (take n l)
Absent-take key zero l h = tt
Absent-take key (suc n) [] h = tt
Absent-take key (suc n) (e ∷ l) (h, hs) = (h, Absent-take key n l hs)

Distinct-take : (n : ℕ) (l : List Entry) → Distinct l → Distinct (take n l)
Distinct-take zero l h = tt
Distinct-take (suc n) [] h = tt
Distinct-take (suc n) (e ∷ l) (h, hs) = (Absent-take e.key n l h, Distinct-take n l hs)

-- evict of a list that is one entry too long drops the last one.
evict_lem :
    (c : Lru) (l : List Entry)
    → Held c.elements c.ll l
    → ((key : BlockKey) → item key c.items ≡ position key c.ll l)
    → Distinct l
    → length l ≡ suc c.cap
    → (c' : Lru) × (evict c ≡ ok c') × IsCache c' (take c.cap l) × (c'.cap ≡ c.cap)
unfolding evict
evict_lem c l h m d n =
    let r = last_lem c.elements c.ll l c.cap h d n in
    rw (r.last, evict, entry_at-some c.elements r.i r.x r.at_i)
      (
        record c { ll = remove r.i c.ll; items = delete_item r.x.key c.items },
        refl,
        record {
          held = r.others;
          mapped = λ k.
              item-delete_item r.x.key k c.items
              ∙ ap (λ o. if same_key r.x.key k then none else o) (m k)
              ∙ sym (r.mapped k);
          distinct = Distinct-take c.cap l d;
          bounded = omega (arith, length-take c.cap l);
        },
        refl,
      )

-- The part of set for a key that is not there.
module _ (c : Lru) (l : List Entry) (key : BlockKey) (value : List Record) where
  abbrev pushed : Lru
  pushed = push_front c key value

  abbrev longer : List Entry
  longer = record { key = key; value = value } ∷ l

  pushed-Held : IsCache c l → Held pushed.elements pushed.ll longer
  unfolding push_front
  pushed-Held h = (
    get_elem?-append_last c.elements (record { key = key; value = value }),
    Held-append c.elements (record { key = key; value = value }) c.ll l h.held,
  )

  pushed_mapped : IsCache c l → (k : BlockKey) → item k pushed.items ≡ position k pushed.ll longer
  unfolding push_front item position
  pushed_mapped h k = ap (λ o. if same_key key k then some (length c.elements) else o) (h.mapped k)

  pushed_lem :
      IsCache c l
      → item key c.items ≡ none
      → (c' : Lru) × ((if ltb pushed.cap (length pushed.ll) then evict pushed else ok pushed)
          ≡ ok c')
        × IsCache c' (take c.cap longer)
        × (c'.cap ≡ c.cap)
  unfolding push_front
  pushed_lem h e =
      let d : Distinct longer = (lookup-none c l key h e, h.distinct) in
      let size = Held-length c.elements c.ll l h.held in
      elim (Bool-cases (ltb pushed.cap (length pushed.ll))) [
        | inl t ↦
            let n : length longer ≡ suc c.cap =
              omega (arith, ltb→lt pushed.cap (length pushed.ll) t, h.bounded, size) in
            rw t (evict_lem pushed longer (pushed-Held h) (pushed_mapped h) d n)
        | inr t ↦
            let n : length longer ≤ c.cap =
              omega (arith, ltb→le pushed.cap (length pushed.ll) t, size) in
            rw (t, take_all c.cap longer n)
              (
                pushed,
                refl,
                record {
                  held = pushed-Held h;
                  mapped = pushed_mapped h;
                  distinct = d;
                  bounded = n;
                },
                refl,
              )
      ]

-- On a cache that is a list of entries, set ends without a panic in the list with the new entry in
-- front and no other of its key, cut to the capacity: the least recently used entry is evicted.
pub set-take :
    (c : Lru) (l : List Entry) (key : BlockKey) (value : List Record)
    → IsCache c l
    → (c' : Lru) × (set c key value ≡ ok c')
      × IsCache c' (take c.cap (record { key = key; value = value } ∷ without key l))
      × (c'.cap ≡ c.cap)
unfolding set push_front
set-take c l key value h = elim (Option-cases (item key c.items)) [
  | inl e ↦
      rw (e, set, without-Absent key l (lookup-none c l key h e)) (pushed_lem c l key value h e)
  | inr (i, e) ↦
      let place : position key c.ll l ≡ some i = sym (h.mapped key) ∙ e in
      let n : length (record { key = key; value = value } ∷ without key l) ≤ c.cap =
        omega (arith, h.bounded, length-without c.elements key c.ll l i h.held place) in
      rw (e, set, take_all c.cap _ n) (update_lem c l key value i h e)
]

-- A new cache is the empty list.
pub new_lru-IsCache : (cap : ℕ) → IsCache (new_lru cap) []
unfolding new_lru item position
new_lru-IsCache cap = record { held = tt; mapped = λ k. refl; distinct = tt; bounded = omega arith }
