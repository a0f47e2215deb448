-- ===== src/Memtable/Level.antt =====
-- The levels that randomLevel returns, the empty skip list, and `insert` at any of them.
use ascent_db.Prelude.{
  ℕ, ◌+◌, ◌≤◌, ◌<◌, ◌≡◌, ◌∙◌, refl, ap, arith, List, [], ◌∷◌, length, get_elem?,
  get_elem?-replicate, length-replicate, none, Bool, ◌&&◌, ltb, Bool-cases, inl, inr, ok, replicate,
}
use ascent_db.Record.{InternalKey}
use ascent_db.Memtable.{Skiplist, new_skiplist, zero_key, random_level, insert}
use ascent_db.Memtable.Nodes.{height, pointer, first_above, Linked, has}
use ascent_db.Memtable.Invariant.{entries, InOrder, Distinct, IsSkiplist}
use ascent_db.Memtable.Splice.{node_at-write_self}
use ascent_db.Memtable.Ordered.{ordered_insert}
use ascent_db.Memtable.Insert.{insert_at-IsSkiplist}

-- Whatever is drawn, the level that randomLevel reaches is at least the one it starts from, and at
-- most the maximal one if the start is.
pub random_level-bounds :
    (max_level : ℕ) (coins : List Bool) (lvl : ℕ)
    → lvl ≤ max_level
    → (lvl ≤ random_level max_level coins lvl) × (random_level max_level coins lvl ≤ max_level)
unfolding random_level
random_level-bounds max_level [] lvl fits = (omega arith, fits)
random_level-bounds max_level (c ∷ coins) lvl fits = elim (Bool-cases (c && ltb lvl max_level)) [
  | inl e ↦
      let higher = random_level-bounds max_level coins (lvl + 1) (ground (arith, e)) in
      rw e (omega (arith, higher.0), higher.1)
  | inr e ↦ rw e (omega arith, fits)
]

-- The empty skip list is well-formed.
pub new_skiplist-IsSkiplist :
    (max_level : ℕ) → 0 < max_level → IsSkiplist (new_skiplist max_level) []
unfolding new_skiplist height Linked pointer InOrder Distinct has first_above
new_skiplist-IsSkiplist max_level pos =
    let head =
      node_at-write_self (λ _. none) 0
        (record { key = zero_key; value = []; forward = replicate max_level none }) in
    let head_height = ap (λ n. length n.forward) head ∙ length-replicate max_level none in
    record {
      linked = (
        λ i high.
            ap (λ n. get_elem? n.forward i) head
            ∙ get_elem?-replicate max_level none i (omega (arith, head_height)),
        tt,
      );
      ordered = tt;
      distinct = (refl, tt);
      used = tt;
      counted = refl;
      head_height = head_height;
      heights = tt;
      level_pos = omega arith;
      level_fits = omega arith;
    }

-- Whatever levels are drawn, `insert` ends and keeps the skip list well-formed, and its records are
-- those before with the new one in front of the first that is not smaller.
pub insert-IsSkiplist :
    {sl : Skiplist} {l : List ℕ} (key : InternalKey) (value : List ℕ) (coins : List Bool)
    → IsSkiplist sl l
    → (sl' : Skiplist) × (l' : List ℕ) × (insert sl key value coins ≡ ok sl')
      × IsSkiplist sl' l'
      × (entries sl'.heap l'
          ≡ ordered_insert (record { internal_key = key; value = value }) (entries sl.heap l))
unfolding insert
insert-IsSkiplist {sl} {l} key value coins s =
    let drawn =
      random_level-bounds sl.max_level coins 1 (omega (arith, s.level_pos, s.level_fits)) in
    let (sl', l', e, s', es, m) =
      insert_at-IsSkiplist key value (random_level sl.max_level coins 1) s (omega (arith, drawn.0))
        drawn.1 in
    (sl', l', e, s', es)
