-- ===== src/Memtable/Insert.antt =====
-- `insert` keeps the skip list well-formed, and puts the record in its place.
use ascent_db.Prelude.{
  All-weaken, ℕ, ◌+◌, ◌-◌, ◌≤◌, ◌<◌, ◌≡◌, ◌≢◌, ◌∙◌, refl, sym, ap, arith, List, [], ◌∷◌, ◌++◌,
  length, length-append, length-replicate, get_elem?, All, replicate, if◌then◌else◌, Option, none,
  some, true, false, Bool-cases, inl, inr, ltb, ltb→lt, ltb→le, ok,
}
use ascent_db.Record.{InternalKey, Record}
use ascent_db.Memtable.{Heap, Skiplist, write, descend, raise, link, insert_at}
use ascent_db.Memtable.Nodes.{
  node_at, height, pointer, first_above, last_above, last_above-up, Linked, Linked-head,
  Linked-tail, Linked-suffix, has, last_above-has, pointer-last_above,
}
use ascent_db.Memtable.Invariant.{
  entry, entries, Distinct, IsSkiplist, front, front-All, back, front-append-back, length-front,
  IsSkiplist-Split,
}
use ascent_db.Memtable.Link.{descend-Notes, raise-Notes}
use ascent_db.Memtable.Splice.{
  SameNodes, Spliced, link-Spliced, node_at-write_self, node_at-write_ne,
}
use ascent_db.Memtable.Relink.{has-false, Linked-new, Linked-spliced}
use ascent_db.Memtable.Fresh.{
  last_above-none, has-not, unused, height-fresh, last_above-fresh, Linked-fresh, has-append,
  Distinct-apart, Distinct-front, Distinct-middle,
}
use ascent_db.Memtable.Ordered.{ordered_insert, All-middle, entries-placed, InOrder-placed}

raised :
    (a b m : ℕ)
    → a ≤ m
    → b ≤ m
    → (a ≤ (if ltb a b then b else a))
      × (b ≤ (if ltb a b then b else a))
      × ((if ltb a b then b else a) ≤ m)
raised a b m p q = ground arith

module _ {sl : Skiplist} {l : List ℕ} (key : InternalKey) (value : List ℕ) (lvl : ℕ)
    (s : IsSkiplist sl l) (pos : 0 < lvl) (fits : lvl ≤ sl.max_level) where
  abbrev ahead : List ℕ
  ahead = front sl.heap key l

  abbrev behind : List ℕ
  behind = back sl.heap key l

  -- The heap with the new node, to which nothing leads yet.
  abbrev fresh : Heap
  fresh = write sl.heap sl.next (record { key = key; value = value; forward = replicate lvl none })

  not_in : has sl.next (0 ∷ l) ≡ false
  not_in = has-not sl.next 0 l (λ e. omega (arith, e, s.counted)) (unused sl.next l s.used)

  not_zero : 0 ≢ sl.next
  not_zero e = omega (arith, e, s.counted)

  same : (p : ℕ) → p ≢ sl.next → node_at fresh p ≡ node_at sl.heap p
  same p d = node_at-write_ne sl.heap sl.next p _ d

  height-new : height fresh sl.next ≡ lvl
  unfolding height
  height-new =
      ap (λ n. length n.forward) (node_at-write_self sl.heap sl.next _) ∙ length-replicate lvl none

  height-head : height fresh 0 ≡ sl.max_level
  height-head = height-fresh sl.heap fresh sl.next same 0 not_zero ∙ s.head_height

  parts : (0 ∷ ahead) ++ behind ≡ 0 ∷ l
  parts = ap (◌∷◌ 0) (front-append-back sl.heap key l)

  not_ahead : has sl.next (0 ∷ ahead) ≡ false
  not_ahead =
      let both : has sl.next ((0 ∷ ahead) ++ behind) ≡ false = rw parts not_in in
      ground (arith, both, has-append sl.next (0 ∷ ahead) behind)

  not_behind : has sl.next behind ≡ false
  not_behind =
      let both : has sl.next ((0 ∷ ahead) ++ behind) ≡ false = rw parts not_in in
      ground (arith, both, has-append sl.next (0 ∷ ahead) behind)

  apart : Distinct ((0 ∷ ahead) ++ behind)
  apart = rw parts s.distinct

  -- The node behind which the new one is put at a level.
  abbrev update_at : ℕ → ℕ
  update_at i = last_above fresh i 0 ahead

  update_at-has :
      (i : ℕ) → i < lvl → (has (update_at i) (0 ∷ ahead) ≡ true) × (i < height fresh (update_at i))
  update_at-has i low = last_above-has fresh ahead 0 i (omega (arith, height-head))

  fresh-Linked : Linked fresh (0 ∷ (ahead ++ behind))
  fresh-Linked =
      Linked-fresh sl.heap fresh sl.next same (0 ∷ (ahead ++ behind)) (rw parts not_in)
        (rw parts s.linked)

  linked :
      {h' : Heap}
      → Spliced fresh h' sl.next update_at 0 lvl
      → Linked h' (0 ∷ (ahead ++ sl.next ∷ behind))
  linked {h'} spliced =
      let apart_at : (i : ℕ) → i < lvl → has (update_at i) behind ≡ false =
        λ i low. Distinct-apart (update_at i) (0 ∷ ahead) behind apart (update_at-has i low).0 in
      let tail = Linked-tail fresh 0 (ahead ++ behind) fresh-Linked in
      let found : (i : ℕ)
          → i < lvl
          → pointer fresh (update_at i) i ≡ some (first_above fresh i behind) =
        λ i low.
          pointer-last_above fresh i 0 ahead behind
            (Linked-head fresh 0 (ahead ++ behind) fresh-Linked i (omega (arith, height-head)))
            tail in
      Linked-spliced fresh h' sl.next lvl update_at behind spliced height-new 0 ahead
        (Distinct-front (0 ∷ ahead) behind apart) not_ahead
        (λ i low. (0, sym (last_above-up fresh i 0 0 ahead (omega (arith, height-head)))))
        fresh-Linked
        (Linked-new fresh h' sl.next lvl update_at behind spliced height-new found not_behind
          apart_at (Linked-suffix fresh (0 ∷ ahead) behind fresh-Linked))

  -- What the two loops note: the last node of the front above each level of the new node.
  noted :
      (update update' : List (Option ℕ)) × (descend sl.next sl.level sl.heap key 0
          (replicate sl.max_level none)
        ≡ ok update)
      × (raise (lvl - sl.level) sl.level update ≡ ok update')
      × ((k : ℕ) → k < lvl → get_elem? update' k ≡ some (some (last_above sl.heap k 0 ahead)))
  noted =
      let empty : List (Option ℕ) = replicate sl.max_level none in
      let long : length empty ≡ sl.max_level = length-replicate sl.max_level none in
      let (update, e, first) =
        descend-Notes sl.next sl.heap key ahead behind (IsSkiplist-Split key s)
          (omega (arith, length-front sl.heap key l, s.counted)) sl.level 0 empty
          (unfold has in refl) (omega (arith, s.head_height, s.level_fits))
          (omega (arith, s.head_height, s.level_fits)) (omega (arith, s.level_fits)) in
      let (update', e', more) =
        raise-Notes (lvl - sl.level) sl.level update (omega (arith, first.as_long, s.level_fits)) in
      (
        update,
        update',
        e,
        e',
        λ k low. elim (Bool-cases (ltb k sl.level)) [
          | inl b ↦
              more.others k (inl (ltb→lt k sl.level b))
              ∙ first.noted k (omega arith) (ltb→lt k sl.level b)
          | inr b ↦
              more.noted k (ltb→le k sl.level b) (omega (arith, ltb→le k sl.level b))
              ∙ ap (λ p. some (some p))
                  (sym (
                    last_above-none sl.heap k ahead (
                      All-weaken (λ p a. omega (arith, a.1, ltb→le k sl.level b)) ahead
                        (front-All _ sl.heap key l s.heights))))
        ],
      )

  put_in :
      (update update' : List (Option ℕ)) × (h' : Heap) × (descend sl.next sl.level sl.heap key 0
          (replicate sl.max_level none)
        ≡ ok update)
      × (raise (lvl - sl.level) sl.level update ≡ ok update')
      × (link lvl 0 sl.next update' fresh ≡ ok h')
      × Spliced fresh h' sl.next update_at 0 lvl
  put_in =
      let (update, update', e, e', notes) = noted in
      let (h', e'', spliced) =
        link-Spliced lvl 0 sl.next update_at update' fresh
          (λ k a low.
            notes k (omega arith)
            ∙ ap (λ p. some (some p))
                (sym (
                  last_above-fresh sl.heap fresh sl.next same k 0 ahead
                    (has-false sl.next 0 ahead not_ahead).1)))
          (λ k a low. (update_at-has k (omega arith)).1)
          (λ k a low q. cc (q, not_ahead, (update_at-has k (omega arith)).0))
          (omega (arith, height-new)) in
      let from_zero : 0 + lvl ≡ lvl = omega arith in
      (update, update', h', e, e', e'', rw from_zero at spliced)

  kept :
      {h' : Heap}
      → SameNodes fresh h'
      → (p : ℕ) → p ≢ sl.next
      → (entry h' p ≡ entry sl.heap p) × (height h' p ≡ height sl.heap p)
  unfolding entry
  kept t p d = (
    rw (t.keys p, t.values p, same p d),
    t.heights p ∙ height-fresh sl.heap fresh sl.next same p d,
  )

  at_new :
      {h' : Heap}
      → SameNodes fresh h'
      → (entry h' sl.next ≡ record { internal_key = key; value = value })
        × (height h' sl.next ≡ lvl)
  unfolding entry
  at_new t = (
    rw (t.keys sl.next, t.values sl.next, node_at-write_self sl.heap sl.next _),
    t.heights sl.next ∙ height-new,
  )

  heights_kept :
      {h' : Heap} (top : ℕ)
      → SameNodes fresh h'
      → sl.level ≤ top
      → lvl ≤ top
      → All (λ p. (0 < height h' p) × (height h' p ≤ top)) (ahead ++ sl.next ∷ behind)
  heights_kept {h'} top t a b =
      All-middle _ ahead behind (omega (arith, (at_new t).1), omega (arith, (at_new t).1))
        (rw (front-append-back sl.heap key l)
          (heights_of l (has-false sl.next 0 l not_in).1 s.heights))
    where
      heights_of :
          (r : List ℕ)
          → has sl.next r ≡ false
          → All (λ p. (0 < height sl.heap p) × (height sl.heap p ≤ sl.level)) r
          → All (λ p. (0 < height h' p) × (height h' p ≤ top)) r
      heights_of [] m all = tt
      heights_of (p ∷ r) m (hp, all) =
          let (d, m') = has-false sl.next p r m in
          let e = (kept t p (λ q. d (sym q))).1 in
          ((omega (arith, e, hp.0), omega (arith, e, hp.1)), heights_of r m' all)

  -- `insert` at any level up to the maximal one ends, keeps the skip list well-formed, and the
  -- records are those before with the new one in its place.
  pub insert_at-IsSkiplist :
      (sl' : Skiplist) × (l' : List ℕ) × (insert_at sl key value lvl ≡ ok sl')
      × IsSkiplist sl' l'
      × (entries sl'.heap l'
          ≡ ordered_insert (record { internal_key = key; value = value }) (entries sl.heap l))
      × (sl'.max_level ≡ sl.max_level)
  unfolding insert_at Distinct
  insert_at-IsSkiplist =
      let (update, update', h', e, e', e'', spliced) = put_in in
      let top : ℕ = if ltb sl.level lvl then lvl else sl.level in
      let above : (sl.level ≤ top) × (lvl ≤ top) × (top ≤ sl.max_level) =
        raised sl.level lvl sl.max_level s.level_fits fits in
      let not_used = has-false sl.next 0 l not_in in
      let r : Record = record { internal_key = key; value = value } in
      (
        record sl { heap = h'; next = sl.next + 1; level = top },
        ahead ++ sl.next ∷ behind,
        rw (e, e', e''),
        record {
          linked = linked spliced;
          ordered =
              InOrder-placed sl.heap h' sl.next r (λ p d. (kept spliced.same p d).0)
                (at_new spliced.same).0 l not_used.1 s.ordered;
          distinct = Distinct-middle sl.next (0 ∷ ahead) behind apart (rw parts not_in);
          used =
              All-middle _ ahead behind (omega arith)
                (rw (front-append-back sl.heap key l) (All-weaken (λ p a. omega arith) l s.used));
          counted = omega (
            arith,
            s.counted,
            ap length (front-append-back sl.heap key l),
            length-append ahead behind,
            length-append ahead (sl.next ∷ behind),
          );
          head_height = (kept spliced.same 0 not_zero).1 ∙ s.head_height;
          heights = heights_kept top spliced.same above.0 above.1;
          level_pos = omega (arith, above.1);
          level_fits = above.2;
        },
        entries-placed sl.heap h' sl.next r (λ p d. (kept spliced.same p d).0)
            (at_new spliced.same).0 l not_used.1,
        refl,
      )
