-- ===== src/Engine/Compact/Loop.antt =====
-- The loop of writeCompactionOutput, and what its tables hold.
use ascent_db.Prelude.{
  ℕ, zero, suc, ◌<◌, ◌≡◌, ◌≢◌, ◌∙◌, refl, sym, ap, arith, List, [], ◌∷◌, ◌++◌, append_assoc,
  append-nil, length, All, none, some, Bool, Bool-cases, inl, inr, if◌then◌else◌, ok,
}
use ascent_db.Bytes.Compare.{equal_bytes}
use ascent_db.Record.{InternalKey, Record, IsRecord}
use ascent_db.Sstable.Format.{Filter}
use ascent_db.Sstable.Filter as Filter
use ascent_db.Merge.{Item, push_iter, advanced, empty}
use ascent_db.Merge.Drain.{Yields, merge_record-popped, pop_and_advance-popped}
use ascent_db.Engine.Flush.{extend}
use ascent_db.Engine.Compact.{CompactionOutput, drops, round, merge_loop}
use ascent_db.Engine.Compact.Survivors.{survivors}
use ascent_db.Engine.Compact.Output.{range_from, range_now, concat, Builds, Room, keep_lem}

unfoldable kept : (Record → Bool) → List ℕ → Record → List Record
kept drop_it last r = if equal_bytes r.user_key last then [] else if drop_it r then [] else r ∷ []

unfoldable last_after : List ℕ → Record → List ℕ
last_after last r = if equal_bytes r.user_key last then last else r.user_key

survivors-cons :
    (drop_it : Record → Bool) (last : List ℕ) (r : Record) (l : List Record)
    → survivors drop_it last (r ∷ l)
      ≡ kept drop_it last r ++ survivors drop_it (last_after last r) l
unfolding survivors kept last_after
survivors-cons drop_it last r l = elim (Bool-cases (equal_bytes r.user_key last)) [
  | inl e ↦ rw e refl
  | inr e ↦ elim (Bool-cases (drop_it r)) [ inl d ↦ rw (e, d) refl | inr d ↦ rw (e, d) refl ]
]

-- A range without keys is that of no records.
extend_some :
    (range : InternalKey × InternalKey) (rs : List Record) → range_from (some range) rs ≢ none
unfolding range_from extend
extend_some range [] = λ e. cc e
extend_some (a, b) (r ∷ rs) = extend_some (a, r.internal_key) rs

pub range_from-none : (rs : List Record) → range_from none rs ≡ none → rs ≡ []
unfolding range_from extend
range_from-none [] e = refl
range_from-none (r ∷ rs) e = absurd (extend_some (r.internal_key, r.internal_key) rs e)

module _ (block_size : ℕ) (filter : Filter) (max_sstable_size : ℕ) (level : ℕ)
    (is_bottom_level : Bool) (oldest_snap : ℕ) (fine : Filter.IsFilter filter) where
  abbrev pub Ok : CompactionOutput → List (List Record) → List Record → Type 0
  Ok = Builds block_size filter max_sstable_size level is_bottom_level oldest_snap

  abbrev pub dropping : Record → Bool
  dropping = drops block_size filter max_sstable_size level is_bottom_level oldest_snap

  named :
      (o : CompactionOutput) (cs : List (List Record)) (cur : List Record) (u : List ℕ)
      → Ok o cs cur
      → Ok (record o { last_user_key = u }) cs cur
  unfolding range_now
  named o cs cur u b = record {
    w = b.w;
    writing = b.writing;
    tables = b.tables;
    added = b.added;
    valid = b.valid;
    bounded = b.bounded;
    below = b.below;
    range = b.range;
  }

  -- What one round leads to.
  abbrev Rounds : CompactionOutput → List (List Record) → List Record → Record → Type 0
  Rounds o cs cur r =
      (o' : CompactionOutput) × (cs' : List (List Record)) × (cur' : List Record) × (round
          block_size filter max_sstable_size level is_bottom_level oldest_snap o r
        ≡ ok o')
      × Ok o' cs' cur'
      × (concat cs' ++ cur' ≡ (concat cs ++ cur) ++ kept dropping o.last_user_key r)
      × (o'.last_user_key ≡ last_after o.last_user_key r)

  round_lem :
      (o : CompactionOutput) (cs : List (List Record)) (cur : List Record) (r : Record)
      → Ok o cs cur
      → IsRecord r
      → Room block_size filter max_sstable_size level is_bottom_level oldest_snap r
      → Rounds o cs cur r
  unfolding round kept last_after
  round_lem o cs cur r b h room = elim (Bool-cases (equal_bytes r.user_key o.last_user_key)) [
    | inl e ↦ (o, cs, cur, rw e refl, b, rw e (sym (append-nil _)), rw e refl)
    | inr e ↦ elim (Bool-cases (dropping r)) [
      | inl d ↦ (
        record o { last_user_key = r.user_key },
        cs,
        cur,
        rw (e, d) refl,
        named o cs cur r.user_key b,
        rw (e, d) (sym (append-nil _)),
        rw e refl,
      )
      | inr d ↦
          let (o', cs', cur', q, b', all, last) =
            keep_lem block_size filter max_sstable_size level is_bottom_level oldest_snap fine
              (record o { last_user_key = r.user_key }) cs cur r (named o cs cur r.user_key b) h
              room in
          (o', cs', cur', rw (e, d) q, b', rw (e, d) all, rw e last)
    ]
  ]

  pub loop_lem :
      (fuel : ℕ) (heap : List Item) (l : List Record) (o : CompactionOutput)
      (cs : List (List Record)) (cur : List Record)
      → Yields heap l
      → Ok o cs cur
      → All IsRecord l
      → All (Room block_size filter max_sstable_size level is_bottom_level oldest_snap) l
      → length l < fuel
      → (o' : CompactionOutput) × (cs' : List (List Record)) × (cur' : List Record) × (merge_loop
            block_size filter max_sstable_size level is_bottom_level oldest_snap fuel heap o
          ≡ ok o')
        × Ok o' cs' cur'
        × (concat cs' ++ cur' ≡ (concat cs ++ cur) ++ survivors dropping o.last_user_key l)
  unfolding merge_loop empty
  loop_lem zero heap l o cs cur y b valid room enough = absurd (omega arith)
  loop_lem (suc fuel) heap [] o cs cur Yields.done b valid room enough =
      (o, cs, cur, refl, b, unfold survivors in sym (append-nil _))
  loop_lem (suc fuel) heap (r ∷ l) o cs cur
        (Yields.more {y = y} {items = others} {rest = rest} {x = x} e m) b (h, valid) (space, room)
        enough =
      let top = merge_record-popped (y ∷ others) rest x e in
      let popped = pop_and_advance-popped (y ∷ others) rest x e in
      let (o1, cs1, cur1, q, b1, all1, last) = round_lem o cs cur x.current b h space in
      let (o2, cs2, cur2, q2, b2, all2) =
        loop_lem fuel (push_iter (advanced x.iter) rest) l o1 cs1 cur1 m b1 valid room
          (omega arith) in
      (
        o2,
        cs2,
        cur2,
        rw (top, q, popped) q2,
        b2,
        all2
            ∙ ap (λ z. z ++ survivors dropping o1.last_user_key l) all1
            ∙ append_assoc (concat cs ++ cur) (kept dropping o.last_user_key x.current) _
            ∙ ap
                (λ z.
                  (concat cs ++ cur)
                  ++ (kept dropping o.last_user_key x.current ++ survivors dropping z l))
                last
            ∙ ap (λ z. (concat cs ++ cur) ++ z)
                (sym (survivors-cons dropping o.last_user_key x.current l)),
      )
