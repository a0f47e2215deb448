-- ===== src/Engine/Compact/Output.antt =====
-- The tables that writeCompactionOutput makes.
use ascent_db.Prelude.{
  ℕ, ◌+◌, ◌*◌, ◌^◌, ◌≤◌, ◌<◌, ◌≡◌, ◌∙◌, refl, sym, ap, arith, List, [], ◌∷◌, ◌++◌, append_assoc,
  append-nil, length, All, All-append, Option, none, some, Bool, true, false, Bool-cases, inl, inr,
  leb, if◌then◌else◌, ok,
}
use ascent_db.Record.{InternalKey, Record, IsRecord, size}
use ascent_db.Meta.{TableMeta}
use ascent_db.Meta.Versions.{take_file_num}
use ascent_db.Sstable.Format.{Filter}
use ascent_db.Sstable.Filter as Filter
use ascent_db.Sstable.Writer.{TableWriter, create}
use ascent_db.Sstable.Writer as Writer
use ascent_db.Sstable.Writer.Invariant.{add_records}
use ascent_db.Engine.Flush.{extend}
use ascent_db.Engine.Compact.{
  CompactionOutput, open_writer, out_table, close_some, close_writer, close_if_full, extended,
  add_to, keep,
}
use ascent_db.Engine.Compact.Sizes.{
  add_ok, Bounded, create-Bounded, add-Bounded, close_lem, add_records_snoc,
}

-- The first and the last key of a list of records.
unfoldable pub range_from :
    Option (InternalKey × InternalKey) → List Record → Option (InternalKey × InternalKey)
range_from range [] = range
range_from range (r ∷ rs) = range_from (extend range r.internal_key) rs

range_from_snoc :
    (range : Option (InternalKey × InternalKey)) (rs : List Record) (r : Record)
    → range_from range (rs ++ (r ∷ [])) ≡ extend (range_from range rs) r.internal_key
unfolding range_from
range_from_snoc range [] r = refl
range_from_snoc range (x ∷ rs) r = range_from_snoc (extend range x.internal_key) rs r

-- `firstKey` and `lastKey`, once there are any.
unfoldable pub range_now : CompactionOutput → Option (InternalKey × InternalKey)
range_now o = if o.first then none else some (o.first_key, o.last_key)

extended-range :
    (first : Bool) (a b k : InternalKey)
    → some (if first then k else a, k) ≡ extend (if first then none else some (a, b)) k
unfolding extend
extended-range true a b k = refl
extended-range false a b k = refl

not_full : (m n : ℕ) → leb m n ≡ false → n ≤ m
not_full m n h = ground arith

unfoldable pub concat : List (List Record) → List Record
concat [] = []
concat (c ∷ cs) = c ++ concat cs

pub concat_snoc :
    (cs : List (List Record)) (c : List Record) → concat (cs ++ (c ∷ [])) ≡ concat cs ++ c
unfolding concat
concat_snoc [] c = append-nil c
concat_snoc (d ∷ cs) c = ap (λ l. d ++ l) (concat_snoc cs c) ∙ sym (append_assoc d (concat cs) c)

module _ (block_size : ℕ) (filter : Filter) (max_sstable_size : ℕ) (level : ℕ)
    (is_bottom_level : Bool) (oldest_snap : ℕ) where
  -- A file that holds these records, with its entry.
  pub record Holding (t : TableMeta) (f : ℕ × List ℕ) (c : List Record) : Type 0 where
    pub w : TableWriter
    pub added : add_records (create block_size filter) c ≡ ok w
    pub closed : Writer.close w ≡ ok f.1
    pub num : t.file_num ≡ f.0
    pub file_size : t.file_size ≡ length f.1
    pub at_level : t.level ≡ level
    pub range : range_from none c ≡ some (t.min_key, t.max_key)

  pub data Tables : List TableMeta → List (ℕ × List ℕ) → List (List Record) → Type 0 where
    no_tables : Tables [] [] []
    table :
        {ts : List TableMeta} {fs : List (ℕ × List ℕ)} {cs : List (List Record)} {t : TableMeta}
        {f : ℕ × List ℕ} {c : List Record}
        → Tables ts fs cs
        → Holding t f c
        → Tables (ts ++ (t ∷ [])) (fs ++ (f ∷ [])) (cs ++ (c ∷ []))

  -- The tables hold `cs`, and the open writer `cur`.
  pub record Builds (o : CompactionOutput) (cs : List (List Record)) (cur : List Record)
      : Type 0 where
    pub w : TableWriter
    pub writing : o.writer ≡ some w
    pub tables : Tables o.out_tables o.files cs
    pub added : add_records (create block_size filter) cur ≡ ok w
    pub valid : All IsRecord cur
    pub bounded : Bounded w
    pub below : w.estimated_size ≤ max_sstable_size
    pub range : range_now o ≡ range_from none cur

  -- The records that the size limit leaves room for.
  abbrev pub Room : Record → Type 0
  Room r = 2 * (max_sstable_size + size r) + 20 < 2 ^ 32

  -- What closing leaves.
  abbrev pub closed_output : CompactionOutput → List ℕ → CompactionOutput
  closed_output o file = record o {
    writer = none;
    out_tables =
        o.out_tables
        ++ (out_table block_size filter max_sstable_size level is_bottom_level oldest_snap o file
            ∷ []);
    files = o.files ++ ((o.file_num, file) ∷ []);
    file_num = (take_file_num o.vs).0;
    vs = (take_file_num o.vs).1;
  }

  pub opened :
      (o : CompactionOutput) (cs : List (List Record))
      → Tables o.out_tables o.files cs
      → Builds
          (open_writer block_size filter max_sstable_size level is_bottom_level oldest_snap o)
          cs
          []
  unfolding open_writer range_now range_from add_records create
  opened o cs tables = record {
    w = create block_size filter;
    writing = refl;
    tables = tables;
    added = refl;
    valid = tt;
    bounded = create-Bounded block_size filter;
    below = omega arith;
    range = refl;
  }

  module _ (fine : Filter.IsFilter filter) where
    pub close_some_lem :
        (o : CompactionOutput) (w : TableWriter) (cs : List (List Record)) (c : List Record)
        → Tables o.out_tables o.files cs
        → add_records (create block_size filter) c ≡ ok w
        → All IsRecord c
        → Bounded w
        → 2 * w.estimated_size + 20 < 2 ^ 32
        → o.first ≡ false
        → range_now o ≡ range_from none c
        → (file : List ℕ) × (Writer.close w ≡ ok file)
          × Tables
              (o.out_tables
                ++ (out_table block_size filter max_sstable_size level is_bottom_level oldest_snap o
                      file
                    ∷ []))
              (o.files ++ ((o.file_num, file) ∷ []))
              (cs ++ (c ∷ []))
    unfolding range_now out_table
    close_some_lem o w cs c tables added valid bounded room started range =
        let (file, closed) = close_lem block_size filter c w fine valid added bounded room in
        (
          file,
          closed,
          table tables (record {
            w = w;
            added = added;
            closed = closed;
            num = refl;
            file_size = refl;
            at_level = refl;
            range =
                sym range ∙ ap (λ b. if b then none else some (o.first_key, o.last_key)) started;
          }),
        )

    -- A round that keeps the record.
    pub keep_lem :
        (o : CompactionOutput) (cs : List (List Record)) (cur : List Record) (r : Record)
        → Builds o cs cur
        → IsRecord r
        → Room r
        → (o' : CompactionOutput) × (cs' : List (List Record)) × (cur' : List Record) × (keep
              block_size filter max_sstable_size level is_bottom_level oldest_snap o r
            ≡ ok o')
          × Builds o' cs' cur'
          × (concat cs' ++ cur' ≡ (concat cs ++ cur) ++ (r ∷ []))
          × (o'.last_user_key ≡ o.last_user_key)
    unfolding keep add_to close_if_full close_writer close_some open_writer extended range_now
        range_from
    keep_lem o cs cur r b h room =
        let (w', e) = add_ok block_size filter cur b.w r fine b.valid b.added h in
        let (bounded, estimated) = add-Bounded b.w w' r h e b.bounded in
        let added = add_records_snoc (create block_size filter) b.w w' cur r b.added e in
        let valid = All-append IsRecord cur (r ∷ []) b.valid (h, tt) in
        let o1 : CompactionOutput =
          record (extended block_size filter max_sstable_size level is_bottom_level oldest_snap o
            r.internal_key) { writer = some w' } in
        let range : range_now o1 ≡ range_from none (cur ++ (r ∷ [])) =
          extended-range o.first o.first_key o.last_key r.internal_key
          ∙ ap (λ z. extend z r.internal_key) b.range
          ∙ sym (range_from_snoc none cur r) in
        elim (Bool-cases (leb max_sstable_size w'.estimated_size)) [
          | inl t ↦
              let (file, closed, tables) =
                close_some_lem o1 w' cs (cur ++ (r ∷ [])) b.tables added valid bounded
                  (omega (arith, room, estimated, b.below)) refl range in
              (
                open_writer block_size filter max_sstable_size level is_bottom_level oldest_snap
                    (closed_output o1 file),
                cs ++ ((cur ++ (r ∷ [])) ∷ []),
                [],
                rw (b.writing, e, t, closed) refl,
                opened (closed_output o1 file) (cs ++ ((cur ++ (r ∷ [])) ∷ [])) tables,
                append-nil _
                    ∙ concat_snoc cs (cur ++ (r ∷ []))
                    ∙ sym (append_assoc (concat cs) cur (r ∷ [])),
                refl,
              )
          | inr t ↦ (
            o1,
            cs,
            cur ++ (r ∷ []),
            rw (b.writing, e, t) refl,
            record {
              w = w';
              writing = refl;
              tables = b.tables;
              added = added;
              valid = valid;
              bounded = bounded;
              below = not_full max_sstable_size w'.estimated_size t;
              range = range;
            },
            sym (append_assoc (concat cs) cur (r ∷ [])),
            refl,
          )
        ]
