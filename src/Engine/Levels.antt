-- ===== src/Engine/Levels.antt =====
-- What Get finds in the tables of all levels.
use ascent_db.Prelude.{
  All-append, All-weaken, All-right, Option-cases, suc, ◌<◌, ◌≡◌, refl, ap, List, [], ◌∷◌, ◌++◌,
  append_assoc, append-nil, length, get_elem?, All, Option, none, some, true, false, ◌||◌, less,
  is_less, is_greater, Bool-cases, inl, inr,
}
use mathlib.Core.Path.{subst}
use ascent_db.Bytes.Compare.{compare_bytes}
use ascent_db.Record.{InternalKey, Record, compare}
use ascent_db.Meta.{TableMeta}
use ascent_db.Sstable.Search.{search}
use ascent_db.Sstable.Reader.{keys, Sorted, smaller, search-smaller, at_least}
use ascent_db.Sstable.Reader.Lookup.{Answer, is_less-eq}
use ascent_db.Sstable.Reader.Table.{All-back, All-front, Sorted-parts}
use ascent_db.Engine.Read.{
  TableGet, better, check_table, check_level0, max_keys, find_table, check_levels,
}
use ascent_db.Engine.Answers.{Newer, Answer-better, Answer-newer, Answer-back, Answer-front}

module _ (table_get : TableGet) where
  -- The reader of the table answers from these records.
  abbrev pub Reads : TableMeta → List Record → Type 0
  Reads t rs =
      (key : InternalKey) → (o : Option Record) × (table_get t key ≡ some o) × Answer key rs o

  -- The user keys of the records are within the range of the table.
  abbrev pub Within : TableMeta → List Record → Type 0
  Within t = All (λ r.
      (is_less (compare_bytes r.user_key t.min_key.user_key)
        || is_greater (compare_bytes r.user_key t.max_key.user_key))
      ≡ false)

  -- Level 0 holds these records, the last table's first.
  pub data Pile : List TableMeta → List Record → Type 0 where
    nothing : Pile [] []
    table :
        {t : TableMeta} {tables : List TableMeta} {rs rest : List Record}
        → Reads t rs
        → Within t rs
        → Pile tables rest
        → Pile (t ∷ tables) (rest ++ rs)

  -- A deeper level holds these records: each table ends with its largest key.
  pub data Run : List TableMeta → List Record → Type 0 where
    nothing : Run [] []
    table :
        {t : TableMeta} {tables : List TableMeta} {rest : List Record} (rs : List Record)
        (r : Record)
        → Reads t (rs ++ (r ∷ []))
        → t.max_key ≡ r.internal_key
        → Run tables rest
        → Run (t ∷ tables) (rs ++ (r ∷ rest))

  -- The levels below level 0 hold these records. A level's are newer than those of the levels below
  -- it with the same user key.
  pub data Below : List (List TableMeta) → List Record → Type 0 where
    nothing : Below [] []
    level :
        {tables : List TableMeta} {levels : List (List TableMeta)} {rs rest : List Record}
        → Run tables rs
        → Sorted (keys rs)
        → Newer rs rest
        → Below levels rest
        → Below (tables ∷ levels) (rs ++ rest)

  check_table-Answer :
      (key : InternalKey) (t : TableMeta) (a rs : List Record) (best : Option Record)
      → Reads t rs
      → Answer key a best
      → Answer key (a ++ rs) (check_table table_get key t best)
  unfolding check_table
  check_table-Answer key t a rs best reads answer =
      let (o, e, read) = reads key in rw (e, check_table) (Answer-better a rs best o answer read)

  outside :
      (key : InternalKey) (t : TableMeta) (rs : List Record)
      → Within t rs
      → (is_less (compare_bytes key.user_key t.min_key.user_key)
          || is_greater (compare_bytes key.user_key t.max_key.user_key))
        ≡ true
      → All (λ x. x.user_key ≡ key.user_key → key.seq_num < x.seq_num) rs
  outside key t [] within e = tt
  outside key t (x ∷ rs) (h, within) e = ((λ q. cc (rw q at h, e)), outside key t rs within e)

  pub check_level0-Answer :
      {tables : List TableMeta} {rs : List Record} (key : InternalKey)
      → Pile tables rs
      → Answer key rs (check_level0 table_get key tables none)
  unfolding check_level0 better
  check_level0-Answer key nothing = Answer.missing tt
  check_level0-Answer key (table {t} {tables} {rs} {rest} reads within pile) =
      elim (Bool-cases (
        is_less (compare_bytes key.user_key t.min_key.user_key)
        || is_greater (compare_bytes key.user_key t.max_key.user_key))) [
          | inl e ↦ rw e (
              Answer-better rest rs (check_level0 table_get key tables none) none
                (check_level0-Answer key pile) (Answer.missing (outside key t rs within e)))
          | inr e ↦ rw e (
              check_table-Answer key t rest rs (check_level0 table_get key tables none) reads
                (check_level0-Answer key pile))
        ]

  max_keys-All :
      (P : InternalKey → Type 0) {tables : List TableMeta} {all : List Record}
      → Run tables all
      → All P (keys all)
      → All P (max_keys tables)
  max_keys-All P nothing h = tt
  max_keys-All P (table {rest = rest} rs r reads e run) h =
      (rw e (All-back P rs r rest h), max_keys-All P run (All-front P rs r rest h).1)

  max_keys-Sorted :
      {tables : List TableMeta} {all : List Record}
      → Run tables all
      → Sorted (keys all)
      → Sorted (max_keys tables)
  unfolding Sorted
  max_keys-Sorted nothing s = tt
  max_keys-Sorted (table {rest = rest} rs r reads e run) s =
      let (front, before, back) = Sorted-parts rs r rest s in
      (
        rw e (max_keys-All (λ k. compare r.internal_key k ≡ less) run before),
        max_keys-Sorted run back,
      )

  -- What the table at an index, if there is one, says of the whole level.
  abbrev Says : InternalKey → List Record → Option TableMeta → Type 0
  Says key all found = elim found [
    | none ↦ Answer key all none
    | some t ↦ (o : Option Record) × (table_get t key ≡ some o) × Answer key all o
  ]

  Says-back :
      (key : InternalKey) (rs : List Record) (r : Record) (rest : List Record)
      (found : Option TableMeta)
      → Sorted (keys (rs ++ (r ∷ [])))
      → compare r.internal_key key ≡ less
      → Says key rest found
      → Says key (rs ++ (r ∷ rest)) found
  Says-back key rs r rest none s e says = Answer-back key rs r rest none s e says
  Says-back key rs r rest (some t) s e (o, q, says) = (o, q, Answer-back key rs r rest o s e says)

  Run-Says :
      {tables : List TableMeta} {all : List Record} (key : InternalKey)
      → Run tables all
      → Sorted (keys all)
      → Says key all (get_elem? tables (smaller key (max_keys tables)))
  unfolding smaller
  Run-Says key nothing s = Answer.missing tt
  Run-Says key (table {t} {tables} {rest} rs r reads q run) s =
      let (front, before, back) = Sorted-parts rs r rest s in
      elim (Bool-cases (is_less (compare t.max_key key))) [
        | inl lt ↦ rw lt (
            Says-back key rs r rest (get_elem? tables (smaller key (max_keys tables))) front
              (is_less-eq _ (rw q at lt)) (Run-Says key run back))
        | inr ge ↦
            let (o, e, answer) = reads key in
            rw ge (o, e, Answer-front key rs r rest o s (rw q at ge) answer)
      ]

  length-max_keys : (tables : List TableMeta) → length (max_keys tables) ≡ length tables
  length-max_keys [] = refl
  length-max_keys (t ∷ tables) = ap suc (length-max_keys tables)

  find_table-Says :
      {tables : List TableMeta} {all : List Record} (key : InternalKey)
      → Run tables all
      → Sorted (keys all)
      → Says key all (find_table key tables)
  unfolding find_table
  find_table-Says {tables} {all} key run s =
      let position : search (length tables) (at_least key (max_keys tables))
          ≡ smaller key (max_keys tables) =
        rw (length-max_keys tables) at
          (search-smaller key (max_keys tables) (max_keys-Sorted run s)) in
      rw position (Run-Says key run s)

  pub check_levels-Answer :
      (key : InternalKey) {levels : List (List TableMeta)} {rest : List Record}
      (above : List Record) (best : Option Record)
      → Below levels rest
      → Newer above rest
      → Answer key above best
      → Answer key (above ++ rest) (check_levels table_get key levels best)
  unfolding check_levels better check_table
  check_levels-Answer key above best nothing newer answer = rw (append-nil above) answer
  check_levels-Answer key above best (level {tables} {levels} {rs} {rest} run s inner below) newer
        answer =
      let says = find_table-Says key run s in
      let older : Newer (above ++ rs) rest =
        All-append _ above rs (All-weaken (λ x h. All-right _ rs rest h) above newer) inner in
      let joined : (above ++ rs) ++ rest ≡ above ++ (rs ++ rest) = append_assoc above rs rest in
      let onward : (o : Option Record)
          → Answer key (above ++ rs) o
          → Answer key (above ++ (rs ++ rest)) (check_levels table_get key levels o) =
        λ o a.
          subst (λ l. Answer key l (check_levels table_get key levels o)) joined
            (check_levels-Answer key (above ++ rs) o below older a) in
      elim (Option-cases (find_table key tables)) [
        | inl e ↦
            rw (e, check_levels)
              (onward best (Answer-better above rs best none answer (rw e at says)))
        | inr (t, e) ↦
            let (o, q, read) : Says key rs (some t) = rw e at says in
            let c : Answer key (above ++ rs) (check_table table_get key t best) =
              rw (q, check_table) (Answer-better above rs best o answer read) in
            rw (e, check_levels)
              (elim (Option-cases (check_table table_get key t best)) [
                | inl z ↦ rw z (onward none (rw z at c))
                | inr (b, z) ↦ rw z (
                    subst (λ l. Answer key l (some b)) joined
                      (Answer-newer (above ++ rs) rest b older (rw z at c)))
              ])
      ]
