-- ===== src/Engine/Lookup.antt =====
-- What Get finds in the whole engine: in the memtable, in the one that is being flushed, and in the
-- tables.
use ascent_db.Prelude.{
  ℕ, ◌≡◌, ◌∙◌, refl, List, [], ◌∷◌, ◌++◌, Option, none, some, ◌==◌, Bool-cases, inl, inr, Result,
  ok,
}
use ascent_db.Record.{InternalKey, Record, type_del}
use ascent_db.Meta.{TableMeta}
use ascent_db.Memtable.Table.{Memtable}
use ascent_db.Memtable.Table as Table
use ascent_db.Memtable.Invariant.{view}
use ascent_db.Memtable.History.{Holds, get-Holds}
use ascent_db.Sstable.Reader.Lookup.{Answer}
use ascent_db.Engine.{Engine}
use ascent_db.Engine.Read.{
  TableGet, check_level0, get_from_tables, live, settled, unless_settled, get_from_immt, get_immt,
  get,
}
use ascent_db.Engine.Answers.{Newer, Answer-newer, Answer-missing}
use ascent_db.Engine.Levels.{Pile, Below, check_level0-Answer, check_levels-Answer}

-- A memtable that may be absent holds these records.
abbrev pub HoldsRotated : Option Memtable → List Record → Type 0
HoldsRotated none rs = rs ≡ []
HoldsRotated (some m) rs = Holds m rs

-- The engine stores these records: `recent` in the memtable, `rotated` in the one that is being
-- flushed, `top` in the tables of level 0 and `deep` in those below. Of one user key each part is
-- newer than those behind it. The records of a table in level 0 are in its key range, those of each
-- deeper level are in the order of their keys over its tables, and the readers answer from them.
pub record Stores (table_get : TableGet) (e : Engine) (recent rotated top deep : List Record)
    : Type 0 where
  pub in_mt : Holds e.mt recent
  pub in_immt : HoldsRotated e.immt rotated
  pub level0 : List TableMeta
  pub below : List (List TableMeta)
  pub levels_eq : e.vs.levels ≡ level0 ∷ below
  pub in_level0 : Pile table_get level0 top
  pub in_below : Below table_get below deep
  pub recent_newer : Newer recent (rotated ++ (top ++ deep))
  pub rotated_newer : Newer rotated (top ++ deep)
  pub top_newer : Newer top deep

settled-view-some : (r : Record) → settled (view (some r)) ≡ some (live (some r))
unfolding settled view live
settled-view-some r = elim (Bool-cases (r.typ == type_del)) [ inl e ↦ rw e | inr e ↦ rw e ]

settled-view-none : settled (view none) ≡ none
unfolding settled view
settled-view-none = refl

get_from_tables-Answer :
    {table_get : TableGet} {e : Engine} {recent rotated top deep : List Record} (key : InternalKey)
    → Stores table_get e recent rotated top deep
    → Answer key (top ++ deep) (get_from_tables table_get key e.vs.levels)
unfolding get_from_tables
get_from_tables-Answer {table_get} {top = top} key s = rw s.levels_eq (
    check_levels-Answer table_get key top (check_level0 table_get key s.level0 none) s.in_below
      s.top_newer (check_level0-Answer table_get key s.in_level0))

get_immt-Answer :
    (immt : Option Memtable) (rotated : List Record) (key : InternalKey)
    → HoldsRotated immt rotated
    → (o : Option Record) × (get_immt immt key ≡ ok (settled (view o))) × Answer key rotated o
unfolding get_immt settled view
get_immt-Answer none rotated key e = (none, refl, rw e (Answer.missing tt))
get_immt-Answer (some m) rotated key h = let (o, e, answer) = get-Holds key h in (o, rw e, answer)

abbrev key : List ℕ → ℕ → InternalKey
key user_key seq_num = record { user_key = user_key; seq_num = seq_num; typ = 0 }

unless_settled-some :
    (v : Option (Option (List ℕ))) (r : Option (List ℕ)) (rest : Result (Option (List ℕ)))
    → v ≡ some r
    → unless_settled v rest ≡ ok r
unless_settled-some v r rest e = rw e (unfold unless_settled in refl)

unless_settled-none :
    (v : Option (Option (List ℕ))) (rest : Result (Option (List ℕ)))
    → v ≡ none
    → unless_settled v rest ≡ rest
unless_settled-none v rest e = rw e (unfold unless_settled in refl)

-- The three places where Get ends.
module _ (table_get : TableGet) (e : Engine) (user_key : List ℕ) (seq_num : ℕ) where
  in_mt_ends :
      (r : Record)
      → Table.get e.mt user_key (key user_key seq_num) ≡ ok (view (some r))
      → get table_get e user_key seq_num ≡ ok (live (some r))
  unfolding get
  in_mt_ends r q = rw q (unless_settled-some (settled (view (some r))) _ _ (settled-view-some r))

  in_immt_ends :
      (r : Record)
      → Table.get e.mt user_key (key user_key seq_num) ≡ ok (view none)
      → get_immt e.immt (key user_key seq_num) ≡ ok (settled (view (some r)))
      → get table_get e user_key seq_num ≡ ok (live (some r))
  unfolding get get_from_immt
  in_immt_ends r q q' =
      let later : get_from_immt table_get e (key user_key seq_num) ≡ ok (live (some r)) =
        rw q' (unless_settled-some (settled (view (some r))) _ _ (settled-view-some r)) in
      rw q (unless_settled-none (settled (view none)) _ settled-view-none ∙ later)

  in_tables_ends :
      Table.get e.mt user_key (key user_key seq_num) ≡ ok (view none)
      → get_immt e.immt (key user_key seq_num) ≡ ok (settled (view none))
      → get table_get e user_key seq_num
        ≡ ok (live (get_from_tables table_get (key user_key seq_num) e.vs.levels))
  unfolding get get_from_immt
  in_tables_ends q q' =
      let later : get_from_immt table_get e (key user_key seq_num)
          ≡ ok (live (get_from_tables table_get (key user_key seq_num) e.vs.levels)) =
        rw q' (unless_settled-none (settled (view none)) _ settled-view-none) in
      rw q (unless_settled-none (settled (view none)) _ settled-view-none ∙ later)

found_in :
    {table_get : TableGet} {e : Engine} {recent rotated top deep : List Record} (user_key : List ℕ)
    (seq_num : ℕ) (s : Stores table_get e recent rotated top deep) (o o' : Option Record)
    → Table.get e.mt user_key (key user_key seq_num) ≡ ok (view o)
    → get_immt e.immt (key user_key seq_num) ≡ ok (settled (view o'))
    → Answer (key user_key seq_num) recent o
    → Answer (key user_key seq_num) rotated o'
    → (o : Option Record) × (get table_get e user_key seq_num ≡ ok (live o))
      × Answer (key user_key seq_num) (recent ++ (rotated ++ (top ++ deep))) o
found_in {table_get} {e} {recent} {rotated} {top} {deep} user_key seq_num s (some r) o' q q' a a' =
    (
      some r,
      in_mt_ends table_get e user_key seq_num r q,
      Answer-newer recent (rotated ++ (top ++ deep)) r s.recent_newer a,
    )
found_in {table_get} {e} {recent} {rotated} {top} {deep} user_key seq_num s none (some r) q q' a
      a' =
    (
      some r,
      in_immt_ends table_get e user_key seq_num r q q',
      Answer-missing recent (rotated ++ (top ++ deep)) (some r) a
          (Answer-newer rotated (top ++ deep) r s.rotated_newer a'),
    )
found_in {table_get} {e} {recent} {rotated} {top} {deep} user_key seq_num s none none q q' a a' = (
  get_from_tables table_get (key user_key seq_num) e.vs.levels,
  in_tables_ends table_get e user_key seq_num q q',
  Answer-missing recent (rotated ++ (top ++ deep))
      (get_from_tables table_get (key user_key seq_num) e.vs.levels) a
      (Answer-missing rotated (top ++ deep)
        (get_from_tables table_get (key user_key seq_num) e.vs.levels) a'
        (get_from_tables-Answer (key user_key seq_num) s)),
)

-- An engine whose memtable, rotated memtable, level 0 and deeper levels hold these records finds of
-- any user key the newest record that is not newer than the sequence number: Get ends without a
-- panic and returns its value, or none if the record deletes the key or there is none. Conditions:
-- each part is newer than those behind it for the same user key; the records of a table in level 0
-- are in its key range; the records of each deeper level are in the order of their keys over its
-- tables, each of which ends with its largest key; and the readers of all tables answer from these
-- records without an error.
pub get-newest :
    {table_get : TableGet} {e : Engine} {recent rotated top deep : List Record} (user_key : List ℕ)
    (seq_num : ℕ)
    → Stores table_get e recent rotated top deep
    → (o : Option Record) × (get table_get e user_key seq_num ≡ ok (live o))
      × Answer
          (record { user_key = user_key; seq_num = seq_num; typ = 0 })
          (recent ++ (rotated ++ (top ++ deep)))
          o
get-newest {table_get} {e} {recent} {rotated} {top} {deep} user_key seq_num s =
    let (o, q, answer) = get-Holds (key user_key seq_num) s.in_mt in
    let (o', q', answer') = get_immt-Answer e.immt rotated (key user_key seq_num) s.in_immt in
    found_in user_key seq_num s o o' q q' answer answer'
