-- ===== src/Sstable/Reader/Table.antt =====
-- What Get finds in a table of several blocks.
use ascent_db.Prelude.{
  is_less, ℕ, suc, ◌<◌, ◌≡◌, ◌≢◌, ◌∙◌, refl, sym, ap, List, [], ◌∷◌, ◌++◌, length, map, get_elem?,
  All, Option, none, some, Bool, true, false, less, Bool-cases, inl, inr, ok,
}
use ascent_db.Record.{InternalKey, Record, compare}
use ascent_db.Record.Order.{compare_trans}
use ascent_db.Sstable.Format.{IndexEntry, Filter}
use ascent_db.Sstable.Filter as Filter
use ascent_db.Sstable.Search.{search}
use ascent_db.Sstable.Reader.{
  at_least, keys, picked, find_block, read_block, get_from, get, Sorted, smaller, search-smaller,
}
use ascent_db.Sstable.Reader.Lookup.{
  Answer, missing, first, search_block-first, first-Answer, is_less-eq,
}

-- The entries of the index stand for the blocks: each reads as its block, whose last key is the
-- separator.
pub data Indexed (file : List ℕ) : List IndexEntry → List Record → Type 0 where
  none_left : Indexed file [] []
  block :
      {e : IndexEntry} {es : List IndexEntry} {rest : List Record} (rs : List Record) (r : Record)
      → read_block file e ≡ ok (rs ++ (r ∷ []))
      → e.separator_key ≡ r.internal_key
      → Indexed file es rest
      → Indexed file (e ∷ es) (rs ++ (r ∷ rest))

abbrev pub separators : List IndexEntry → List InternalKey
separators = map (λ e. e.separator_key)

first-cons_less :
    (key : InternalKey) (x : Record) (xs : List Record)
    → compare x.internal_key key ≡ less
    → first key (x ∷ xs) ≡ first key xs
unfolding first smaller
first-cons_less key x xs h = rw h

first-cons :
    (key : InternalKey) (x : Record) (xs ys : List Record)
    → first key xs ≡ first key ys
    → first key (x ∷ xs) ≡ first key (x ∷ ys)
unfolding first smaller
first-cons key x xs ys h = elim (Bool-cases (is_less (compare x.internal_key key))) [
  | inl e ↦ rw e h
  | inr e ↦ rw e
]

first-head :
    (key : InternalKey) (r : Record) (rest : List Record)
    → is_less (compare r.internal_key key) ≡ false
    → first key (r ∷ rest) ≡ first key (r ∷ [])
unfolding first smaller
first-head key r rest h = rw h

-- A block whose last key is not below the lookup key hides the blocks behind it.
first-front :
    (key : InternalKey) (rs : List Record) (r : Record) (rest : List Record)
    → is_less (compare r.internal_key key) ≡ false
    → first key (rs ++ (r ∷ rest)) ≡ first key (rs ++ (r ∷ []))
first-front key [] r rest h = first-head key r rest h
first-front key (x ∷ rs) r rest h =
    first-cons key x (rs ++ (r ∷ rest)) (rs ++ (r ∷ [])) (first-front key rs r rest h)

pub All-back :
    (P : InternalKey → Type 0) (rs : List Record) (r : Record) (rest : List Record)
    → All P (keys (rs ++ (r ∷ rest)))
    → P r.internal_key
All-back P [] r rest (h, all) = h
All-back P (x ∷ rs) r rest (h, all) = All-back P rs r rest all

pub All-front :
    (P : InternalKey → Type 0) (rs : List Record) (r : Record) (rest : List Record)
    → All P (keys (rs ++ (r ∷ rest)))
    → All P (keys (rs ++ (r ∷ []))) × All P (keys rest)
All-front P [] r rest (h, all) = ((h, tt), all)
All-front P (x ∷ rs) r rest (h, all) = let (a, b) = All-front P rs r rest all in ((h, a), b)

-- A block whose last key is below the lookup key holds nothing of interest.
first-back :
    (key : InternalKey) (rs : List Record) (r : Record) (rest : List Record)
    → Sorted (keys (rs ++ (r ∷ rest)))
    → compare r.internal_key key ≡ less
    → first key (rs ++ (r ∷ rest)) ≡ first key rest
unfolding Sorted
first-back key [] r rest s h = first-cons_less key r rest h
first-back key (x ∷ rs) r rest (before, s) h =
    let below : compare x.internal_key r.internal_key ≡ less =
      All-back (λ k. compare x.internal_key k ≡ less) rs r rest before in
    first-cons_less key x (rs ++ (r ∷ rest))
      (compare_trans x.internal_key r.internal_key key below h)
    ∙ first-back key rs r rest s h

pub Sorted-parts :
    (rs : List Record) (r : Record) (rest : List Record)
    → Sorted (keys (rs ++ (r ∷ rest)))
    → Sorted (keys (rs ++ (r ∷ [])))
      × All (λ k. compare r.internal_key k ≡ less) (keys rest)
      × Sorted (keys rest)
unfolding Sorted
Sorted-parts [] r rest (before, s) = ((tt, tt), before, s)
Sorted-parts (x ∷ rs) r rest (before, s) =
    let (a, b, c) = Sorted-parts rs r rest s in
    (((All-front (λ k. compare x.internal_key k ≡ less) rs r rest before).0, a), b, c)

separators-All :
    (P : InternalKey → Type 0) {file : List ℕ} {es : List IndexEntry} {all : List Record}
    → Indexed file es all
    → All P (keys all)
    → All P (separators es)
separators-All P none_left h = tt
separators-All P (block rs r e q i) h =
    (rw q (All-back P rs r _ h), separators-All P i (All-front P rs r _ h).1)

pub separators-Sorted :
    {file : List ℕ} {es : List IndexEntry} {all : List Record}
    → Indexed file es all
    → Sorted (keys all)
    → Sorted (separators es)
unfolding Sorted
separators-Sorted none_left h = tt
separators-Sorted (block rs r e q i) h =
    let (a, b, c) = Sorted-parts rs r _ h in
    (rw q (separators-All (λ k. compare r.internal_key k ≡ less) i b), separators-Sorted i c)

get_from-block :
    (file : List ℕ) (key : InternalKey) (e : IndexEntry) (b : List Record)
    → read_block file e ≡ ok b
    → Sorted (keys b)
    → get_from file key (some e) ≡ ok (first key b)
unfolding get_from
get_from-block file key e b h s = rw h (ap ok (search_block-first key b s))

get_from-first :
    {file : List ℕ} {es : List IndexEntry} {all : List Record} (key : InternalKey)
    → Indexed file es all
    → Sorted (keys all)
    → get_from file key (get_elem? es (smaller key (separators es))) ≡ ok (first key all)
unfolding smaller get_from first picked
get_from-first key none_left s = refl
get_from-first {file} key (block {e} {es} {rest} rs r q sep i) s =
    let (front, before, back) = Sorted-parts rs r rest s in
    elim (Bool-cases (is_less (compare e.separator_key key))) [
      | inl lt ↦
          let below : compare r.internal_key key ≡ less = is_less-eq _ (rw sep at lt) in
          rw lt (get_from-first key i back ∙ ap ok (sym (first-back key rs r rest s below)))
      | inr ge ↦ rw ge (
          get_from-block file key e (rs ++ (r ∷ [])) q front
          ∙ ap ok (sym (first-front key rs r rest (rw sep at ge))))
    ]

length-separators : (es : List IndexEntry) → length (separators es) ≡ length es
length-separators [] = refl
length-separators (e ∷ es) = ap suc (length-separators es)

pub search-separators :
    (key : InternalKey) (es : List IndexEntry)
    → Sorted (separators es)
    → search (length es) (at_least key (separators es)) ≡ smaller key (separators es)
search-separators key es s = rw (length-separators es) at (search-smaller key (separators es) s)

find_block-smaller :
    (key : InternalKey) (es : List IndexEntry)
    → Sorted (separators es)
    → find_block key es ≡ get_elem? es (smaller key (separators es))
unfolding find_block
find_block-smaller key es s = ap (λ i. get_elem? es i) (search-separators key es s)

ok-ne : ok false ≢ ok true
ok-ne e = cc e

-- If the filter does not know the user key, no record has it.
filtered :
    (key : InternalKey) (filter : Filter) (all : List Record)
    → All (λ r. Filter.contains r.user_key filter ≡ ok true) all
    → Filter.contains key.user_key filter ≡ ok false
    → All (λ x. x.user_key ≡ key.user_key → key.seq_num < x.seq_num) all
filtered key filter [] known h = tt
filtered key filter (x ∷ all) (k, known) h = (
  (λ e. absurd (ok-ne (sym h ∙ ap (λ u. Filter.contains u filter) (sym e) ∙ k))),
  filtered key filter all known h,
)

pub get-Answer :
    (file : List ℕ) (filter : Filter) (index : List IndexEntry) (all : List Record)
    (key : InternalKey) (known : Bool)
    → Indexed file index all
    → Sorted (keys all)
    → All (λ r. Filter.contains r.user_key filter ≡ ok true) all
    → Filter.contains key.user_key filter ≡ ok known
    → (o : Option Record) × (get file filter index key ≡ ok o) × Answer key all o
unfolding get
get-Answer file filter index all key true i s inside h = (
  first key all,
  rw (h, find_block-smaller key index (separators-Sorted i s)) (get_from-first key i s),
  first-Answer key all s,
)
get-Answer file filter index all key false i s inside h =
    (none, rw h, missing (filtered key filter all inside h))
