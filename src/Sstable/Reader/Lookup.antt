-- ===== src/Sstable/Reader/Lookup.antt =====
-- What Get finds in a block.
use ascent_db.Prelude.{
  is_less, suc, ◌≤◌, ◌<◌, ◌≡◌, ◌≢◌, ◌∙◌, refl, sym, ap, arith, List, [], ◌∷◌, length, get_elem?,
  All, Option, none, some, true, false, less, Bool-cases, inl, inr, Sign, same, greater, ltb,
  ltb→lt, ltb→le,
}
use mathlib.Core.List.{Memᴰ}
use ascent_db.Bytes.Compare.{equal_bytes, equal_bytes_iff, compare_bytes-eq}
use ascent_db.Record.{InternalKey, Record, compare}
use ascent_db.Record.Order.{compare-same_user_key}
use ascent_db.Sstable.Reader.{at_least, keys, picked, search_block, Sorted, smaller, search-smaller}
use ascent_db.Sstable.Search.{search}

-- The result of a lookup: the newest record of the user key that is not newer than the lookup key,
-- or none if there is no such record.
pub data Answer (key : InternalKey) (entries : List Record) : Option Record → Type 0 where
  found :
      {r : Record}
      → Memᴰ r entries
      → r.user_key ≡ key.user_key
      → r.seq_num ≤ key.seq_num
      → All
          (λ x. x.user_key ≡ key.user_key → x.seq_num ≤ key.seq_num → x.seq_num ≤ r.seq_num)
          entries
      → Answer key entries (some r)
  missing :
      All (λ x. x.user_key ≡ key.user_key → key.seq_num < x.seq_num) entries
      → Answer key entries none

length-map : (entries : List Record) → length (keys entries) ≡ length entries
length-map [] = refl
length-map (r ∷ rs) = ap suc (length-map rs)

position :
    (key : InternalKey) (entries : List Record)
    → Sorted (keys entries)
    → search (length entries) (at_least key (keys entries)) ≡ smaller key (keys entries)
position key entries s = rw (length-map entries) at (search-smaller key (keys entries) s)

-- The record behind the smaller ones.
unfoldable pub first : InternalKey → List Record → Option Record
first key entries = picked key (get_elem? entries (smaller key (keys entries)))

pub search_block-first :
    (key : InternalKey) (entries : List Record)
    → Sorted (keys entries)
    → search_block key entries ≡ first key entries
unfolding search_block first
search_block-first key entries s =
    ap (λ i. picked key (get_elem? entries i)) (position key entries s)

-- A smaller record in front changes nothing.
pub Answer-cons :
    (key : InternalKey) (r : Record) (entries : List Record) (o : Option Record)
    → compare r.internal_key key ≡ less
    → Answer key entries o
    → Answer key (r ∷ entries) o
Answer-cons key r entries o h (found m e n all) =
    found (Memᴰ.tail m) e n (
      (λ e' n'. absurd (omega (arith, (compare-same_user_key r.internal_key key e').0 h, n'))),
      all,
    )
Answer-cons key r entries o h (missing all) =
    missing ((λ e'. (compare-same_user_key r.internal_key key e').0 h), all)

-- The records behind a record are older or of another user key.
older :
    (key : InternalKey) (r : Record) (rs : List Record)
    → r.user_key ≡ key.user_key
    → All (λ k. compare r.internal_key k ≡ less) (keys rs)
    → All (λ x. x.user_key ≡ key.user_key → x.seq_num ≤ key.seq_num → x.seq_num ≤ r.seq_num) rs
older key r [] e all = tt
older key r (x ∷ rs) e (h, all) = (
  (λ e' n. omega (arith, (compare-same_user_key r.internal_key x.internal_key (e ∙ sym e')).0 h)),
  older key r rs e all,
)

-- Behind a record with a larger user key, the user key does not come.
absent :
    (key : InternalKey) (r : Record) (rs : List Record)
    → r.user_key ≢ key.user_key
    → is_less (compare r.internal_key key) ≡ false
    → All (λ k. compare r.internal_key k ≡ less) (keys rs)
    → All (λ x. x.user_key ≡ key.user_key → key.seq_num < x.seq_num) rs
unfolding compare
absent key r [] ne h all = tt
absent key r (x ∷ rs) ne h (before, all) = (
  (λ e. ground (arith, compare_bytes-eq r.user_key key.user_key, before, h, ne, e)),
  absent key r rs ne h all,
)

pub is_less-eq : (s : Sign) → is_less s ≡ true → s ≡ less
is_less-eq less h = refl
is_less-eq same h = cc
is_less-eq greater h = cc

-- A record of the user key that is not below the lookup key is not newer.
not_newer :
    (key : InternalKey) (r : Record)
    → r.user_key ≡ key.user_key
    → is_less (compare r.internal_key key) ≡ false
    → r.seq_num ≤ key.seq_num
not_newer key r e h = elim (Bool-cases (ltb key.seq_num r.seq_num)) [
  | inl lt ↦
      let below : compare r.internal_key key ≡ less =
        (compare-same_user_key r.internal_key key e).1 (ltb→lt key.seq_num r.seq_num lt) in
      cc (h, below)
  | inr le ↦ ltb→le key.seq_num r.seq_num le
]

-- The first record that is not smaller settles the answer.
picked-Answer :
    (key : InternalKey) (r : Record) (rs : List Record)
    → All (λ k. compare r.internal_key k ≡ less) (keys rs)
    → is_less (compare r.internal_key key) ≡ false
    → Answer key (r ∷ rs) (picked key (some r))
unfolding picked
picked-Answer key r rs before h = elim (Bool-cases (equal_bytes r.user_key key.user_key)) [
  | inl q ↦
      let e : r.user_key ≡ key.user_key = (equal_bytes_iff r.user_key key.user_key).0 q in
      rw q (
        found (Memᴰ.head refl) e (not_newer key r e h)
          ((λ e' n. omega arith), older key r rs e before))
  | inr q ↦
      let ne : r.user_key ≢ key.user_key =
        λ e. cc (q, (equal_bytes_iff r.user_key key.user_key).1 e) in
      rw q (missing ((λ e. absurd (ne e)), absent key r rs ne h before))
]

pub first-Answer :
    (key : InternalKey) (entries : List Record)
    → Sorted (keys entries)
    → Answer key entries (first key entries)
unfolding first picked smaller Sorted
first-Answer key [] s = missing tt
first-Answer key (r ∷ rs) (before, s) = elim (Bool-cases (is_less (compare r.internal_key key))) [
  | inl e ↦ rw e (Answer-cons key r rs (first key rs) (is_less-eq _ e) (first-Answer key rs s))
  | inr e ↦ rw e (picked-Answer key r rs before e)
]

-- In a block whose keys are in order, the binary search of Get finds the newest record of the user
-- key that is not newer than the lookup key, and nothing exactly if there is no such record.
pub search_block-Answer :
    (key : InternalKey) (entries : List Record)
    → Sorted (keys entries)
    → Answer key entries (search_block key entries)
search_block-Answer key entries s =
    rw (search_block-first key entries s) (first-Answer key entries s)
