-- ===== src/Engine/Scan/Thinned.antt =====
-- Records that a scan cannot show may be missing from its sources.
use ascent_db.Prelude.{
  ℕ, ◌<◌, ◌≤◌, ◌≡◌, ap, arith, List, [], ◌∷◌, ◌++◌, All, Option, less, is_less, is_greater,
  Bool-cases, inl, inr, true,
}
use mathlib.Core.List.{Memᴰ}
use ascent_db.Bytes.Compare.{compare_bytes, compare_bytes-flip}
use ascent_db.Record.{InternalKey, Record, compare}
use ascent_db.Sstable.Reader.{keys, Sorted}
use ascent_db.Sstable.Reader.Lookup.{Answer}
use ascent_db.Meta.Overlap.{AtMost}
use ascent_db.Memtable.Iterate.{from_key}
use ascent_db.Merge.Order.{Upto, Ascending}

-- A record that a lookup with this key passes over.
abbrev pub Unseen : InternalKey → Record → Type 0
Unseen key r = r.user_key ≡ key.user_key → key.seq_num < r.seq_num

-- The second list is the first one without some records that are not seen.
pub data Thinned (key : InternalKey) : List Record → List Record → Type 0 where
  nothing : Thinned key [] []
  both :
      {r : Record} {rs part : List Record} → Thinned key rs part → Thinned key (r ∷ rs) (r ∷ part)
  only :
      {r : Record} {rs part : List Record}
      → Unseen key r
      → Thinned key rs part
      → Thinned key (r ∷ rs) part

pub Thinned-refl : (key : InternalKey) (rs : List Record) → Thinned key rs rs
Thinned-refl key [] = nothing
Thinned-refl key (r ∷ rs) = both (Thinned-refl key rs)

pub Thinned-append :
    {key : InternalKey} {rs part rs' part' : List Record}
    → Thinned key rs part
    → Thinned key rs' part'
    → Thinned key (rs ++ rs') (part ++ part')
Thinned-append nothing t' = t'
Thinned-append (both t) t' = both (Thinned-append t t')
Thinned-append (only u t) t' = only u (Thinned-append t t')

pub all-Unseen : {key : InternalKey} (rs : List Record) → All (Unseen key) rs → Thinned key rs []
all-Unseen [] all = nothing
all-Unseen (r ∷ rs) (h, all) = only h (all-Unseen rs all)

Thinned-Memᴰ :
    {key : InternalKey} {r : Record} {rs part : List Record}
    → Thinned key rs part
    → Memᴰ r part
    → Memᴰ r rs
Thinned-Memᴰ nothing m = m
Thinned-Memᴰ (both t) (Memᴰ.head p) = Memᴰ.head p
Thinned-Memᴰ (both t) (Memᴰ.tail m) = Memᴰ.tail (Thinned-Memᴰ t m)
Thinned-Memᴰ (only u t) m = Memᴰ.tail (Thinned-Memᴰ t m)

Thinned-All :
    {key : InternalKey} {rs part : List Record} (P : Record → Type 0)
    → ((r : Record) → Unseen key r → P r)
    → Thinned key rs part
    → All P part
    → All P rs
Thinned-All P h nothing all = tt
Thinned-All P h (both t) (p, all) = (p, Thinned-All P h t all)
Thinned-All P h (only {r} u t) all = (h r u, Thinned-All P h t all)

-- The answer is the same.
pub Thinned-Answer :
    {key : InternalKey} {rs part : List Record} {o : Option Record}
    → Thinned key rs part
    → Answer key part o
    → Answer key rs o
Thinned-Answer {key} t (Answer.found {r} m e n all) = Answer.found (Thinned-Memᴰ t m) e n (
    Thinned-All (λ x. x.user_key ≡ key.user_key → x.seq_num ≤ key.seq_num → x.seq_num ≤ r.seq_num)
      (λ x u e' n'. absurd (omega (arith, u e', n'))) t all)
Thinned-Answer {key} t (Answer.missing all) =
    Answer.missing (Thinned-All (Unseen key) (λ x u. u) t all)

-- A record that Seek passes over is of an earlier user key, or too new.
below-Unseen :
    (start u : List ℕ) (n : ℕ) (r : Record)
    → AtMost start u
    → is_less (compare r.internal_key (record { user_key = start; seq_num = n; typ = 0 })) ≡ true
    → Unseen (record { user_key = u; seq_num = n; typ = 0 }) r
unfolding compare
below-Unseen start u n r (AtMost.at_most h) e q =
    ground (arith, h, e, ap (λ k. compare_bytes k start) q, compare_bytes-flip start u)

pub from_key-Thinned :
    (start u : List ℕ) (n : ℕ) (rs : List Record)
    → AtMost start u
    → Thinned
        (record { user_key = u; seq_num = n; typ = 0 })
        rs
        (from_key (record { user_key = start; seq_num = n; typ = 0 }) rs)
unfolding from_key
from_key-Thinned start u n [] h = nothing
from_key-Thinned start u n (r ∷ rs) h =
    elim (Bool-cases
      (is_less (compare r.internal_key (record { user_key = start; seq_num = n; typ = 0 })))) [
        | inl e ↦ rw e (only (below-Unseen start u n r h e) (from_key-Thinned start u n rs h))
        | inr e ↦ rw e (Thinned-refl _ (r ∷ rs))
      ]

pub from_key-Ascending :
    (key : InternalKey) (rs : List Record) → Ascending rs → Ascending (from_key key rs)
unfolding from_key Ascending
from_key-Ascending key [] h = tt
from_key-Ascending key (r ∷ rs) (hr, h) = elim (Bool-cases (is_less (compare r.internal_key key))) [
  | inl e ↦ rw e (from_key-Ascending key rs h)
  | inr e ↦ rw e (hr, h)
]

all_Upto :
    (r : Record) (rs : List Record)
    → All (λ k. compare r.internal_key k ≡ less) (keys rs)
    → All (Upto r) rs
all_Upto r [] all = tt
all_Upto r (x ∷ rs) (h, all) = (ap is_greater h, all_Upto r rs all)

pub Sorted-Ascending : (rs : List Record) → Sorted (keys rs) → Ascending rs
unfolding Sorted Ascending
Sorted-Ascending [] s = tt
Sorted-Ascending (r ∷ rs) (h, s) = (all_Upto r rs h, Sorted-Ascending rs s)
