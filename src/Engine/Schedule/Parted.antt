-- ===== src/Engine/Schedule/Parted.antt =====
-- The search of pickCompactionInputs for the tables behind the pointer.
use ascent_db.Prelude.{
  ℕ, zero, suc, ◌≤◌, ◌<◌, ◌≡◌, ◌∙◌, refl, ap, arith, List, [], ◌∷◌, ◌++◌, length, length-append,
  drop, drop-append, All, All-weaken, true, false, less, is_greater, Bool-cases, inl, inr,
}
use ascent_db.Bytes.Compare.{
  compare_bytes, compare_bytes-flip, compare_bytes-eq, compare_bytes_trans,
}
use ascent_db.Meta.{TableMeta}
use ascent_db.Meta.Overlap.{AtMost}
use ascent_db.Sstable.Search.{TurnsAt, search-TurnsAt}
use ascent_db.Engine.Schedule.{next_tables, is_behind}

-- The smallest keys of the tables of a level do not descend.
unfoldable pub Rising : List TableMeta → Type 0
Rising [] = Unit {0}
Rising (t ∷ ts) = All (λ u. AtMost t.min_key.user_key u.min_key.user_key) ts × Rising ts

-- Where a level parts at the pointer.
pub record Parted (pointer : List ℕ) (tables : List TableMeta) : Type 0 where
  pub front : List TableMeta
  pub back : List TableMeta
  pub whole : tables ≡ front ++ back
  pub before : All (λ t. AtMost t.min_key.user_key pointer) front
  pub behind : All (λ t. compare_bytes pointer t.min_key.user_key ≡ less) back
  pub turns : TurnsAt (is_behind pointer tables) (length tables) (length front)

all_behind :
    (pointer : List ℕ) (ts : List TableMeta) (k : ℕ)
    → All (λ t. compare_bytes pointer t.min_key.user_key ≡ less) ts
    → k < length ts
    → is_behind pointer ts k ≡ true
unfolding is_behind
all_behind pointer [] k all h = absurd (omega arith)
all_behind pointer (t ∷ ts) zero (h, all) n =
    ground (arith, h, compare_bytes-flip pointer t.min_key.user_key)
all_behind pointer (t ∷ ts) (suc k) (h, all) n = all_behind pointer ts k all (omega arith)

less-AtMost : (a b c : List ℕ) → compare_bytes a b ≡ less → AtMost b c → compare_bytes a c ≡ less
less-AtMost a b c h (AtMost.at_most n) =
    ground (arith, h, n, compare_bytes_trans a b c h, compare_bytes-eq b c)

pub parted : (pointer : List ℕ) (ts : List TableMeta) → Rising ts → Parted pointer ts
unfolding Rising is_behind
parted pointer [] r = record {
  front = [];
  back = [];
  whole = refl;
  before = tt;
  behind = tt;
  turns = record { below = λ k h. absurd (omega arith); above = λ k h n. absurd (omega arith) };
}
parted pointer (t ∷ ts) (h, r) =
    elim (Bool-cases (is_greater (compare_bytes t.min_key.user_key pointer))) [
      | inl e ↦
          let here : compare_bytes pointer t.min_key.user_key ≡ less =
            ground (arith, e, compare_bytes-flip t.min_key.user_key pointer) in
          let all =
            All-weaken {P = λ u. AtMost t.min_key.user_key u.min_key.user_key}
              {Q = λ u. compare_bytes pointer u.min_key.user_key ≡ less}
              (λ u a. less-AtMost pointer t.min_key.user_key u.min_key.user_key here a) ts h in
          record {
            front = [];
            back = t ∷ ts;
            whole = refl;
            before = tt;
            behind = (here, all);
            turns = record {
              below = λ k n. absurd (omega arith);
              above = λ k p n. all_behind pointer (t ∷ ts) k (here, all) n;
            };
          }
      | inr e ↦
          let rest = parted pointer ts r in
          record {
            front = t ∷ rest.front;
            back = rest.back;
            whole = ap (λ l. t ∷ l) rest.whole;
            before = (AtMost.at_most (λ q. ground (arith, e, q)), rest.before);
            behind = rest.behind;
            turns = further pointer t ts (length rest.front) e rest.turns;
          }
    ]
  where
    further :
        (pointer : List ℕ) (t : TableMeta) (ts : List TableMeta) (p : ℕ)
        → is_greater (compare_bytes t.min_key.user_key pointer) ≡ false
        → TurnsAt (is_behind pointer ts) (length ts) p
        → TurnsAt (is_behind pointer (t ∷ ts)) (length (t ∷ ts)) (suc p)
    further pointer t ts p e turns = record { below = below; above = above }
      where
        below : (k : ℕ) → k < suc p → is_behind pointer (t ∷ ts) k ≡ false
        below zero h = e
        below (suc k) h = turns.below k (omega arith)

        above : (k : ℕ) → suc p ≤ k → k < length (t ∷ ts) → is_behind pointer (t ∷ ts) k ≡ true
        above zero h n = absurd (omega arith)
        above (suc k) h n = turns.above k (omega arith) (omega arith)

pub next_tables-back :
    (pointer : List ℕ) (ts : List TableMeta) (p : Parted pointer ts)
    → next_tables pointer ts ≡ p.back
unfolding next_tables
next_tables-back pointer ts p =
    let fits : length p.front ≤ length ts =
      omega (arith, ap length p.whole, length-append p.front p.back) in
    ap (λ i. drop i ts)
      (search-TurnsAt (is_behind pointer ts) (length ts) (length p.front) p.turns fits)
    ∙ ap (drop (length p.front)) p.whole
    ∙ drop-append p.front p.back
