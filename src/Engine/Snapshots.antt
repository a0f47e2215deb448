-- ===== src/Engine/Snapshots.antt =====
-- SnapshotList: the sequence numbers of the open snapshots, smallest first.
use mathlib.Core.Path.{subst}
use ascent_db.Prelude.{
  ◌<◌, ◌⊎◌, sym, ap, ℕ, ◌+◌, ◌-◌, ◌^◌, ◌≤◌, ◌≡◌, ◌∙◌, refl, arith, List, [], ◌∷◌, ◌++◌, All, ltb,
  ◌==◌, Bool-cases, inl, inr, ltb→lt, ltb→le, if◌then◌else◌,
}

-- slices.Sort of one number more: it is put before the first number that is not smaller.
unfoldable pub sort_in : ℕ → List ℕ → List ℕ
sort_in seq [] = seq ∷ []
sort_in seq (s ∷ rest) =
    let later = sort_in seq rest in if ltb s seq then s ∷ later else seq ∷ s ∷ rest

-- slices.Sort
unfoldable pub sort : List ℕ → List ℕ
sort [] = []
sort (s ∷ rest) = sort_in s (sort rest)

-- `append`, then `slices.Sort`.
unfoldable pub add : ℕ → List ℕ → List ℕ
unfolding sort
add seq snapshots = sort (snapshots ++ (seq ∷ []))

-- The first entry with the number goes.
unfoldable pub remove : ℕ → List ℕ → List ℕ
remove seq [] = []
remove seq (s ∷ rest) = let later = remove seq rest in if s == seq then rest else s ∷ later

unfoldable pub oldest : List ℕ → ℕ
oldest [] = 2 ^ 64 - 1
oldest (s ∷ rest) = s

-- How often a number is in the list: one open snapshot each time.
unfoldable pub count : ℕ → List ℕ → ℕ
count n [] = 0
count n (s ∷ rest) = if s == n then 1 + count n rest else count n rest

-- Smallest first.
unfoldable pub Ascending : List ℕ → Type 0
Ascending [] = Unit {0}
Ascending (s ∷ rest) = All (λ t. s ≤ t) rest × Ascending rest

All-le : (s t : ℕ) (rest : List ℕ) → s ≤ t → All (λ u. t ≤ u) rest → All (λ u. s ≤ u) rest
All-le s t [] h all = tt
All-le s t (u ∷ rest) h (hu, all) = (omega arith, All-le s t rest h all)

sort_in-All : (P : ℕ → Type 0) (seq : ℕ) (l : List ℕ) → P seq → All P l → All P (sort_in seq l)
unfolding sort_in
sort_in-All P seq [] h all = (h, tt)
sort_in-All P seq (s ∷ rest) h (hs, all) = elim (Bool-cases (ltb s seq)) [
  | inl e ↦ rw e (hs, sort_in-All P seq rest h all)
  | inr e ↦ rw e (h, (hs, all))
]

sort_in-Ascending : (seq : ℕ) (l : List ℕ) → Ascending l → Ascending (sort_in seq l)
unfolding sort_in Ascending
sort_in-Ascending seq [] h = (tt, tt)
sort_in-Ascending seq (s ∷ rest) (hs, h) = elim (Bool-cases (ltb s seq)) [
  | inl e ↦
      let le : s ≤ seq = omega (arith, ltb→lt s seq e) in
      rw e (sort_in-All (λ t. s ≤ t) seq rest le hs, sort_in-Ascending seq rest h)
  | inr e ↦ let le : seq ≤ s = ltb→le s seq e in rw e ((le, All-le seq s rest le hs), (hs, h))
]

sort-Ascending : (l : List ℕ) → Ascending (sort l)
unfolding sort Ascending
sort-Ascending [] = tt
sort-Ascending (s ∷ rest) = sort_in-Ascending s (sort rest) (sort-Ascending rest)

remove-All : (P : ℕ → Type 0) (seq : ℕ) (l : List ℕ) → All P l → All P (remove seq l)
unfolding remove
remove-All P seq [] all = tt
remove-All P seq (s ∷ rest) (hs, all) = elim (Bool-cases (s == seq)) [
  | inl e ↦ rw e all
  | inr e ↦ rw e (hs, remove-All P seq rest all)
]

remove-Ascending : (seq : ℕ) (l : List ℕ) → Ascending l → Ascending (remove seq l)
unfolding remove Ascending
remove-Ascending seq [] h = tt
remove-Ascending seq (s ∷ rest) (hs, h) = elim (Bool-cases (s == seq)) [
  | inl e ↦ rw e h
  | inr e ↦ rw e (remove-All (λ t. s ≤ t) seq rest hs, remove-Ascending seq rest h)
]

oldest-All : (l : List ℕ) → Ascending l → All (λ s. oldest l ≤ s) l
unfolding oldest Ascending
oldest-All [] h = tt
oldest-All (s ∷ rest) (hs, h) = (omega arith, hs)

count-sort_in : (n seq : ℕ) (l : List ℕ) → count n (sort_in seq l) ≡ count n (seq ∷ l)
unfolding sort_in count
count-sort_in n seq [] = refl
count-sort_in n seq (s ∷ rest) = ground (arith, count-sort_in n seq rest)

count-sort : (n : ℕ) (l : List ℕ) → count n (sort l) ≡ count n l
unfolding sort count
count-sort n [] = refl
count-sort n (s ∷ rest) = count-sort_in n s (sort rest) ∙ ground (arith, count-sort n rest)

count-append : (n : ℕ) (a b : List ℕ) → count n (a ++ b) ≡ count n a + count n b
unfolding count
count-append n [] b = omega arith
count-append n (s ∷ rest) b = ground (arith, count-append n rest b)

-- `NewSnapshot` adds a number, `Release` removes one.
pub data Call : Type 0 where
  open_at release : ℕ → Call

unfoldable pub run : List Call → List ℕ → List ℕ
run [] l = l
run (open_at n ∷ calls) l = run calls (add n l)
run (release n ∷ calls) l = run calls (remove n l)

run-Ascending : (calls : List Call) (l : List ℕ) → Ascending l → Ascending (run calls l)
unfolding run add
run-Ascending [] l h = h
run-Ascending (open_at n ∷ calls) l h = run-Ascending calls _ (sort-Ascending (l ++ (n ∷ [])))
run-Ascending (release n ∷ calls) l h = run-Ascending calls _ (remove-Ascending n l h)

count-add : (n seq : ℕ) (l : List ℕ) → count n (add seq l) ≡ count n l + (if seq == n then 1 else 0)
unfolding add count
count-add n seq l = count-sort n (l ++ (seq ∷ [])) ∙ ground (arith, count-append n l (seq ∷ []))

count-remove :
    (n seq : ℕ) (l : List ℕ) → count n (remove seq l) ≡ count n l - (if seq == n then 1 else 0)
unfolding remove count
count-remove n seq [] = ground arith
count-remove n seq (s ∷ rest) = ground (arith, count-remove n seq rest)

-- How many snapshots with this number are open after the calls, if `opened` were before: each opening
-- adds one, and each release takes one away.
unfoldable pub open_count : ℕ → List Call → ℕ → ℕ
open_count n [] opened = opened
open_count n (open_at seq ∷ calls) opened =
    open_count n calls (opened + (if seq == n then 1 else 0))
open_count n (release seq ∷ calls) opened =
    open_count n calls (opened - (if seq == n then 1 else 0))

-- The list of the code holds each number as often as it is open.
count-run :
    (n : ℕ) (calls : List Call) (l : List ℕ)
    → count n (run calls l) ≡ open_count n calls (count n l)
unfolding run open_count
count-run n [] l = refl
count-run n (open_at seq ∷ calls) l =
    count-run n calls (add seq l) ∙ ap (open_count n calls) (count-add n seq l)
count-run n (release seq ∷ calls) l =
    count-run n calls (remove seq l) ∙ ap (open_count n calls) (count-remove n seq l)

-- The number is the smallest of which a snapshot is open, or the largest uint64 if none is.
pub record IsOldest (opened : ℕ → ℕ) (o : ℕ) : Type 0 where
  pub least : (n : ℕ) → 0 < opened n → o ≤ n
  pub is_open : (0 < opened o) ⊎ ((o ≡ 2 ^ 64 - 1) × ((n : ℕ) → opened n ≡ 0))

count-least : (o n : ℕ) (l : List ℕ) → All (λ s. o ≤ s) l → 0 < count n l → o ≤ n
unfolding count
count-least o n [] all h = absurd (omega arith)
count-least o n (s ∷ rest) (hs, all) h = elim (Bool-cases (s == n)) [
  | inl e ↦ ground (arith, e, hs)
  | inr e ↦ count-least o n rest all (rw e at h)
]

count-oldest :
    (l : List ℕ) → (0 < count (oldest l) l) ⊎ ((oldest l ≡ 2 ^ 64 - 1) × ((n : ℕ) → count n l ≡ 0))
unfolding oldest count
count-oldest [] = inr (refl, λ n. refl)
count-oldest (s ∷ rest) = inl (ground arith)

-- After any sequence of openings and releases oldest is the smallest number of which a snapshot is
-- open, counting one more for each opening and one less for each release, or the largest uint64 if
-- no snapshot is open.
pub oldest-run : (calls : List Call) → IsOldest (λ n. open_count n calls 0) (oldest (run calls []))
unfolding Ascending
oldest-run calls =
    let l = run calls [] in
    let counted : (n : ℕ) → count n l ≡ open_count n calls 0 =
      λ n. count-run n calls [] ∙ unfold count in refl in
    record {
      least = λ n h.
          count-least (oldest l) n l (oldest-All l (run-Ascending calls [] tt))
            (subst (λ z. 0 < z) (sym (counted n)) h);
      is_open = elim (count-oldest l) [
        | inl h ↦ inl (subst (λ z. 0 < z) (counted (oldest l)) h)
        | inr (e, none_open) ↦ inr (e, λ n. sym (counted n) ∙ none_open n)
      ];
    }

-- Adding a number puts it in once more, removing it takes it out once if it was there, and neither
-- changes how often another number is in the list.
pub count-add-remove :
    (n seq : ℕ) (l : List ℕ)
    → (count n (add seq l) ≡ count n l + (if seq == n then 1 else 0))
      × (count n (remove seq l) ≡ count n l - (if seq == n then 1 else 0))
count-add-remove n seq l = (count-add n seq l, count-remove n seq l)
