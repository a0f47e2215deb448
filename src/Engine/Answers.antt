-- ===== src/Engine/Answers.antt =====
-- Answers of several sources, put together.
use ascent_db.Prelude.{
  All-append, All-weaken, ℕ, ◌≤◌, ◌<◌, ◌≡◌, ◌∙◌, sym, arith, List, [], ◌∷◌, ◌++◌, append_assoc, All,
  Option, none, some, false, less, ltb, ltb→lt, ltb→le, is_less, Bool-cases, inl, inr,
}
use mathlib.Core.Path.{subst}
use mathlib.Core.List.{Memᴰ}
use ascent_db.Bytes.Compare.{compare_bytes-eq}
use ascent_db.Record.{InternalKey, Record, compare}
use ascent_db.Sstable.Reader.{keys, Sorted}
use ascent_db.Sstable.Reader.Lookup.{Answer, Answer-cons}
use ascent_db.Record.Order.{compare_trans}
use ascent_db.Sstable.Reader.Table.{All-back, Sorted-parts}
use ascent_db.Engine.Read.{better}

-- Every record of the first list is newer than those of the second with the same user key.
abbrev pub Newer : List Record → List Record → Type 0
Newer a b = All (λ x. All (λ y. x.user_key ≡ y.user_key → y.seq_num < x.seq_num) b) a

pub All-Memᴰ : {A : Type 0} (P : A → Type 0) {x : A} (l : List A) → Memᴰ x l → All P l → P x
All-Memᴰ P [] m all = elim m [ ]
All-Memᴰ P (y ∷ l) (Memᴰ.head e) (h, all) = rw e h
All-Memᴰ P (y ∷ l) (Memᴰ.tail m) (h, all) = All-Memᴰ P l m all

Memᴰ-left : {A : Type 0} {x : A} {l : List A} (r : List A) → Memᴰ x l → Memᴰ x (l ++ r)
Memᴰ-left r (Memᴰ.head e) = Memᴰ.head e
Memᴰ-left r (Memᴰ.tail m) = Memᴰ.tail (Memᴰ-left r m)

Memᴰ-right : {A : Type 0} {x : A} (l : List A) {r : List A} → Memᴰ x r → Memᴰ x (l ++ r)
Memᴰ-right [] m = m
Memᴰ-right (y ∷ l) m = Memᴰ.tail (Memᴰ-right l m)

-- The newer of two answers.
pub Answer-better :
    {key : InternalKey} (a b : List Record) (o o' : Option Record)
    → Answer key a o
    → Answer key b o'
    → Answer key (a ++ b) (better o o')
unfolding better
Answer-better a b none none (Answer.missing all) (Answer.missing all') =
    Answer.missing (All-append _ a b all all')
Answer-better a b (some r) none (Answer.found m e n all) (Answer.missing all') =
    Answer.found (Memᴰ-left b m) e n
      (All-append _ a b all (All-weaken (λ x h q v. absurd (omega (arith, h q))) b all'))
Answer-better a b none (some r) (Answer.missing all) (Answer.found m e n all') =
    Answer.found (Memᴰ-right a m) e n
      (All-append _ a b (All-weaken (λ x h q v. absurd (omega (arith, h q))) a all) all')
Answer-better a b (some r) (some s) (Answer.found m e n all) (Answer.found m' e' n' all') =
    elim (Bool-cases (ltb r.seq_num s.seq_num)) [
      | inl lt ↦ rw lt (
          Answer.found (Memᴰ-right a m') e' n' (
            All-append _ a b
              (All-weaken (λ x h q v. omega (arith, h q v, ltb→lt r.seq_num s.seq_num lt)) a all)
              all'))
      | inr ge ↦ rw ge (
          Answer.found (Memᴰ-left b m) e n (
            All-append _ a b all
              (All-weaken (λ x h q v. omega (arith, h q v, ltb→le r.seq_num s.seq_num ge)) b all')))
    ]

-- Older records do not change an answer.
pub Answer-newer :
    {key : InternalKey} (a b : List Record) (r : Record)
    → Newer a b
    → Answer key a (some r)
    → Answer key (a ++ b) (some r)
Answer-newer a b r newer (Answer.found m e n all) = Answer.found (Memᴰ-left b m) e n (
    All-append _ a b all
      (All-weaken (λ x h q v. omega (arith, h (e ∙ sym q))) b (All-Memᴰ _ a m newer)))

pub Answer-missing :
    {key : InternalKey} (a b : List Record) (o : Option Record)
    → Answer key a none
    → Answer key b o
    → Answer key (a ++ b) o
unfolding better
Answer-missing a b none none' answer = Answer-better a b none none none' answer
Answer-missing a b (some r) none' answer = Answer-better a b none (some r) none' answer

-- In a run of records in order, those up to `r` are hidden if `r` is below the key.
pub Answer-back :
    (key : InternalKey) (rs : List Record) (r : Record) (rest : List Record) (o : Option Record)
    → Sorted (keys (rs ++ (r ∷ [])))
    → compare r.internal_key key ≡ less
    → Answer key rest o
    → Answer key (rs ++ (r ∷ rest)) o
unfolding Sorted
Answer-back key [] r rest o s e answer = Answer-cons key r rest o e answer
Answer-back key (x ∷ rs) r rest o (before, s) e answer =
    Answer-cons key x (rs ++ (r ∷ rest)) o
      (compare_trans x.internal_key r.internal_key key
        (All-back (λ k. compare x.internal_key k ≡ less) rs r [] before) e)
      (Answer-back key rs r rest o s e answer)

-- What comes behind `r`, if `r` is not below the key: of the key's user key only records older than
-- `r`, which is then of this user key and visible.
behind :
    (key : InternalKey) (r x : Record)
    → is_less (compare r.internal_key key) ≡ false
    → compare r.internal_key x.internal_key ≡ less
    → x.user_key ≡ key.user_key
    → (r.user_key ≡ key.user_key) × (r.seq_num ≤ key.seq_num) × (x.seq_num < r.seq_num)
unfolding compare
behind key r x p q e = ground (
  arith,
  p,
  q,
  e,
  compare_bytes-eq r.user_key key.user_key,
  compare_bytes-eq r.user_key x.user_key,
)

All-last : {A : Type 0} (P : A → Type 0) (l : List A) (a : A) → All P (l ++ (a ∷ [])) → P a
All-last P [] a (h, all) = h
All-last P (x ∷ l) a (h, all) = All-last P l a all

hidden :
    (key : InternalKey) (r : Record) (n : ℕ) (rest : List Record)
    → is_less (compare r.internal_key key) ≡ false
    → (r.user_key ≡ key.user_key → r.seq_num ≤ key.seq_num → r.seq_num ≤ n)
    → All (λ k. compare r.internal_key k ≡ less) (keys rest)
    → All (λ x. x.user_key ≡ key.user_key → x.seq_num ≤ key.seq_num → x.seq_num ≤ n) rest
hidden key r n [] p seen all = tt
hidden key r n (x ∷ rest) p seen (q, all) = (
  λ e v. let (e', v', lt) = behind key r x p q e in omega (arith, seen e' v', lt),
  hidden key r n rest p seen all,
)

absent :
    (key : InternalKey) (r : Record) (rest : List Record)
    → is_less (compare r.internal_key key) ≡ false
    → (r.user_key ≡ key.user_key → key.seq_num < r.seq_num)
    → All (λ k. compare r.internal_key k ≡ less) (keys rest)
    → All (λ x. x.user_key ≡ key.user_key → key.seq_num < x.seq_num) rest
absent key r [] p seen all = tt
absent key r (x ∷ rest) p seen (q, all) = (
  λ e. let (e', v', lt) = behind key r x p q e in absurd (omega (arith, seen e', v')),
  absent key r rest p seen all,
)

-- The records behind `r` are hidden if `r` is not below the key.
pub Answer-front :
    (key : InternalKey) (rs : List Record) (r : Record) (rest : List Record) (o : Option Record)
    → Sorted (keys (rs ++ (r ∷ rest)))
    → is_less (compare r.internal_key key) ≡ false
    → Answer key (rs ++ (r ∷ [])) o
    → Answer key (rs ++ (r ∷ rest)) o
Answer-front key rs r rest o s e answer =
    let all = (Sorted-parts rs r rest s).1 in
    let joined : (rs ++ (r ∷ [])) ++ rest ≡ rs ++ (r ∷ rest) = append_assoc rs (r ∷ []) rest in
    subst (λ l. Answer key l o) joined (go o all answer)
  where
    go :
        (o : Option Record)
        → All (λ k. compare r.internal_key k ≡ less) (keys rest)
        → Answer key (rs ++ (r ∷ [])) o
        → Answer key ((rs ++ (r ∷ [])) ++ rest) o
    go none all (Answer.missing seen) =
        Answer.missing
          (All-append _ (rs ++ (r ∷ [])) rest seen (absent key r rest e (All-last _ rs r seen) all))
    go (some x) all (Answer.found m u n seen) = Answer.found (Memᴰ-left rest m) u n (
        All-append _ (rs ++ (r ∷ [])) rest seen
          (hidden key r x.seq_num rest e (All-last _ rs r seen) all))
