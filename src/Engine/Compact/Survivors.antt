-- ===== src/Engine/Compact/Survivors.antt =====
-- The records that a compaction keeps, and what they read as.
use ascent_db.Prelude.{
  ℕ, ◌≤◌, ◌≡◌, ◌≢◌, ◌∙◌, refl, sym, arith, List, [], ◌∷◌, All, All-weaken, Option, none, some, Bool,
  true, ◌==◌, Bool-cases, inl, inr, if◌then◌else◌,
}
use mathlib.Core.List.{Memᴰ}
use ascent_db.Bytes.Compare.{compare_bytes_refl, equal_bytes, equal_bytes_iff}
use ascent_db.Record.{Record, type_del, compare}
use ascent_db.Sstable.Reader.Lookup.{Answer}
use ascent_db.Merge.Order.{Upto, Ascending}
use ascent_db.Engine.Read.{live}
use ascent_db.Engine.Scan.Groups.{Above, Upto-Above, Above-Upto, as_of}
use ascent_db.Engine.Scan.Reading.{Reads, apart, Above-Reads}

-- Of a list in order, the first record of each user key behind `last`, unless it is dropped.
module _ (drop_it : Record → Bool) where
  unfoldable pub survivors : List ℕ → List Record → List Record
  survivors last [] = []
  survivors last (r ∷ l) =
      let skip = survivors last l in
      let rest = survivors r.user_key l in
      if equal_bytes r.user_key last then skip else if drop_it r then rest else r ∷ rest

  pub All-survivors :
      (P : Record → Type 0) (last : List ℕ) (l : List Record) → All P l → All P (survivors last l)
  unfolding survivors
  All-survivors P last [] all = tt
  All-survivors P last (r ∷ l) (h, all) = elim (Bool-cases (equal_bytes r.user_key last)) [
    | inl e ↦ rw e (All-survivors P last l all)
    | inr e ↦ elim (Bool-cases (drop_it r)) [
      | inl d ↦ rw (e, d) (All-survivors P r.user_key l all)
      | inr d ↦ rw (e, d) (h, All-survivors P r.user_key l all)
    ]
  ]

  -- The user key of a record is not kept again behind it.
  survivors-Above :
      (r : Record) (l : List Record)
      → All (Upto r) l
      → Ascending l
      → All (Above r.user_key) (survivors r.user_key l)
  unfolding survivors Ascending
  survivors-Above r [] all o = tt
  survivors-Above r (x ∷ l) (h, all) (before, o) =
      elim (Bool-cases (equal_bytes x.user_key r.user_key)) [
        | inl e ↦ rw e (survivors-Above r l all o)
        | inr e ↦
            let above = Upto-Above r x h e in
            let later =
              All-survivors (Above r.user_key) x.user_key l
                (All-weaken (λ y. Above-Upto r.user_key x y above) l before) in
            elim (Bool-cases (drop_it x)) [
              | inl d ↦ rw (e, d) later
              | inr d ↦ rw (e, d) (above, later)
            ]
      ]

  -- A record of another user key in front.
  Reads-skip :
      (n : ℕ) (u : List ℕ) (r : Record) (l : List Record) (v : Option (List ℕ))
      → r.user_key ≢ u
      → Reads n u l v
      → Reads n u (r ∷ l) v
  Reads-skip n u r l v ne (none, Answer.missing all, e) =
      (none, Answer.missing ((λ q. absurd (ne q)), all), e)
  Reads-skip n u r l v ne (some x, Answer.found m q b all, e) =
      (some x, Answer.found (Memᴰ.tail m) q b ((λ q. absurd (ne q)), all), e)

  -- The first of its user key is the newest.
  older :
      (r : Record) (l : List Record)
      → All (Upto r) l
      → All (λ x. x.user_key ≡ r.user_key → x.seq_num ≤ r.seq_num) l
  unfolding compare
  older r [] all = tt
  older r (x ∷ l) (h, all) =
      (λ e. ground (arith, h, e, compare_bytes_refl r.user_key), older r l all)

  newest :
      (n : ℕ) (r : Record) (l : List Record)
      → r.seq_num ≤ n
      → All (λ x. x.user_key ≡ r.user_key → x.seq_num ≤ r.seq_num) l
      → Answer (as_of r.user_key n) (r ∷ l) (some r)
  newest n r l visible all =
      Answer.found (Memᴰ.head refl) refl visible
        ((λ e v. omega arith), All-weaken (λ x h e v. h e) l all)

  Above-older :
      (r : Record) (l : List Record)
      → All (Above r.user_key) l
      → All (λ x. x.user_key ≡ r.user_key → x.seq_num ≤ r.seq_num) l
  Above-older r l all = All-weaken (λ x h e. absurd (apart r.user_key x h e)) l all

  live-tombstone : (r : Record) → (r.typ == type_del) ≡ true → live (some r) ≡ none
  unfolding live
  live-tombstone r e = rw e refl

  module _ (tombstone : (r : Record) → drop_it r ≡ true → (r.typ == type_del) ≡ true) where
    -- The user key of the first record.
    Reads-first :
        (n : ℕ) (r : Record) (l : List Record)
        → All (Upto r) l
        → Ascending l
        → r.seq_num ≤ n
        → (v : Option (List ℕ)) × Reads n r.user_key (r ∷ l) v
          × Reads n r.user_key
              (if drop_it r then survivors r.user_key l else r ∷ survivors r.user_key l)
              v
    Reads-first n r l all o visible =
        let above = survivors-Above r l all o in
        let here = newest n r l visible (older r l all) in
        elim (Bool-cases (drop_it r)) [
          | inl d ↦
              let dead = live-tombstone r (tombstone r d) in
              (none, (some r, here, dead), rw d (Above-Reads n r.user_key _ above))
          | inr d ↦ (
            live (some r),
            (some r, here, refl),
            rw d (some r, newest n r _ visible (Above-older r _ above), refl),
          )
        ]

    Reads-later :
        (n : ℕ) (u : List ℕ) (r : Record) (l : List Record) (v : Option (List ℕ))
        → r.user_key ≢ u
        → Reads n u l v
        → Reads n u (if drop_it r then l else r ∷ l) v
    Reads-later n u r l v ne reads = elim (Bool-cases (drop_it r)) [
      | inl d ↦ rw d reads
      | inr d ↦ rw d (Reads-skip n u r l v ne reads)
    ]

    pub survivors-Reads :
        (n : ℕ) (u last : List ℕ) (l : List Record)
        → Ascending l
        → All (λ r. r.seq_num ≤ n) l
        → u ≢ last
        → (v : Option (List ℕ)) × Reads n u l v × Reads n u (survivors last l) v
    unfolding survivors Ascending
    survivors-Reads n u last [] o all ne = (none, Above-Reads n u [] tt, Above-Reads n u [] tt)
    survivors-Reads n u last (r ∷ l) (before, o) (visible, all) ne =
        elim (Bool-cases (equal_bytes r.user_key last)) [
          | inl e ↦
              let q : r.user_key ≡ last = (equal_bytes_iff r.user_key last).0 e in
              let (v, a, b) = survivors-Reads n u last l o all ne in
              (v, Reads-skip n u r l v (λ p. ne (sym p ∙ q)) a, rw e b)
          | inr e ↦ elim (Bool-cases (equal_bytes u r.user_key)) [
            | inl f ↦
                let q : u ≡ r.user_key = (equal_bytes_iff u r.user_key).0 f in
                let (v, a, b) = Reads-first n r l before o visible in (v, rw q a, rw (e, q) b)
            | inr f ↦
                let ne' : u ≢ r.user_key = λ q. cc (f, (equal_bytes_iff u r.user_key).1 q) in
                let (v, a, b) = survivors-Reads n u r.user_key l o all ne' in
                (
                  v,
                  Reads-skip n u r l v (λ p. ne' (sym p)) a,
                  rw e (Reads-later n u r (survivors r.user_key l) v (λ p. ne' (sym p)) b),
                )
          ]
        ]
