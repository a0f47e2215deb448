-- ===== src/Engine/Scan/Reading.antt =====
-- What a user key reads as, in the group of its records and behind it.
use ascent_db.Prelude.{
  ℕ, ◌≡◌, ◌≢◌, ◌∙◌, refl, sym, ap, List, ◌∷◌, ◌++◌, All, All-weaken, Option, none, some, true,
  Bool-cases, inl, inr, ◌==◌, if◌then◌else◌,
}
use mathlib.Core.Path.{subst}
use ascent_db.Bytes.Compare.{compare_bytes, compare_bytes_refl, equal_bytes, equal_bytes_iff}
use ascent_db.Record.{InternalKey, Record, is_tombstone, type_del}
use ascent_db.Sstable.Reader.Lookup.{Answer}
use ascent_db.Engine.Answers.{All-Memᴰ, Answer-better, Answer-missing}
use ascent_db.Engine.Read.{better, live}
use ascent_db.Engine.Scan.{shown}
use ascent_db.Engine.Scan.Groups.{
  group, behind, best_of, group-behind, Above, as_of, best_of-Answer,
}

-- What a key reads as in a list of records.
abbrev pub Reads : ℕ → List ℕ → List Record → Option (List ℕ) → Type 0
Reads n u l v = (o : Option Record) × Answer (as_of u n) l o × (live o ≡ v)

pub shown-none : (o : Option Record) → shown o ≡ none → live o ≡ none
unfolding shown live is_tombstone
shown-none none h = refl
shown-none (some r) h = elim (Bool-cases (r.typ == type_del)) [
  | inl e ↦ rw e refl
  | inr e ↦ let q : some r ≡ none = rw e at h in cc q
]

pub shown-some :
    (o : Option Record) (r : Record)
    → shown o ≡ some r
    → (o ≡ some r) × (live (some r) ≡ some r.value)
unfolding shown live is_tombstone
shown-some none r h = cc
shown-some (some x) r h = elim (Bool-cases (x.typ == type_del)) [
  | inl e ↦ let q : none ≡ some r = rw e at h in cc q
  | inr e ↦
      let q : some x ≡ some r = rw e at h in
      let same : x ≡ r = cc q in
      (
        q,
        subst (λ z. (if z.typ == type_del then none else some z.value) ≡ some z.value) same
            (rw e refl),
      )
]

pub apart : (u : List ℕ) (r : Record) → Above u r → r.user_key ≢ u
apart u r h e = cc (h, ap (compare_bytes u) e, compare_bytes_refl u)

-- A smaller key is not among larger ones.
Above-missing : (n : ℕ) (u : List ℕ) (l : List Record) → All (Above u) l → Answer (as_of u n) l none
Above-missing n u l all = Answer.missing (All-weaken (λ r h e. absurd (apart u r h e)) l all)

pub Above-Reads : (n : ℕ) (u : List ℕ) (l : List Record) → All (Above u) l → Reads n u l none
unfolding live
Above-Reads n u l all = (none, Above-missing n u l all, refl)

-- The group of another key in front.
pub Reads-other :
    (n : ℕ) (u0 u : List ℕ) (g back : List Record) (v : Option (List ℕ))
    → All (λ r. r.user_key ≡ u0) g
    → u ≢ u0
    → Reads n u back v
    → Reads n u (g ++ back) v
Reads-other n u0 u g back v all ne (o, answer, e) = (
  o,
  Answer-missing g back o (Answer.missing (All-weaken (λ r h q. absurd (ne (sym q ∙ h))) g all))
      answer,
  e,
)

better-none : (o : Option Record) → better o none ≡ o
unfolding better
better-none none = refl
better-none (some r) = refl

pub Reads-none :
    (n : ℕ) (u : List ℕ) (l : List Record) (v : Option (List ℕ))
    → All (Above u) l
    → Reads n u l v
    → v ≡ none
unfolding live
Reads-none n u l v all (none, answer, e) = sym e
Reads-none n u l v all (some r, Answer.found m q x seen, e) =
    absurd (apart u r (All-Memᴰ (Above u) l m all) q)

-- The group of the key in front of larger keys.
pub Reads-group :
    (n : ℕ) (u : List ℕ) (g back : List Record)
    → All (λ r. r.user_key ≡ u) g
    → All (Above u) back
    → Answer (as_of u n) (g ++ back) (best_of n none g)
Reads-group n u g back all above = rw (← better-none (best_of n none g)) (
    Answer-better g back (best_of n none g) none (best_of-Answer u n g all)
      (Above-missing n u back above))

-- The group in front shows nothing.
pub Reads-dead :
    (n : ℕ) (u0 u : List ℕ) (g back : List Record) (v : Option (List ℕ))
    → All (λ r. r.user_key ≡ u0) g
    → All (Above u0) back
    → live (best_of n none g) ≡ none
    → (u ≡ u0 → v ≡ none)
    → Reads n u back v
    → Reads n u (g ++ back) v
Reads-dead n u0 u g back v all above dead absent reads = elim (Bool-cases (equal_bytes u u0)) [
  | inl e ↦
      let q : u ≡ u0 = (equal_bytes_iff u u0).0 e in
      rw (absent q, q) (best_of n none g, Reads-group n u0 g back all above, dead)
  | inr e ↦
      let ne : u ≢ u0 = λ q. cc (e, (equal_bytes_iff u u0).1 q) in
      Reads-other n u0 u g back v all ne reads
]

pub Answer-key :
    {key : InternalKey} {l : List Record} {r : Record}
    → Answer key l (some r)
    → r.user_key ≡ key.user_key
Answer-key (Answer.found m e n all) = e

-- The first record is not behind its group.
pub behind-first : (r : Record) (l : List Record) → behind r.user_key (r ∷ l) ≡ behind r.user_key l
unfolding behind
behind-first r l =
    let e : equal_bytes r.user_key r.user_key ≡ true =
      (equal_bytes_iff r.user_key r.user_key).1 refl in
    rw e refl

pub first-split :
    (r : Record) (l : List Record) → group r.user_key (r ∷ l) ++ behind r.user_key l ≡ r ∷ l
first-split r l =
    ap (λ z. group r.user_key (r ∷ l) ++ z) (sym (behind-first r l))
    ∙ sym (group-behind r.user_key (r ∷ l))
