-- ===== src/Engine/Schedule/Loaded.antt =====
-- The loop of pickCompactionInputs.
use ascent_db.Prelude.{
  ℕ, ◌+◌, ◌^◌, ◌≤◌, ◌<◌, ◌≡◌, ◌≢◌, ◌⊎◌, refl, sym, ap, arith, List, [], ◌∷◌, ◌++◌, ltb, Bool-cases,
  inl, inr,
}
use ascent_db.Bytes.Word.{u64}
use ascent_db.Meta.{TableMeta}
use ascent_db.Engine.Schedule.{pick_from}
use ascent_db.Engine.Schedule.Sizes.{bytes_of, signed_less-ltb}

-- What the loop takes from the tables `ts`, with `size` bytes already picked.
pub record Loaded (target size : ℕ) (ts inputs : List TableMeta) : Type 0 where
  pub post : List TableMeta
  pub whole : ts ≡ inputs ++ post
  pub enough : (post ≡ []) ⊎ (target ≤ size + bytes_of inputs)
  pub no_more :
      (front back : List TableMeta)
      → inputs ≡ front ++ back
      → front ≢ []
      → back ≢ []
      → size + bytes_of front < target
  pub some_picked : inputs ≡ [] → post ≡ []

Loaded-more :
    (target size : ℕ) (t : TableMeta) (ts inputs : List TableMeta)
    → size + t.file_size < target
    → Loaded target (size + t.file_size) ts inputs
    → Loaded target size (t ∷ ts) (t ∷ inputs)
unfolding bytes_of
Loaded-more target size t ts inputs less_yet l = record {
  post = l.post;
  whole = ap (λ x. t ∷ x) l.whole;
  enough = elim l.enough [ inl e ↦ inl e | inr h ↦ inr (omega (arith, h)) ];
  no_more = no_more;
  some_picked = λ e. cc e;
}
  where
    no_more :
        (front back : List TableMeta)
        → t ∷ inputs ≡ front ++ back
        → front ≢ []
        → back ≢ []
        → size + bytes_of front < target
    no_more [] back e ne ne' = absurd (ne refl)
    no_more (x ∷ []) back e ne ne' =
        let same : t ≡ x = cc e in omega (arith, less_yet, ap (λ z. z.file_size) same)
    no_more (x ∷ y ∷ front) back e ne ne' =
        let same : t ≡ x = cc e in
        let tail : inputs ≡ (y ∷ front) ++ back = cc e in
        omega (arith, l.no_more (y ∷ front) back tail (λ q. cc q) ne', ap (λ z. z.file_size) same)

pub empty_front : (front back : List TableMeta) → [] ≡ front ++ back → front ≢ [] → ⊥
empty_front [] back e ne = ne refl
empty_front (x ∷ front) back e ne = cc e

pub pick_from-Loaded :
    (target size : ℕ) (ts : List TableMeta)
    → target < 2 ^ 63
    → size + bytes_of ts < 2 ^ 63
    → Loaded target size ts (pick_from target size ts)
unfolding pick_from bytes_of
pick_from-Loaded target size [] ht h = record {
  post = [];
  whole = refl;
  enough = inl refl;
  no_more = λ front back e ne ne'. absurd (empty_front front back e ne);
  some_picked = λ e. refl;
}
pick_from-Loaded target size (t ∷ ts) ht h =
    let exact : u64 (size + t.file_size) ≡ size + t.file_size = omega (arith, h) in
    let rest = pick_from-Loaded target (size + t.file_size) ts ht (omega (arith, h)) in
    let test = signed_less-ltb (size + t.file_size) target (omega (arith, h)) ht in
    elim (Bool-cases (ltb (size + t.file_size) target)) [
      | inl e ↦
          let short : size + t.file_size < target = ground (arith, e) in
          rw (exact, test, e) (Loaded-more target size t ts _ short rest)
      | inr e ↦
          rw (exact, test, e)
            (record {
              post = ts;
              whole = refl;
              enough = inr (ground (arith, e));
              no_more = λ front back q ne ne'. absurd (one_only front back q ne ne');
              some_picked = λ q. cc q;
            })
    ]
  where
    one_only : (front back : List TableMeta) → t ∷ [] ≡ front ++ back → front ≢ [] → back ≢ [] → ⊥
    one_only [] back q ne ne' = ne refl
    one_only (x ∷ []) back q ne ne' = let e : [] ≡ back = cc q in ne' (sym e)
    one_only (x ∷ y ∷ front) back q ne ne' = let e : [] ≡ y ∷ (front ++ back) = cc q in cc e
