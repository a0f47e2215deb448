-- ===== src/Engine/Scan/Shown.antt =====
-- What one call of advance finds.
use ascent_db.Prelude.{
  ℕ, zero, suc, ◌<◌, ◌≡◌, ◌≢◌, ◌∙◌, refl, sym, ap, arith, List, [], ◌∷◌, ◌++◌, length, All,
  All-weaken, All-right, Option, none, some, Option-cases, true, false, Bool-cases, inl, inr, less,
  is_less, ok,
}
use mathlib.Core.Path.{subst}
use ascent_db.Bytes.Compare.{
  compare_bytes, compare_bytes_trans, compare_bytes-eq, compare_bytes-flip,
}
use ascent_db.Record.{Record}
use ascent_db.Sstable.Reader.Lookup.{Answer}
use ascent_db.Merge.{Item, empty}
use ascent_db.Merge.Order.{Upto, Ascending}
use ascent_db.Merge.Drain.{Yields, merge_record-popped}
use ascent_db.Engine.Read.{live}
use ascent_db.Engine.Scan.{ScanIterator, shown, at_user_key, show_or_continue, advance}
use ascent_db.Engine.Scan.Groups.{
  group, behind, best_of, group-All, Above, behind-Above, behind-Ascending, behind-le, as_of,
  collect_lem, Above-Upto,
}
use ascent_db.Engine.Scan.Reading.{
  Reads, shown-none, shown-some, apart, Above-Reads, Reads-other, Reads-none, Reads-group,
  Reads-dead, Answer-key, first-split, behind-first,
}

-- What one call of advance finds in a list.
pub data Advanced (end : List ℕ) (n : ℕ) (l : List Record) (s : ScanIterator) : Type 0 where
  stopped :
      s.current ≡ none
      → ((u : List ℕ) → compare_bytes u end ≡ less → Reads n u l none)
      → Advanced end n l s
  moved :
      (r : Record) (back : List Record)
      → s.current ≡ some r
      → compare_bytes r.user_key end ≡ less
      → Yields s.heap back
      → Ascending back
      → length back < length l
      → All (Above r.user_key) back
      → Reads n r.user_key l (some r.value)
      → ((u : List ℕ) (v : Option (List ℕ)) → u ≢ r.user_key → Reads n u back v → Reads n u l v)
      → ((u : List ℕ) → All (Above u) l → Above u r)
      → Advanced end n l s

abbrev pub scan_state : List ℕ → ℕ → Option Record → List Item → ScanIterator
scan_state end n current heap = record { end = end; seq_num = n; current = current; heap = heap }

is_less_end : (a b : List ℕ) → is_less (compare_bytes a b) ≡ true → compare_bytes a b ≡ less
is_less_end a b h = ground arith

-- Nothing below the end is at or behind it.
past_end :
    (u end : List ℕ) (r : Record)
    → compare_bytes u end ≡ less
    → is_less (compare_bytes r.user_key end) ≡ false
    → Above u r
past_end u end r h e = ground (
  arith,
  compare_bytes-eq r.user_key end,
  compare_bytes-flip r.user_key end,
  compare_bytes_trans u end r.user_key,
)

past_end_All :
    (u end : List ℕ) (r : Record) (l : List Record)
    → compare_bytes u end ≡ less
    → is_less (compare_bytes r.user_key end) ≡ false
    → All (Upto r) l
    → All (Above u) (r ∷ l)
past_end_All u end r l h e all =
    let above = past_end u end r h e in (above, All-weaken (λ x. Above-Upto u r x above) l all)

-- advance where nothing is shown of the first group: it goes on behind the group.
skipped :
    (end : List ℕ) (n : ℕ) (u0 : List ℕ) (g back : List Record) (s : ScanIterator)
    → All (λ r. r.user_key ≡ u0) g
    → All (Above u0) back
    → live (best_of n none g) ≡ none
    → length back < length (g ++ back)
    → Advanced end n back s
    → Advanced end n (g ++ back) s
skipped end n u0 g back s all above dead shorter (Advanced.stopped c reads) =
    Advanced.stopped c (λ u h. Reads-dead n u0 u g back none all above dead (λ e. refl) (reads u h))
skipped end n u0 g back s all above dead shorter
      (Advanced.moved r later c below y o len greater here others low) =
    let first = low u0 above in
    Advanced.moved r later c below y o (omega (arith, len, shorter)) greater
      (Reads-other n u0 r.user_key g back (some r.value) all (apart u0 r first) here)
      (λ u v ne reads.
        Reads-dead n u0 u g back v all above dead
          (λ e.
            Reads-none n u later v
              (rw e (
                All-weaken (λ x h. compare_bytes_trans u0 r.user_key x.user_key first h) later
                  greater))
              reads)
          (others u v ne reads))
      (λ u h. low u (All-right (Above u) g back h))

-- advance where the first group shows a record.
showing :
    (end : List ℕ) (n : ℕ) (r0 : Record) (l : List Record) (r : Record) (heap : List Item)
    → compare_bytes r0.user_key end ≡ less
    → All (Upto r0) l
    → Ascending l
    → Yields heap (behind r0.user_key l)
    → shown (best_of n none (group r0.user_key (r0 ∷ l))) ≡ some r
    → Advanced end n (r0 ∷ l) (scan_state end n (some r) heap)
showing end n r0 l r heap below before o y e =
    let u0 = r0.user_key in
    let g = group u0 (r0 ∷ l) in
    let back = behind u0 l in
    let (best, reads) = shown-some (best_of n none g) r e in
    let above = behind-Above r0 l before o in
    let all = group-All u0 (r0 ∷ l) in
    let answer : Answer (as_of u0 n) (g ++ back) (some r) =
      subst (Answer (as_of u0 n) (g ++ back)) best (Reads-group n u0 g back all above) in
    let whole : g ++ back ≡ r0 ∷ l = first-split r0 l in
    let k : r.user_key ≡ u0 = Answer-key answer in
    Advanced.moved r back refl (subst (λ z. compare_bytes z end ≡ less) (sym k) below) y
      (behind-Ascending u0 l o) (omega (arith, behind-le u0 l))
      (subst (λ z. All (Above z) back) (sym k) above)
      (subst (λ z. Reads n z (r0 ∷ l) (some r.value)) (sym k)
        (some r, subst (λ z. Answer (as_of u0 n) z (some r)) whole answer, reads))
      (λ u v ne q.
        subst (λ z. Reads n u z v) whole (Reads-other n u0 u g back v all (λ e. ne (e ∙ sym k)) q))
      (λ u h. subst (λ z. compare_bytes u z ≡ less) (sym k) h.0)

-- advance ends, and finds what the list has; as many rounds as there are records, and one, are enough.
pub advance-Advanced :
    (fuel : ℕ) (end : List ℕ) (n : ℕ) (c : Option Record) (heap : List Item) (l : List Record)
    → Yields heap l
    → Ascending l
    → length l < fuel
    → (c' : Option Record) × (heap' : List Item) × (advance fuel (scan_state end n c heap)
        ≡ ok (scan_state end n c' heap'))
      × Advanced end n l (scan_state end n c' heap')
unfolding advance empty Ascending at_user_key show_or_continue
advance-Advanced zero end n c heap l y o enough = absurd (omega arith)
advance-Advanced (suc fuel) end n c heap [] Yields.done o enough =
    (none, [], refl, Advanced.stopped refl (λ u h. Above-Reads n u [] tt))
advance-Advanced (suc fuel) end n c heap (r ∷ l)
      (Yields.more {y = y} {items = others} {rest = rest} {x = x} e m) (before, o) enough =
    let top = merge_record-popped (y ∷ others) rest x e in
    let u0 = x.current.user_key in
    let (heap', q, y') =
      collect_lem (suc fuel) n u0 (y ∷ others) none (x.current ∷ l) (Yields.more e m) enough in
    elim (Bool-cases (is_less (compare_bytes u0 end))) [
      | inr past ↦ (
        none,
        y ∷ others,
        rw (top, past) refl,
        Advanced.stopped refl
            (λ u h. Above-Reads n u _ (past_end_All u end x.current l h past before)),
      )
      | inl inside ↦
          let g = group u0 (x.current ∷ l) in
          let back = behind u0 l in
          let whole = first-split x.current l in
          let left : Yields heap' back = subst (Yields heap') (behind-first x.current l) y' in
          elim (Option-cases (shown (best_of n none g))) [
            | inl dead ↦
                let (c', heap'', q', a) =
                  advance-Advanced fuel end n c heap' back left (behind-Ascending u0 l o)
                    (omega (arith, behind-le u0 l)) in
                let shorter : length back < length (g ++ back) =
                  omega (arith, ap length whole, behind-le u0 l) in
                (
                  c',
                  heap'',
                  rw (top, inside, q, dead) q',
                  subst (λ z. Advanced end n z (scan_state end n c' heap'')) whole
                      (skipped end n u0 g back (scan_state end n c' heap'')
                        (group-All u0 (x.current ∷ l)) (behind-Above x.current l before o)
                        (shown-none _ dead) shorter a),
                )
            | inr (rec, live_one) ↦ (
              some rec,
              heap',
              rw (top, inside, q, live_one) refl,
              showing end n x.current l rec heap' (is_less_end u0 end inside) before o left
                  live_one,
            )
          ]
    ]
