-- ===== src/Engine/Scan/Client.antt =====
-- The loop of a client over a scan, from NewScanIterator on.
use ascent_db.Prelude.{
  ℕ, zero, suc, ◌<◌, ◌≡◌, ◌≢◌, refl, sym, ap, arith, List, [], ◌∷◌, length, All, All-weaken, Option,
  none, some, Bool-cases, inl, inr, less, if◌then◌else◌, ok, ◌>>=◌,
}
use mathlib.Core.Path.{subst}
use mathlib.Core.List.{Permᴰ}
use mathlib.Core.List.Permᴰ
use ascent_db.Bytes.Compare.{compare_bytes, compare_bytes_trans, equal_bytes, equal_bytes_iff}
use ascent_db.Record.{Record}
use ascent_db.Sstable.Reader.Lookup.{Answer}
use ascent_db.Memtable.Permuted.{Answer-Perm}
use ascent_db.Merge.{Item, new_iterator_heap}
use ascent_db.Merge.Order.{Ascending, length-Perm}
use ascent_db.Merge.Drain.{all_of, merged, new_iterator_heap-Sound, held-new_iterator_heap}
use ascent_db.Engine.Read.{live}
use ascent_db.Engine.Scan.{new_scan_iterator, valid, key, value, next, drain}
use ascent_db.Engine.Scan.Groups.{Above, as_of}
use ascent_db.Engine.Scan.Reading.{Reads}
use ascent_db.Engine.Scan.Shown.{Advanced, scan_state, advance-Advanced}

-- The value that the client saw for a key.
unfoldable pub find : List ℕ → List (List ℕ × List ℕ) → Option (List ℕ)
find u [] = none
find u ((k, v) ∷ out) = let rest = find u out in if equal_bytes k u then some v else rest

abbrev pub Under : List ℕ → List (List ℕ × List ℕ) → Type 0
Under u out = All (λ p. compare_bytes u p.0 ≡ less) out

-- The keys come in strictly ascending order.
unfoldable pub Rising : List (List ℕ × List ℕ) → Type 0
Rising [] = Unit {0}
Rising (p ∷ out) = Under p.0 out × Rising out

-- What the client sees of a list of records.
record Shows (end : List ℕ) (n : ℕ) (l : List Record) (out : List (List ℕ × List ℕ)) : Type 0 where
  reads : (u : List ℕ) → compare_bytes u end ≡ less → Reads n u l (find u out)
  rising : Rising out
  below : All (λ p. compare_bytes p.0 end ≡ less) out
  low : (u : List ℕ) → All (Above u) l → Under u out

abbrev Drains : ℕ → List ℕ → ℕ → List Record → Option Record → List Item → Type 0
Drains fuel end n l c heap =
    (out : List (List ℕ × List ℕ)) × (drain fuel (scan_state end n c heap) ≡ ok out)
    × Shows end n l out

drain_stopped :
    (fuel : ℕ) (end : List ℕ) (n : ℕ) (l : List Record) (heap : List Item)
    → ((u : List ℕ) → compare_bytes u end ≡ less → Reads n u l none)
    → Drains (suc fuel) end n l none heap
unfolding drain valid find Rising
drain_stopped fuel end n l heap reads =
    ([], refl, record { reads = reads; rising = tt; below = tt; low = λ u h. tt })

find-moved :
    (end : List ℕ) (n : ℕ) (l back : List Record) (r : Record) (rest : List (List ℕ × List ℕ))
    (u : List ℕ)
    → Reads n r.user_key l (some r.value)
    → ((u : List ℕ) (v : Option (List ℕ)) → u ≢ r.user_key → Reads n u back v → Reads n u l v)
    → Reads n u back (find u rest)
    → Reads n u l (find u ((r.user_key, r.value) ∷ rest))
unfolding find
find-moved end n l back r rest u here others reads = elim (Bool-cases (equal_bytes r.user_key u)) [
  | inl e ↦
      let q : r.user_key ≡ u = (equal_bytes_iff r.user_key u).0 e in
      rw e (subst (λ z. Reads n z l (some r.value)) q here)
  | inr e ↦
      let ne : u ≢ r.user_key = λ q. cc (e, (equal_bytes_iff r.user_key u).1 (sym q)) in
      rw e (others u (find u rest) ne reads)
]

drain_lem :
    (fuel : ℕ) (end : List ℕ) (n : ℕ) (l : List Record) (c : Option Record) (heap : List Item)
    → length l < fuel
    → Advanced end n l (scan_state end n c heap)
    → Drains fuel end n l c heap
unfolding drain valid key value next Rising
drain_lem zero end n l c heap enough a = absurd (omega arith)
drain_lem (suc fuel) end n l c heap enough (Advanced.stopped e reads) =
    subst (λ z. Drains (suc fuel) end n l z heap) (sym e) (drain_stopped fuel end n l heap reads)
drain_lem (suc fuel) end n l c heap enough
      (Advanced.moved r back e below y o len greater here others low) =
    let (c', heap', q, a) =
      advance-Advanced (suc fuel) end n (some r) heap back y o (omega (arith, len, enough)) in
    let (rest, q', s) = drain_lem fuel end n back c' heap' (omega (arith, len, enough)) a in
    subst (λ z. Drains (suc fuel) end n l z heap) (sym e)
      (
        (r.user_key, r.value) ∷ rest,
        rw (q, q') refl,
        record {
          reads = λ u h. find-moved end n l back r rest u here others (s.reads u h);
          rising = (s.low r.user_key greater, s.rising);
          below = (below, s.below);
          low = λ u h. (
            low u h,
            All-weaken (λ p. compare_bytes_trans u r.user_key p.0 (low u h)) rest
                (s.low r.user_key greater),
          );
        },
      )

-- A scan over iterators whose records are in order ends without a panic, for one round more than
-- there are records; the keys that its client sees are below the end and strictly ascending; and for
-- any user key below the end the client sees the value of the newest record that is not newer than
-- the scan's sequence number, and nothing if that record deletes the key or if there is none.
pub drain-new_scan_iterator :
    (iters : List (List Record)) (end : List ℕ) (n : ℕ) (u : List ℕ)
    → All Ascending iters
    → compare_bytes u end ≡ less
    → (out : List (List ℕ × List ℕ)) × ((new_scan_iterator (suc (length (all_of iters))) iters end n
          >>= drain (suc (length (all_of iters))))
        ≡ ok out)
      × Rising out
      × All (λ p. compare_bytes p.0 end ≡ less) out
      × (o : Option Record) × Answer (as_of u n) (all_of iters) o
      × (find u out ≡ live o)
unfolding new_scan_iterator
drain-new_scan_iterator iters end n u all h =
    let e = held-new_iterator_heap iters in
    let fuel = suc (length (all_of iters)) in
    let (l, y, o, d) =
      merged (length (all_of iters)) (new_iterator_heap iters) (omega (arith, ap length e))
        (new_iterator_heap-Sound iters all) in
    let d' : Permᴰ (all_of iters) l = rw e at d in
    let enough : length l < fuel = omega (arith, length-Perm d') in
    let (c, heap, q, a) = advance-Advanced fuel end n none (new_iterator_heap iters) l y o enough in
    let (out, q', s) = drain_lem fuel end n l c heap enough a in
    let (best, answer, v) = s.reads u h in
    (out, rw (q, q') refl, s.rising, s.below, best, Answer-Perm (Permᴰ.symm d') answer, sym v)
