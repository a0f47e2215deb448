-- ===== src/Engine/Compact/Sizes.antt =====
-- How large a file a writer makes that has not reached the size limit by more than one record.
use ascent_db.Prelude.{
  ℕ, ◌+◌, ◌*◌, ◌≤◌, ◌<◌, ◌≡◌, ◌∙◌, refl, sym, ap, fun_ext, arith, List, [], ◌∷◌, ◌++◌, length, All,
  append-nil, Option-cases, inl, inr, Bool-cases, leb, if◌then◌else◌, Result, ok, err, panic, ◌>>=◌,
  ◌^◌,
}
use mathlib.Core.List.{get_last?}
use mathlib.Core.Path.{subst}
use ascent_db.Bytes.Word.{IsU32}
use ascent_db.Record.{Record, IsRecord, size}
use ascent_db.Record.Encode.{size-length, length-record_bytes}
use ascent_db.Sstable.Format.{Filter}
use ascent_db.Sstable.Filter as Filter
use ascent_db.Sstable.Writer.{TableWriter, create, collect, flush_block, add, close, write_block}
use ascent_db.Sstable.Writer.Invariant.{
  IsWriter, all_records, blocks_bytes, flush_block-IsWriter, add-IsWriter, add_records-create,
  add_records,
}
use ascent_db.Sstable.Open.Blocks.{index_of-IsEntry}
use ascent_db.Sstable.Open.Written.{close-file_of, file_of, flush_block-empty}

-- A record takes 17 bytes at least, and its share of a block less than that.
abbrev pub Bounded : TableWriter → Type 0
Bounded w = w.offset + w.current_block_size ≤ 2 * w.estimated_size + 8

size-ge : (r : Record) → IsRecord r → 17 ≤ size r
size-ge r h = omega (arith, size-length r h, length-record_bytes r)

flush_block-size :
    (w : TableWriter)
    → (flush_block w).offset + (flush_block w).current_block_size
      ≤ w.offset + w.current_block_size + 12
unfolding flush_block write_block
flush_block-size w = elim (Option-cases (get_last? w.entries)) [
  | inl e ↦ rw (e, flush_block) (omega arith)
  | inr (last, e) ↦ rw (e, flush_block) (omega arith)
]

flush_block-estimated : (w : TableWriter) → (flush_block w).estimated_size ≡ w.estimated_size
unfolding flush_block
flush_block-estimated w = elim (Option-cases (get_last? w.entries)) [
  | inl e ↦ rw (e, flush_block) refl
  | inr (last, e) ↦ rw (e, flush_block) refl
]

pub create-Bounded : (block_size : ℕ) (filter : Filter) → Bounded (create block_size filter)
unfolding create
create-Bounded block_size filter = omega arith

collect-Bounded :
    (w : TableWriter) (r : Record) (f : Filter)
    → IsRecord r
    → Bounded w
    → ((collect w r f).offset + (collect w r f).current_block_size + 12
        ≤ 2 * (collect w r f).estimated_size + 8)
      × ((collect w r f).estimated_size ≡ w.estimated_size + size r)
unfolding collect
collect-Bounded w r f h b = (omega (arith, b, size-ge r h), refl)

ok_eq : {A : Type 0} {a b : A} → ok a ≡ ok b → a ≡ b
ok_eq e = cc e

collected :
    (w w' : TableWriter) (r : Record)
    → IsRecord r
    → Bounded w
    → (m : Result Filter)
    → (m >>= λ f. ok (
        if leb (collect w r f).max_block_size (collect w r f).current_block_size
        then flush_block (collect w r f)
        else collect w r f))
      ≡ ok w'
    → Bounded w' × (w'.estimated_size ≡ w.estimated_size + size r)
collected w w' r h b (ok f) e =
    let c = collect w r f in
    let (roomy, estimated) = collect-Bounded w r f h b in
    elim (Bool-cases (leb c.max_block_size c.current_block_size)) [
      | inl t ↦
          let q : ok (flush_block c) ≡ ok w' = rw t at e in
          subst (λ z. Bounded z × (z.estimated_size ≡ w.estimated_size + size r)) (ok_eq q)
            (
              omega (arith, flush_block-size c, flush_block-estimated c, roomy),
              flush_block-estimated c ∙ estimated,
            )
      | inr t ↦
          let q : ok c ≡ ok w' = rw t at e in
          subst (λ z. Bounded z × (z.estimated_size ≡ w.estimated_size + size r)) (ok_eq q)
            (omega (arith, roomy), estimated)
    ]
collected w w' r h b (err er) e = cc e
collected w w' r h b panic e = cc e

-- Add counts the record's size.
pub add-Bounded :
    (w w' : TableWriter) (r : Record)
    → IsRecord r
    → add w r ≡ ok w'
    → Bounded w
    → Bounded w' × (w'.estimated_size ≡ w.estimated_size + size r)
unfolding add
add-Bounded w w' r h e b = collected w w' r h b (Filter.add r.user_key w.filter) e

writing :
    (block_size : ℕ) (filter : Filter) (rs : List Record) (w : TableWriter)
    → Filter.IsFilter filter
    → All IsRecord rs
    → add_records (create block_size filter) rs ≡ ok w
    → (bs : List (List Record)) × IsWriter w bs × (all_records bs ++ w.entries ≡ rs)
writing block_size filter rs w h valid added =
    let (w0, bs, added0, kept, same) = add_records-create block_size filter rs h valid in
    let e : w0 ≡ w = ok_eq (sym added0 ∙ added) in
    (bs, subst (λ v. IsWriter v bs) e kept, subst (λ v. all_records bs ++ v.entries ≡ rs) e same)

-- Another Add succeeds.
pub add_ok :
    (block_size : ℕ) (filter : Filter) (rs : List Record) (w : TableWriter) (r : Record)
    → Filter.IsFilter filter
    → All IsRecord rs
    → add_records (create block_size filter) rs ≡ ok w
    → IsRecord r
    → (w' : TableWriter) × (add w r ≡ ok w')
add_ok block_size filter rs w r h valid added hr =
    let (bs, kept, same) = writing block_size filter rs w h valid added in
    let (w', bs', e, kept', same') = add-IsWriter w bs r kept hr in (w', e)

-- A writer whose estimated size leaves room for the blocks can be closed.
pub close_lem :
    (block_size : ℕ) (filter : Filter) (rs : List Record) (w : TableWriter)
    → Filter.IsFilter filter
    → All IsRecord rs
    → add_records (create block_size filter) rs ≡ ok w
    → Bounded w
    → 2 * w.estimated_size + 20 < 2 ^ 32
    → (file : List ℕ) × (close w ≡ ok file)
close_lem block_size filter rs w h valid added b room =
    let (bs0, kept, same) = writing block_size filter rs w h valid added in
    let (bs, flushed, moved) = flush_block-IsWriter w bs0 kept in
    let all : all_records bs ≡ rs =
      sym (append-nil _)
      ∙ ap (λ l. all_records bs ++ l) (sym (flush_block-empty w))
      ∙ moved
      ∙ same in
    let valid' : All IsRecord (all_records bs) = rw all valid in
    let fits : IsU32 (0 + length (blocks_bytes bs)) =
      omega (arith, ap length flushed.file_is, flushed.offset_is, flush_block-size w, b, room) in
    (
      file_of (flush_block w),
      close-file_of w (rw flushed.index_is (index_of-IsEntry 0 bs valid' fits)),
    )

bind-ok : {A : Type 0} (m : Result A) → (m >>= λ a. ok a) ≡ m
bind-ok (ok a) = refl
bind-ok (err e) = refl
bind-ok panic = refl

bind_assoc :
    {A B : Type 0} (m : Result A) (f : A → Result B) (g : B → Result B)
    → (m >>= λ a. (f a >>= g)) ≡ ((m >>= f) >>= g)
bind_assoc (ok a) f g = refl
bind_assoc (err e) f g = refl
bind_assoc panic f g = refl

add_records-last :
    (rs : List Record) (r : Record) (w : TableWriter)
    → add_records w (rs ++ (r ∷ [])) ≡ (add_records w rs >>= λ v. add v r)
unfolding add_records
add_records-last [] r w = bind-ok (add w r)
add_records-last (x ∷ rs) r w =
    ap (λ f. add w x >>= f) (fun_ext (add_records-last rs r))
    ∙ bind_assoc (add w x) (λ v. add_records v rs) (λ v. add v r)

-- One Add more.
pub add_records_snoc :
    (w w1 w2 : TableWriter) (rs : List Record) (r : Record)
    → add_records w rs ≡ ok w1
    → add w1 r ≡ ok w2
    → add_records w (rs ++ (r ∷ [])) ≡ ok w2
add_records_snoc w w1 w2 rs r e f = add_records-last rs r w ∙ ap (λ m. m >>= λ v. add v r) e ∙ f
