-- ===== src/Meta/Recovery.antt =====
-- Replay of a manifest that encodeVersionEdit wrote.
use ascent_db.Prelude.{
  ℕ, zero, suc, ◌<◌, ◌≡◌, refl, arith, List, [], ◌∷◌, ◌++◌, length, map, All, All-append,
  append_assoc, append-nil, length-append, Option, none, some, leb, le→leb, false, Result, ok, err,
  panic, ◌>>=◌,
}
use ascent_db.Meta.{
  TableMeta, DeletedTableMeta, VersionEdit, VersionSet, Item, add_table, delete_table,
  last_sequence, next_file_num, log_number, IsTable, IsDeleted,
}
use ascent_db.Meta.Uvarint.{put_uvarint}
use ascent_db.Meta.Encode.{
  encode_version_edit, write_adds, write_deletes, write_pointer, encode_table_meta-bytes,
  encode_deleted_table-bytes,
}
use ascent_db.Meta.Items.{
  item_bytes, payload_bytes, tag_of, IsItem, read_item-Reads, item_bytes-nonempty,
}
use ascent_db.Meta.Replay.{apply_item, replay_loop, replay}

pub items_bytes : List Item → List ℕ
items_bytes [] = []
items_bytes (item ∷ items) = item_bytes item ++ items_bytes items

-- The items in turn, as the loop treats them.
pub apply_items : List Item → VersionSet → Result VersionSet
apply_items [] vs = ok vs
apply_items (item ∷ items) vs = apply_item item vs >>= apply_items items

bind-ext :
    {A B : Type 0} (r : Result A) (f g : A → Result B)
    → ((a : A) → f a ≡ g a)
    → (r >>= f) ≡ (r >>= g)
bind-ext (ok a) f g h = h a
bind-ext (err e) f g h = refl
bind-ext panic f g h = refl

replay_loop-items :
    (items : List Item) (fuel : ℕ) (front : List ℕ) (vs : VersionSet)
    → All IsItem items
    → length (items_bytes items) < fuel
    → replay_loop fuel vs (front ++ items_bytes items) (length front) ≡ apply_items items vs
unfolding items_bytes apply_items replay_loop
replay_loop-items [] zero front vs h n = absurd (omega arith)
replay_loop-items [] (suc fuel) front vs h n =
    rw (append-nil, le→leb (length front) (length front) (omega arith))
replay_loop-items (item ∷ items) zero front vs h n = absurd (omega arith)
replay_loop-items (item ∷ items) (suc fuel) front vs (here, later) n =
    let front' : List ℕ = front ++ item_bytes item in
    let more : leb (length (front ++ (item_bytes item ++ items_bytes items))) (length front)
        ≡ false =
      ground (
        arith,
        length-append front (item_bytes item ++ items_bytes items),
        length-append (item_bytes item) (items_bytes items),
        item_bytes-nonempty item,
      ) in
    let enough : length (items_bytes items) < fuel =
      omega
        (arith, length-append (item_bytes item) (items_bytes items), item_bytes-nonempty item) in
    rw (more, (read_item-Reads item here).run front (items_bytes items))
      (bind-ext (apply_item item vs) _ _ (λ vs'.
        rw (append_assoc front (item_bytes item) (items_bytes items)) at
          (replay_loop-items items fuel front' vs' later enough)))

-- Replay of well-formed items applies them in turn.
replay-items :
    (items : List Item) (vs : VersionSet)
    → All IsItem items
    → replay vs (items_bytes items) ≡ apply_items items vs
unfolding replay
replay-items items vs h = replay_loop-items items _ [] vs h (omega arith)

items_bytes-append : (xs ys : List Item) → items_bytes (xs ++ ys) ≡ items_bytes xs ++ items_bytes ys
unfolding items_bytes
items_bytes-append [] ys = refl
items_bytes-append (x ∷ xs) ys =
    rw (items_bytes-append xs ys, append_assoc (item_bytes x) (items_bytes xs) (items_bytes ys))

-- The item of a pointer that may be nil.
unfoldable pub pointer_item : (ℕ → Item) → Option ℕ → List Item
pointer_item f none = []
pointer_item f (some n) = f n ∷ []

-- The items of an edit, in the order in which encodeVersionEdit writes them.
pub edit_items : VersionEdit → List Item
edit_items edit =
    map add_table edit.add_tables
    ++ (map delete_table edit.delete_tables
        ++ (pointer_item log_number edit.log_number
            ++ (pointer_item last_sequence edit.last_sequence
                ++ pointer_item next_file_num edit.next_file_num)))

-- The ranges of the Go types.
pub record IsEdit (edit : VersionEdit) : Type 0 where
  pub adds_ok : All IsTable edit.add_tables
  pub deletes_ok : All IsDeleted edit.delete_tables
  pub log_fits : All IsItem (pointer_item log_number edit.log_number)
  pub sequence_fits : All IsItem (pointer_item last_sequence edit.last_sequence)
  pub file_num_fits : All IsItem (pointer_item next_file_num edit.next_file_num)

write_adds-items :
    (ts : List TableMeta) → All IsTable ts → write_adds ts ≡ ok (items_bytes (map add_table ts))
unfolding write_adds items_bytes item_bytes payload_bytes tag_of
write_adds-items [] h = refl
write_adds-items (t ∷ ts) (ht, hts) =
    rw (encode_table_meta-bytes t ht, write_adds-items ts hts, append_assoc)

write_deletes-items :
    (ds : List DeletedTableMeta) → write_deletes ds ≡ ok (items_bytes (map delete_table ds))
unfolding write_deletes items_bytes item_bytes payload_bytes tag_of
write_deletes-items [] = refl
write_deletes-items (d ∷ ds) =
    rw (encode_deleted_table-bytes d, write_deletes-items ds, append_assoc)

write_pointer-items :
    (f : ℕ → Item) (p : Option ℕ)
    → ((n : ℕ) → item_bytes (f n) ≡ put_uvarint (tag_of (f 0)) ++ put_uvarint n)
    → write_pointer (tag_of (f 0)) p ≡ items_bytes (pointer_item f p)
unfolding write_pointer items_bytes pointer_item
write_pointer-items f none h = refl
write_pointer-items f (some n) h = rw (h n, append-nil)

encode_version_edit-items :
    (edit : VersionEdit)
    → All IsTable edit.add_tables
    → encode_version_edit edit ≡ ok (items_bytes (edit_items edit))
unfolding encode_version_edit edit_items tag_of item_bytes payload_bytes
encode_version_edit-items edit h =
    rw
      (
        write_adds-items edit.add_tables h,
        write_deletes-items edit.delete_tables,
        write_pointer-items log_number edit.log_number (λ n. refl),
        write_pointer-items last_sequence edit.last_sequence (λ n. refl),
        write_pointer-items next_file_num edit.next_file_num (λ n. refl),
      )
      (simp items_bytes-append)

All-map :
    {A B : Type 0} (f : A → B) (P : B → Type 0) (xs : List A)
    → All (λ x. P (f x)) xs
    → All P (map f xs)
All-map f P [] h = tt
All-map f P (x ∷ xs) (hx, hxs) = (hx, All-map f P xs hxs)

edit_items-IsItem : (edit : VersionEdit) → IsEdit edit → All IsItem (edit_items edit)
unfolding edit_items
edit_items-IsItem edit h =
    All-append IsItem (map add_table edit.add_tables) _
      (All-map add_table IsItem edit.add_tables h.adds_ok)
      (All-append IsItem (map delete_table edit.delete_tables) _
        (All-map delete_table IsItem edit.delete_tables h.deletes_ok)
        (All-append IsItem (pointer_item log_number edit.log_number) _ h.log_fits (
          All-append IsItem (pointer_item last_sequence edit.last_sequence) _ h.sequence_fits
            h.file_num_fits)))

-- What LogAndApply appends to the manifest, edit by edit.
pub write_edits : List VersionEdit → Result (List ℕ)
write_edits [] = ok []
write_edits (edit ∷ edits) = do
  b ← encode_version_edit edit
  rest ← write_edits edits
  ok (b ++ rest)

pub all_items : List VersionEdit → List Item
all_items [] = []
all_items (edit ∷ edits) = edit_items edit ++ all_items edits

write_edits-items :
    (edits : List VersionEdit)
    → All IsEdit edits
    → write_edits edits ≡ ok (items_bytes (all_items edits))
unfolding write_edits all_items items_bytes
write_edits-items [] h = refl
write_edits-items (edit ∷ edits) (he, hes) = rw (
  encode_version_edit-items edit he.adds_ok,
  write_edits-items edits hes,
  items_bytes-append (edit_items edit) (all_items edits),
)

all_items-IsItem : (edits : List VersionEdit) → All IsEdit edits → All IsItem (all_items edits)
unfolding all_items
all_items-IsItem [] h = tt
all_items-IsItem (edit ∷ edits) (he, hes) =
    All-append IsItem (edit_items edit) (all_items edits) (edit_items-IsItem edit he)
      (all_items-IsItem edits hes)

-- Replaying a manifest to which edits in range were written one after the other has the effect of
-- their items in turn: of each edit its new tables, its deletions, and its numbers, in this order.
pub replay-write_edits :
    (edits : List VersionEdit) (vs : VersionSet)
    → All IsEdit edits
    → (write_edits edits >>= replay vs) ≡ apply_items (all_items edits) vs
replay-write_edits edits vs h =
    rw (write_edits-items edits h) (replay-items (all_items edits) vs (all_items-IsItem edits h))
