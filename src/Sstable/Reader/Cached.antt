-- ===== src/Sstable/Reader/Cached.antt =====
-- readBlock and Get of a reader that may have a block cache.
use ascent_db.Prelude.{
  ℕ, zero, suc, Bool-cases, ◌≡◌, ◌∙◌, refl, sym, ap, List, [], ◌∷◌, get_elem?, take, All, Option,
  none, some, Option-cases, inl, inr, Bool, true, false, if◌then◌else◌, Result, ok, err, panic,
  ◌>>=◌,
}
use mathlib.Core.Path.{subst}
use ascent_db.Record.{InternalKey, Record}
use ascent_db.Memtable.{zero_key}
use ascent_db.Sstable.Format.{IndexEntry, Filter}
use ascent_db.Sstable.Filter as Filter
use ascent_db.Sstable.Cache.{BlockKey, Entry, Lru, same_key}
use ascent_db.Sstable.Cache as Cache
use ascent_db.Sstable.Cache.Views.{IsCache, without, same_key-eq, All-without}
use ascent_db.Sstable.Cache.Calls.{lookup, touch, value_of}
use ascent_db.Sstable.Cache.Refines.{get-touch, set-take}
use ascent_db.Sstable.Reader.{find_block, search_block, read_block, get_from, get}

-- readBlock behind a cache that did not have the block. Where it fails, the cache stays as it is.
unfoldable pub load_and_set :
    Lru → BlockKey → List ℕ → IndexEntry → Result (Option Lru × List Record)
load_and_set c key file e = do
  block ← read_block file e
  c' ← Cache.set c key block
  ok (some c', block)

-- readBlock; a reader without a cache has `none`.
unfoldable pub read_cached :
    Option Lru → ℕ → List ℕ → IndexEntry → Result (Option Lru × List Record)
read_cached none file_num file e = do block ← read_block file e; ok (none, block)
read_cached (some c) file_num file e = do
  let key : BlockKey = record { file_num = file_num; offset = e.block_offset }
  (c', hit) ← Cache.get c key
  elim hit [ none ↦ load_and_set c' key file e | some block ↦ ok (some c', block) ]

unfoldable pub search_cached :
    Option Lru → ℕ → List ℕ → InternalKey → Option IndexEntry → Result (Option Lru × Option Record)
search_cached cache file_num file key none = ok (cache, none)
search_cached cache file_num file key (some e) = do
  (cache', block) ← read_cached cache file_num file e
  ok (cache', search_block key block)

-- Get
unfoldable pub get_cached :
    Option Lru
    → ℕ
    → List ℕ
    → Filter
    → List IndexEntry
    → InternalKey
    → Result (Option Lru × Option Record)
get_cached cache file_num file filter index key = do
  in_filter ← Filter.contains key.user_key filter
  elim in_filter [
    | true ↦ search_cached cache file_num file key (find_block key index)
    | false ↦ ok (cache, none)
  ]

-- The files by number, and the sizes of their blocks by offset.
module _ (disk : ℕ → List ℕ) (size_at : ℕ → ℕ → ℕ) where
  -- The entry is what reading its block gives.
  unfoldable pub Current : Entry → Type 0
  Current x =
      read_block (disk x.key.file_num) (record {
        separator_key = zero_key;
        block_offset = x.key.offset;
        block_size = size_at x.key.file_num x.key.offset;
      })
      ≡ ok x.value

  -- The cache, if there is one, is a list of current entries.
  unfoldable pub Trusted : Option Lru → Type 0
  Trusted none = Unit {0}
  Trusted (some c) = (l : List Entry) × IsCache c l × All Current l

  -- What is returned, without the cache.
  unfoldable pub returned {ℓ} : {A : Type ℓ} → Result (Option Lru × A) → Result A
  returned (ok p) = ok p.1
  returned (err e) = err e
  returned panic = panic

  -- The result is that of the call without a cache, and the cache behind it is trusted.
  unfoldable pub Same {ℓ} : {A : Type ℓ} → Result (Option Lru × A) → Result A → Type ℓ
  Same (ok (cache, a)) r = (r ≡ ok a) × Trusted cache
  Same (err e) r = r ≡ err e
  Same panic r = r ≡ panic

  Current-lookup :
      (key : BlockKey) (l : List Entry) (x : Entry)
      → All Current l
      → lookup key l ≡ some x
      → Current x × (same_key x.key key ≡ true)
  unfolding lookup
  Current-lookup key [] x h e = cc
  Current-lookup key (y ∷ l) x (h, hs) e = elim (Bool-cases (same_key y.key key)) [
    | inl t ↦
        let q : some y ≡ some x = rw t at e in
        let same : y ≡ x = cc q in
        (subst Current same h, ap (λ z. same_key z.key key) (sym same) ∙ t)
    | inr t ↦ Current-lookup key l x hs (rw t at e)
  ]

  Current-touch : (key : BlockKey) (l : List Entry) → All Current l → All Current (touch key l)
  unfolding touch
  Current-touch key l h = elim (Option-cases (lookup key l)) [
    | inl e ↦ rw (e, touch) h
    | inr (x, e) ↦ rw (e, touch) ((Current-lookup key l x h e).0, All-without Current key l h)
  ]

  All-take : (n : ℕ) (l : List Entry) → All Current l → All Current (take n l)
  All-take zero l h = tt
  All-take (suc n) [] h = tt
  All-take (suc n) (x ∷ l) (h, hs) = (h, All-take n l hs)

  -- A reader without a cache.
  Same-none : (r : Result (List Record)) → Same (r >>= λ block. ok (none, block)) r
  unfolding Same Trusted
  Same-none (ok b) = (refl, tt)
  Same-none (err e) = refl
  Same-none panic = refl

  module _ (file_num : ℕ) (e : IndexEntry)
      (sized : size_at file_num e.block_offset ≡ e.block_size) where
    abbrev the_key : BlockKey
    the_key = record { file_num = file_num; offset = e.block_offset }

    read_block-Current :
        (x : Entry)
        → same_key x.key the_key ≡ true
        → Current x
        → read_block (disk file_num) e ≡ ok x.value
    unfolding Current read_block
    read_block-Current x t h =
        subst
          (λ n.
            read_block (disk file_num)
              (record { separator_key = zero_key; block_offset = e.block_offset; block_size = n })
            ≡ ok x.value)
          sized
          (subst
            (λ k.
              read_block (disk k.file_num) (record {
                separator_key = zero_key;
                block_offset = k.offset;
                block_size = size_at k.file_num k.offset;
              })
              ≡ ok x.value)
            (same_key-eq x.key the_key t) h)

    new-Current :
        (b : List Record)
        → read_block (disk file_num) e ≡ ok b
        → Current (record { key = the_key; value = b })
    unfolding Current read_block
    new-Current b h =
        subst
          (λ n.
            read_block (disk file_num)
              (record { separator_key = zero_key; block_offset = e.block_offset; block_size = n })
            ≡ ok b)
          (sym sized) h

    loaded :
        (c : Lru) (l : List Entry) (r : Result (List Record))
        → IsCache c l
        → All Current l
        → read_block (disk file_num) e ≡ r
        → Same (load_and_set c the_key (disk file_num) e) r
    unfolding load_and_set Same Trusted
    loaded c l (ok b) h all q =
        let (c', s, h', n) = set-take c l the_key b h in
        rw (q, s)
          (
            refl,
            (
              take c.cap (record { key = the_key; value = b } ∷ without the_key l),
              h',
              All-take c.cap _ (new-Current b q, All-without Current the_key l all),
            ),
          )
    loaded c l (err er) h all q = rw q refl
    loaded c l panic h all q = rw q refl

    -- readBlock with a trusted cache returns what it returns without one, and the cache behind it is
    -- trusted.
    pub read_cached-Same :
        (cache : Option Lru)
        → Trusted cache
        → Same (read_cached cache file_num (disk file_num) e) (read_block (disk file_num) e)
    unfolding read_cached Trusted value_of Same
    read_cached-Same none h = Same-none (read_block (disk file_num) e)
    read_cached-Same (some c) (l, h, all) =
        let (c', q, h', n) = get-touch c l the_key h in
        elim (Option-cases (lookup the_key l)) [
          | inl miss ↦
              let same : touch the_key l ≡ l = unfold touch in rw (miss, touch) refl in
              rw (q, miss) (loaded c' l _ (rw same at h') all refl)
          | inr (x, hit) ↦
              let (cur, t) = Current-lookup the_key l x all hit in
              rw (q, hit)
                (read_block-Current x t cur, (touch the_key l, h', Current-touch the_key l all))
        ]

  find_block-All :
      (P : IndexEntry → Type 0) (index : List IndexEntry) (i : ℕ) (e : IndexEntry)
      → All P index
      → get_elem? index i ≡ some e
      → P e
  find_block-All P [] i e h q = cc
  find_block-All P (x ∷ index) zero e (h, hs) q =
      let r : some x ≡ some e = q in let same : x ≡ e = cc r in subst P same h
  find_block-All P (x ∷ index) (suc i) e (h, hs) q = find_block-All P index i e hs q

  Same-bind :
      {A B : Type 0} (f : A → B) (m : Result (Option Lru × A)) (r : Result A)
      → Same m r
      → Same (m >>= λ p. ok (p.0, f p.1)) (r >>= λ a. ok (f a))
  unfolding Same
  Same-bind f (ok (cache, a)) r (h, t) = (rw h refl, t)
  Same-bind f (err e) r h = rw h refl
  Same-bind f panic r h = rw h refl

  module _ (file_num : ℕ) (filter : Filter) (index : List IndexEntry) (key : InternalKey) where
    searched :
        (cache : Option Lru) (o : Option IndexEntry)
        → Trusted cache
        → ((e : IndexEntry) → o ≡ some e → size_at file_num e.block_offset ≡ e.block_size)
        → Same (search_cached cache file_num (disk file_num) key o) (get_from (disk file_num) key o)
    unfolding search_cached get_from
    searched cache none h sized = unfold Same in (refl, h)
    searched cache (some e) h sized =
        Same-bind (search_block key) (read_cached cache file_num (disk file_num) e)
          (read_block (disk file_num) e) (read_cached-Same file_num e (sized e refl) cache h)

    filtered :
        (cache : Option Lru) (r : Result Bool)
        → Trusted cache
        → All (λ e. size_at file_num e.block_offset ≡ e.block_size) index
        → Same
            (r >>= λ b. elim b [
              | true ↦ search_cached cache file_num (disk file_num) key (find_block key index)
              | false ↦ ok (cache, none)
            ])
            (r >>= λ b. if b then get_from (disk file_num) key (find_block key index) else ok none)
    unfolding find_block
    filtered cache (ok true) h sized =
        searched cache (find_block key index) h (λ e q. find_block-All _ index _ e sized q)
    filtered cache (ok false) h sized = unfold Same in (refl, h)
    filtered cache (err e) h sized = unfold Same in refl
    filtered cache panic h sized = unfold Same in refl

    -- With a trusted cache, Get returns what it returns without one, errors included, and the cache
    -- behind it is trusted: the cache changes no answer. The cache holds what reading the files
    -- gives, with the block sizes that the index has.
    pub get_cached-Same :
        (cache : Option Lru)
        → Trusted cache
        → All (λ e. size_at file_num e.block_offset ≡ e.block_size) index
        → Same
            (get_cached cache file_num (disk file_num) filter index key)
            (get (disk file_num) filter index key)
    unfolding get_cached get
    get_cached-Same cache h sized = filtered cache (Filter.contains key.user_key filter) h sized
