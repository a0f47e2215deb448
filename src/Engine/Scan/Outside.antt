-- ===== src/Engine/Scan/Outside.antt =====
-- A table that is out of the range of a scan has no record that the scan could show.
use ascent_db.Prelude.{greater, ℕ, ◌≡◌, ◌≢◌, ◌∙◌, ap, arith, List, true, less}
use ascent_db.Bytes.Compare.{
  compare_bytes, compare_bytes-flip, compare_bytes-eq, compare_bytes_trans,
}
use ascent_db.Record.{Record}
use ascent_db.Meta.{TableMeta}
use ascent_db.Meta.Overlap.{is_apart, AtMost}
use ascent_db.Engine.Scan.Groups.{as_of}
use ascent_db.Engine.Scan.Thinned.{Unseen}

-- A user key in the range cannot be in a table that is out of it.
apart-range :
    (start end u : List ℕ) (t : TableMeta)
    → is_apart t start end ≡ true
    → AtMost start u
    → compare_bytes u end ≡ less
    → compare_bytes t.min_key.user_key u ≢ greater
    → compare_bytes u t.max_key.user_key ≢ greater
    → ⊥
unfolding is_apart
apart-range start end u t e (AtMost.at_most h) h' lo hi =
    let lo_key = t.min_key.user_key in
    let hi_key = t.max_key.user_key in
    ground (
      arith,
      e,
      h,
      h',
      lo,
      hi,
      compare_bytes_trans hi_key start u,
      compare_bytes-eq start u,
      compare_bytes-flip start u,
      compare_bytes-flip u hi_key,
      compare_bytes_trans u end lo_key,
      compare_bytes-flip end lo_key,
      compare_bytes-flip u lo_key,
    )

pub apart-Unseen :
    (start end u : List ℕ) (n : ℕ) (t : TableMeta) (r : Record)
    → is_apart t start end ≡ true
    → AtMost start u
    → compare_bytes u end ≡ less
    → AtMost t.min_key.user_key r.user_key
    → AtMost r.user_key t.max_key.user_key
    → Unseen (as_of u n) r
apart-Unseen start end u n t r e h h' (AtMost.at_most lo) (AtMost.at_most hi) q = absurd (
    apart-range start end u t e h h' (λ p. lo (ap (compare_bytes t.min_key.user_key) q ∙ p))
      (λ p. hi (ap (λ k. compare_bytes k t.max_key.user_key) q ∙ p)))
