-- ===== src/Wal/Torn.antt =====
-- A log whose last write was cut off in the middle of a frame.
use ascent_db.Prelude.{
  ℕ, suc, ◌+◌, ◌≤◌, ◌<◌, ◌^◌, ◌≡◌, refl, ap, arith, List, [], ◌∷◌, ◌++◌, length, length-append, All,
  Option, err, Error, ltb, if◌then◌else◌, Bool-cases, inl, inr, ltb→lt, ltb→le,
  wal_truncated_header, wal_truncated_payload, wal_truncated_checksum, fun_ext, read_unexpected_eof,
}
use ascent_db.Bytes.Word.{u32, le_bytes, length-le_bytes, of_le_bytes-u32}
use ascent_db.Bytes.Checksum.{checksum}
use ascent_db.Record.{Record, IsRecord}
use ascent_db.Record.Encode.{record_bytes, length-record_bytes}
use ascent_db.Wal.Encode.{frame, frames}
use ascent_db.Wal.Replay.{read_full, read_body, read_frame, replay_loop, replay, on_short}
use ascent_db.Wal.RoundTrip.{read_full-append, feed, replay-frames_tail}

-- The error that the part of a frame read so far leads to.
pub torn_error : ℕ → ℕ → Error
torn_error size got =
    if ltb got 4
    then wal_truncated_header
    else if ltb got (4 + size)
    then wal_truncated_payload
    else wal_truncated_checksum

-- What is cut out of `a ++ b` behind `a` is cut out of `b`.
split_front :
    (front back a b : List ℕ)
    → front ++ back ≡ a ++ b
    → length a ≤ length front
    → (mid : List ℕ) × (front ≡ a ++ mid) × (mid ++ back ≡ b)
split_front front back [] b e h = (front, refl, e)
split_front [] back (x ∷ a) b e h = absurd (omega arith)
split_front (y ∷ front) back (x ∷ a) b e h =
    let (mid, p, q) = split_front front back a b (cc) (omega arith) in (mid, cc, q)

-- A read that the file is too short for.
short :
    (n : ℕ) (file : List ℕ) (e : Error) → length file < n → on_short e (read_full n file) ≡ err e
unfolding read_full
short n file e h = ground arith

torn_body :
    (r : Record) (front back : List ℕ)
    → front ++ back ≡ record_bytes r ++ le_bytes 4 (u32 (checksum (record_bytes r)))
    → 0 < length back
    → read_body (length (record_bytes r)) front
      ≡ err (torn_error (length (record_bytes r)) (4 + length front))
unfolding read_body torn_error
torn_body r front back e h =
    let n = length (record_bytes r) in
    let sum = checksum (record_bytes r) in
    elim (Bool-cases (ltb (length front) n)) [
      | inl t ↦
          rw (short n front wal_truncated_payload (ltb→lt _ _ t)) (ground (arith, ltb→lt _ _ t))
      | inr f ↦
          let (mid, p, q) =
            split_front front back (record_bytes r) (le_bytes 4 (u32 sum)) e (ltb→le _ _ f) in
          let few : length mid < 4 =
            omega (arith, length-append mid back, ap length q, length-le_bytes 4 (u32 sum)) in
          rw (p, read_full-append (record_bytes r) mid refl, short 4 mid wal_truncated_checksum few)
            (ground (arith, length-append (record_bytes r) mid))
    ]

short_header :
    (file : List ℕ) → 0 < length file → length file < 4 → read_full 4 file ≡ err read_unexpected_eof
unfolding read_full
short_header file p h = ground arith

torn_frame :
    (r : Record) (front back : List ℕ)
    → IsRecord r
    → front ++ back ≡ frame r
    → 0 < length front
    → 0 < length back
    → read_frame front ≡ err (torn_error (length (record_bytes r)) (length front))
unfolding read_frame frame
torn_frame r front back valid e p h =
    let n = length (record_bytes r) in
    let fits : n < 2 ^ 32 = omega (arith, length-record_bytes r, valid.size_fits) in
    let size = le_bytes 4 (u32 n) in
    elim (Bool-cases (ltb (length front) 4)) [
      | inl t ↦ rw (read_frame, short_header front p (ltb→lt _ _ t)) (unfold torn_error in rw t)
      | inr f ↦
          let (mid, p, q) =
            split_front front back size _ e
              (omega (arith, length-le_bytes 4 (u32 n), ltb→le _ _ f)) in
          let len : length front ≡ 4 + length mid =
            omega (arith, ap length p, length-append size mid, length-le_bytes 4 (u32 n)) in
          rw (len, p)
            (rw (
              read_frame,
              read_full-append size mid (length-le_bytes 4 (u32 n)),
              of_le_bytes-u32 n fits,
              torn_body r mid back q h,
            ))
    ]

module _ {S : Type 0} (fn : Record → S → S × Option Error) where
  torn_end :
      (fuel : ℕ) (file : List ℕ) (e : Error)
      → read_frame file ≡ err e
      → replay_loop fn (suc fuel) file ≡ (λ s. (s, err e))
  unfolding replay_loop
  torn_end fuel file e h = fun_ext (λ s. rw (replay_loop, h))

  -- A log that ends inside a frame: the complete frames reach the callback in order, and unless the
  -- callback fails first, Replay ends with the truncation error for the part where the log stops.
  pub replay_torn :
      (rs : List Record) (r : Record) (front back : List ℕ) (s : S)
      → All IsRecord rs
      → IsRecord r
      → front ++ back ≡ frame r
      → 0 < length front
      → 0 < length back
      → replay fn (frames rs ++ front) s
        ≡ feed fn rs (λ s. (s, err (torn_error (length (record_bytes r)) (length front)))) s
  replay_torn rs r front back s h valid e p q =
      let (extra, room, run) = replay-frames_tail fn rs front s h in
      rw (run, torn_end extra front _ (torn_frame r front back valid e p q))
