-- ===== src/Wal/RoundTrip.antt =====
-- Replay of what encodeRecords wrote, and of a log whose last write was cut off.
use ascent_db.Prelude.{
  ℕ, suc, ◌+◌, ◌-◌, ◌≤◌, ◌<◌, ◌^◌, ◌≡◌, refl, arith, List, [], ◌∷◌, ◌++◌, length, length-append,
  All, append_assoc, append-nil, take-append, drop-append, Option, none, some, Result, ok, err,
  Error, le→leb, ==_iff, fun_ext, Option-cases, inl, inr,
}
use ascent_db.Bytes.Word.{u32, le_bytes, length-le_bytes, of_le_bytes-u32}
use ascent_db.Bytes.Checksum.{checksum, checksum-lt}
use ascent_db.Record.{Record, IsRecord}
use ascent_db.Record.Encode.{record_bytes, length-record_bytes}
use ascent_db.Record.Decode.{decode_record}
use ascent_db.Record.RoundTrip.{decode_record-record_bytes}
use ascent_db.Wal.Encode.{encode_records, encode_records-frames, frame, frames, length-frame}
use ascent_db.Wal.Replay.{read_full, read_body, read_frame, replay_loop, replay}

pub read_full-append : (a b : List ℕ) {n : ℕ} → length a ≡ n → read_full n (a ++ b) ≡ ok (a, b)
unfolding read_full
read_full-append a b e =
    rw (← e, read_full, le→leb (length a) (length (a ++ b)) (omega (arith, length-append a b)))
      (rw (take-append a b, drop-append a b))

read_body-record :
    (r : Record) (rest : List ℕ)
    → IsRecord r
    → read_body
        (length (record_bytes r))
        (record_bytes r ++ (le_bytes 4 (u32 (checksum (record_bytes r))) ++ rest))
      ≡ ok (r, rest)
unfolding read_body
read_body-record r rest h =
    let body = record_bytes r in
    let crc = le_bytes 4 (u32 (checksum body)) in
    let decoded : decode_record body ≡ ok r =
      rw append-nil at (decode_record-record_bytes r [] h) in
    rw (
      read_full-append body (crc ++ rest) refl,
      read_full-append crc rest (length-le_bytes 4 (u32 (checksum body))),
      of_le_bytes-u32 (checksum body) (checksum-lt body),
      (==_iff (checksum body) (checksum body)).1 refl,
      decoded,
    )

-- One round of the loop at the start of a frame.
pub read_frame-frame :
    (r : Record) (rest : List ℕ) → IsRecord r → read_frame (frame r ++ rest) ≡ ok (some (r, rest))
unfolding frame read_frame
read_frame-frame r rest h =
    let n = length (record_bytes r) in
    let fits : n < 2 ^ 32 = omega (arith, length-record_bytes r, h.size_fits) in
    let crc = le_bytes 4 (u32 (checksum (record_bytes r))) in
    rw
      (
        append_assoc (le_bytes 4 (u32 n)) (record_bytes r ++ crc) rest,
        append_assoc (record_bytes r) crc rest,
      )
      (rw (
        read_frame,
        read_full-append (le_bytes 4 (u32 n)) (record_bytes r ++ (crc ++ rest))
            (length-le_bytes 4 (u32 n)),
        of_le_bytes-u32 n fits,
        read_body-record r rest h,
      ))

read_frame-nil : read_frame [] ≡ ok none
unfolding read_frame read_full
read_frame-nil = refl

module _ {S : Type 0} (fn : Record → S → S × Option Error) where
  -- The callback on each record in turn, up to the first error; then `next`.
  unfoldable pub feed : List Record → (S → S × Result (Unit {0})) → S → S × Result (Unit {0})
  feed [] next s = next s
  feed (r ∷ rs) next s = elim (fn r s).1 [
    | some x ↦ ((fn r s).0, err x)
    | none ↦ feed rs next (fn r s).0
  ]

  pub replay_loop-frames :
      (rs : List Record) (fuel : ℕ) (tail : List ℕ) (s : S)
      → All IsRecord rs
      → replay_loop fn (length rs + fuel) (frames rs ++ tail) s
        ≡ feed rs (replay_loop fn fuel tail) s
  unfolding feed frames replay_loop
  replay_loop-frames [] fuel tail s h = rw (Prim.Native.Nat.add.zero fuel)
  replay_loop-frames (r ∷ rs) fuel tail s (hr, hrs) =
      rw
        (
          Prim.Native.Nat.add.suc (length rs) fuel,
          append_assoc (frame r) (frames rs) tail,
          replay_loop,
          read_frame-frame r (frames rs ++ tail) hr,
        )
        (elim (Option-cases (fn r s).1) [
          | inl e ↦ rw (e, feed) (replay_loop-frames rs fuel tail (fn r s).0 hrs)
          | inr (x, e) ↦ rw (e, feed)
        ])

  length-frames-le : (rs : List Record) → length rs ≤ length (frames rs)
  unfolding frames
  length-frames-le [] = omega arith
  length-frames-le (r ∷ rs) =
      omega (arith, length-append (frame r) (frames rs), length-frame r, length-frames-le rs)

  -- Replay of frames with a tail behind them, with fuel to spare for the tail.
  pub replay-frames_tail :
      (rs : List Record) (tail : List ℕ) (s : S)
      → All IsRecord rs
      → (extra : ℕ) × (length tail ≤ extra)
        × (replay fn (frames rs ++ tail) s ≡ feed rs (replay_loop fn (suc extra) tail) s)
  unfolding replay
  replay-frames_tail rs tail s h =
      let extra = length (frames rs) + length tail - length rs in
      let all : suc (length (frames rs ++ tail)) ≡ length rs + suc extra =
        omega (arith, length-append (frames rs) tail, length-frames-le rs) in
      (
        extra,
        omega (arith, length-frames-le rs),
        rw all (replay_loop-frames rs (suc extra) tail s h),
      )

  at_end : (fuel : ℕ) → replay_loop fn (suc fuel) [] ≡ (λ s. (s, ok tt))
  unfolding replay_loop
  at_end fuel = fun_ext (λ s. rw (replay_loop, read_frame-nil))

  -- encodeRecords succeeds on records in range, and replaying what it wrote hands exactly those
  -- records to the callback, in order, up to its first error, and ends with that error or with
  -- success.
  pub replay-encode_records :
      (rs : List Record)
      → All IsRecord rs
      → (log : List ℕ) × (encode_records rs ≡ ok log)
        × ((s : S) → replay fn log s ≡ feed rs (λ s. (s, ok tt)) s)
  replay-encode_records rs h =
      (frames rs, encode_records-frames rs h, λ s. rw (append-nil, at_end) at (run s))
    where
      run :
          (s : S)
          → (let t = replay_loop fn (suc (replay-frames_tail rs [] s h).0) [] in
              replay fn (frames rs ++ []) s ≡ feed rs t s)
      run s = (replay-frames_tail rs [] s h).2
