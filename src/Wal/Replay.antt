-- ===== src/Wal/Replay.antt =====
-- Replay, over the bytes of the file that are still to be read.
use ascent_db.Prelude.{
  ℕ, zero, suc, ◌≤◌, ◌<◌, ◌≡◌, ◌≢◌, refl, arith, List, length, take, drop, Option, none, some, not,
  ◌==◌, leb, if◌then◌else◌, Result, ok, err, panic, ◌>>=◌, ◌>>◌, reject, Error, ◌⊎◌, read_eof,
  read_unexpected_eof, wal_truncated_header, wal_truncated_payload, wal_truncated_checksum,
  wal_corrupt_record, length-drop, inl, inr,
}
use ascent_db.Bytes.Word.{of_le_bytes}
use ascent_db.Bytes.Checksum.{checksum}
use ascent_db.Record.{Record}
use ascent_db.Record.Decode.{decode_record, decode_record-ne-panic}

-- io.ReadFull into a buffer of `n` bytes: the bytes, and what is left of the file.
unfoldable pub read_full : ℕ → List ℕ → Result (List ℕ × List ℕ)
read_full n file =
    if leb n (length file)
    then ok (take n file, drop n file)
    else if length file == 0
    then err read_eof
    else err read_unexpected_eof

-- `if err == io.EOF || err == io.ErrUnexpectedEOF { return e }`
abbrev pub on_short {ℓ} : {A : Type ℓ} → Error → Result A → Result A
on_short e (ok a) = ok a
on_short e (err read_eof) = err e
on_short e (err read_unexpected_eof) = err e
on_short e (err other) = err other
on_short e panic = panic

-- The rest of a frame, once its size is known.
unfoldable pub read_body : ℕ → List ℕ → Result (Record × List ℕ)
read_body n file = do
  (body, file) ← on_short wal_truncated_payload (read_full n file)
  (sum, file) ← on_short wal_truncated_checksum (read_full 4 file)
  reject (not (checksum body == of_le_bytes sum)) wal_corrupt_record
  r ← decode_record body
  ok (r, file)

-- One round of the loop: `none` at the end of the file.
unfoldable pub read_frame : List ℕ → Result (Option (Record × List ℕ))
read_frame file = elim (read_full 4 file) [
  | ok (header, rest) ↦ do (r, rest) ← read_body (of_le_bytes header) rest; ok (some (r, rest))
  | err read_eof ↦ ok none
  | err read_unexpected_eof ↦ err wal_truncated_header
  | err other ↦ err other
  | panic ↦ panic
]

-- The callback changes a state, also when it reports an error.
module _ {S : Type 0} (fn : Record → S → S × Option Error) where
  -- `zero` fuel is no state of the source; `replay-ne-panic` shows that it is not reached.
  unfoldable pub replay_loop : ℕ → List ℕ → S → S × Result (Unit {0})
  replay_loop zero file s = (s, panic)
  replay_loop (suc fuel) file s = elim (read_frame file) [
    | ok none ↦ (s, ok tt)
    | ok (some (r, rest)) ↦ elim (fn r s).1 [
      | some x ↦ ((fn r s).0, err x)
      | none ↦ replay_loop fuel rest (fn r s).0
    ]
    | err x ↦ (s, err x)
    | panic ↦ (s, panic)
  ]

  -- Each round reads four bytes at least, so this fuel is enough.
  unfoldable pub replay : List ℕ → S → S × Result (Unit {0})
  unfolding replay_loop
  replay file s = replay_loop (suc (length file)) file s

read_body-shorter :
    (n : ℕ) (file rest : List ℕ) (r : Record)
    → read_body n file ≡ ok (r, rest)
    → length rest ≤ length file
unfolding read_body read_full
read_body-shorter n file rest r h = ground (arith, length-drop n file, length-drop 4 (drop n file))

read_body-ne-panic : (n : ℕ) (file : List ℕ) → read_body n file ≢ panic
unfolding read_body read_full
read_body-ne-panic n file = ground (arith, decode_record-ne-panic (take n file))

-- A frame that was read has taken bytes.
read_frame-shorter :
    (file rest : List ℕ) (r : Record)
    → read_frame file ≡ ok (some (r, rest))
    → length rest < length file
unfolding read_frame read_full
read_frame-shorter file rest r h =
    ground (
      arith,
      length-drop 4 file,
      read_body-shorter (of_le_bytes (take 4 file)) (drop 4 file) rest r,
    )

read_frame-ne-panic : (file : List ℕ) → read_frame file ≢ panic
unfolding read_frame read_full
read_frame-ne-panic file =
    ground (arith, read_body-ne-panic (of_le_bytes (take 4 file)) (drop 4 file))

Frame-cases :
    (m : Result (Option (Record × List ℕ)))
    → m ≢ panic
    → (m ≡ ok none) ⊎ ((p : Record × List ℕ) × (m ≡ ok (some p))) ⊎ ((e : Error) × (m ≡ err e))
Frame-cases (ok none) h = inl refl
Frame-cases (ok (some p)) h = inr (inl (p, refl))
Frame-cases (err e) h = inr (inr (e, refl))
Frame-cases panic h = absurd (h refl)

module _ {S : Type 0} (fn : Record → S → S × Option Error) where
  replay_loop-ne-panic :
      (fuel : ℕ) (file : List ℕ) (s : S)
      → length file < fuel
      → (replay_loop fn fuel file s).1 ≢ panic
  unfolding replay_loop
  replay_loop-ne-panic zero file s h = absurd (omega arith)
  replay_loop-ne-panic (suc fuel) file s h =
      elim (Frame-cases (read_frame file) (read_frame-ne-panic file)) [
        | inl e ↦ rw (e, replay_loop) (λ q. cc)
        | inr (inl ((r, rest), e)) ↦
            let shorter : length rest < fuel = omega (arith, read_frame-shorter file rest r e) in
            let later = replay_loop-ne-panic fuel rest (fn r s).0 shorter in
            rw (e, replay_loop) (ground (arith, later))
        | inr (inr (x, e)) ↦ rw (e, replay_loop) (λ q. cc)
      ]

  -- On any file, whatever it holds, Replay comes to an end: with success or with an error.
  pub replay-ne-panic : (file : List ℕ) (s : S) → (replay fn file s).1 ≢ panic
  unfolding replay
  replay-ne-panic file s = replay_loop-ne-panic (suc (length file)) file s (omega arith)
