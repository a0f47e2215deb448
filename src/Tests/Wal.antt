-- ===== src/Tests/Wal.antt =====
-- The write-ahead log, with a callback that collects the records.
use ascent_db.Prelude.{
  ℕ, ◌<◌, ◌≡◌, ◌≢◌, arith, List, [], ◌∷◌, ◌++◌, length, take, drop, Error, take-append-drop, Option,
  none, ok, err, panic,
}
use ascent_db.Record.{Record}
use ascent_db.Bytes.Word.{le_bytes}
use ascent_db.Record.Encode.{record_bytes}
use ascent_db.Wal.Encode.{encode_records, frame, frames}
use ascent_db.Wal.Replay.{replay, replay-ne-panic}
use ascent_db.Wal.RoundTrip.{feed, replay-encode_records}
use ascent_db.Wal.Torn.{torn_error, replay_torn}
use ascent_db.Tests.Data.{put_ab, del_c, put_ab-IsRecord, del_c-IsRecord}

abbrev collect : Record → List Record → List Record × Option Error
collect r s = (s ++ (r ∷ []), none)

replay-encode_records_example :
    (log : List ℕ) × (encode_records (put_ab ∷ del_c ∷ []) ≡ ok log)
    × ((s : List Record)
        → replay collect log s ≡ feed collect (put_ab ∷ del_c ∷ []) (λ s. (s, ok tt)) s)
replay-encode_records_example =
    replay-encode_records collect (put_ab ∷ del_c ∷ []) (put_ab-IsRecord, (del_c-IsRecord, tt))

replay-ne-panic_example : (replay collect (9 ∷ 0 ∷ 0 ∷ 0 ∷ 1 ∷ []) []).1 ≢ panic
replay-ne-panic_example = replay-ne-panic collect (9 ∷ 0 ∷ 0 ∷ 0 ∷ 1 ∷ []) []

-- The first ten bytes of the second frame are there.
cut : take 10 (frame del_c) ++ drop 10 (frame del_c) ≡ frame del_c
cut = take-append-drop 10 (frame del_c)

cut_lengths : (0 < length (take 10 (frame del_c))) × (0 < length (drop 10 (frame del_c)))
unfolding frame record_bytes le_bytes
cut_lengths = omega arith

replay_torn_example :
    replay collect (frames (put_ab ∷ []) ++ take 10 (frame del_c)) []
    ≡ feed collect
        (put_ab ∷ [])
        (λ s. (s, err (torn_error (length (record_bytes del_c)) (length (take 10 (frame del_c))))))
        []
replay_torn_example =
    replay_torn collect (put_ab ∷ []) del_c (take 10 (frame del_c)) (drop 10 (frame del_c)) []
      (put_ab-IsRecord, tt) del_c-IsRecord cut cut_lengths.0 cut_lengths.1
