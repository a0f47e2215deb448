-- ===== src/Engine/Recover.antt =====
-- recover: the records of a log that was left behind go into the memtable again.
use ascent_db.Prelude.{
  ℕ, ◌≡◌, ◌∙◌, refl, sym, ap, List, [], ◌∷◌, All, Bool, ltb, if◌then◌else◌, Option, none, some,
  Error, Result, ok, err, panic, corrupt_record, ◌>>=◌,
}
use ascent_db.Record.{Record, IsRecord}
use ascent_db.Wal.Encode.{encode_records}
use ascent_db.Wal.Replay.{replay}
use ascent_db.Wal.RoundTrip.{feed, replay-encode_records}
use ascent_db.Engine.{Engine}
use ascent_db.Engine.Write.{put_and_rotate, put_batch}

-- The engine and `maxSeq`; a panic of the callback ends the replay.
abbrev pub Recovering : Type 0
Recovering = Result (Engine × ℕ)

unfoldable pub recovered : ℕ → ℕ → Result Engine → Engine → Recovering × Option Error
recovered seq max_seq (ok e') e = (ok (e', if ltb max_seq seq then seq else max_seq), none)
recovered seq max_seq (err x) e = (ok (e, max_seq), some x)
recovered seq max_seq panic e = (panic, some corrupt_record)

unfoldable pub recovery_write : (ℕ → List Bool) → Record → Recovering → Recovering × Option Error
recovery_write coins r (ok (e, max_seq)) =
    recovered r.seq_num max_seq (put_and_rotate r (coins r.seq_num) e) e
recovery_write coins r (err x) = (err x, some x)
recovery_write coins r panic = (panic, some corrupt_record)

-- `if maxSeq > e.seqNum.Load() { e.seqNum.Store(maxSeq) }`
unfoldable pub store_max : Engine → ℕ → Engine
store_max e max_seq = if ltb e.seq_num max_seq then record e { seq_num = max_seq } else e

unfoldable pub after_replay : Recovering × Result (Unit {0}) → Result Engine
after_replay (ok (e, max_seq), ok u) = ok (store_max e max_seq)
after_replay (ok (e, max_seq), err x) = err x
after_replay (ok (e, max_seq), panic) = panic
after_replay (err x, outcome) = err x
after_replay (panic, outcome) = panic

-- One log.
unfoldable pub recover_log : (ℕ → List Bool) → List ℕ → Engine → Result Engine
recover_log coins log e = after_replay (replay (recovery_write coins) log (ok (e, 0)))

unfoldable pub recover : (ℕ → List Bool) → List (List ℕ) → Engine → Result Engine
recover coins [] e = ok e
recover coins (log ∷ logs) e = do e ← recover_log coins log e; recover coins logs e

unfoldable pub max_of : ℕ → List Record → ℕ
max_of max_seq [] = max_seq
max_of max_seq (r ∷ rs) = max_of (if ltb max_seq r.seq_num then r.seq_num else max_seq) rs

-- One record of the replay.
feed-none :
    {S : Type 0} (fn : Record → S → S × Option Error) (r : Record) (rs : List Record)
    (next : S → S × Result (Unit {0})) (s s' : S)
    → fn r s ≡ (s', none)
    → feed fn (r ∷ rs) next s ≡ feed fn rs next s'
unfolding feed
feed-none fn r rs next s s' e =
    let quiet : (fn r s).1 ≡ none = ap (λ p. p.1) e in
    rw (quiet, feed) (ap (feed fn rs next) (ap (λ p. p.0) e))

feed-some :
    {S : Type 0} (fn : Record → S → S × Option Error) (r : Record) (rs : List Record)
    (next : S → S × Result (Unit {0})) (s s' : S) (x : Error)
    → fn r s ≡ (s', some x)
    → feed fn (r ∷ rs) next s ≡ (s', err x)
unfolding feed
feed-some fn r rs next s s' x e =
    let loud : (fn r s).1 ≡ some x = ap (λ p. p.1) e in rw (loud, feed) (ap (λ p. (p.0, err x)) e)

abbrev finish : Recovering → Recovering × Result (Unit {0})
finish s = (s, ok tt)

-- What the callback does, by what the write does.
recovery_write-put :
    (coins : ℕ → List Bool) (r : Record) (e : Engine) (max_seq : ℕ) (v : Result Engine)
    → put_and_rotate r (coins r.seq_num) e ≡ v
    → recovery_write coins r (ok (e, max_seq)) ≡ recovered r.seq_num max_seq v e
unfolding recovery_write
recovery_write-put coins r e max_seq v q = ap (λ v. recovered r.seq_num max_seq v e) q

put_batch-put :
    (coins : ℕ → List Bool) (r : Record) (rs : List Record) (e : Engine) (v : Result Engine)
    → put_and_rotate r (coins r.seq_num) e ≡ v
    → put_batch coins (r ∷ rs) e ≡ (v >>= put_batch coins rs)
unfolding put_batch
put_batch-put coins r rs e v q = ap (λ v. v >>= put_batch coins rs) q

feed-put_batch :
    (coins : ℕ → List Bool) (rs : List Record) (e : Engine) (max_seq : ℕ)
    → after_replay (feed (recovery_write coins) rs finish (ok (e, max_seq)))
      ≡ (put_batch coins rs e >>= λ e'. ok (store_max e' (max_of max_seq rs)))
unfolding put_batch max_of
feed-put_batch coins [] e max_seq = unfold feed after_replay in refl
feed-put_batch coins (r ∷ rs) e max_seq =
    go (λ e' m. feed-put_batch coins rs e' m) (put_and_rotate r (coins r.seq_num) e) refl
  where
    go :
        ((e' : Engine) (m : ℕ)
          → after_replay (feed (recovery_write coins) rs finish (ok (e', m)))
            ≡ (put_batch coins rs e' >>= λ e2. ok (store_max e2 (max_of m rs))))
        → (v : Result Engine) → put_and_rotate r (coins r.seq_num) e ≡ v
        → after_replay (feed (recovery_write coins) (r ∷ rs) finish (ok (e, max_seq)))
          ≡ (put_batch coins (r ∷ rs) e >>= λ e'. ok (store_max e' (max_of max_seq (r ∷ rs))))
    go later (ok e') q =
        let larger : ℕ = if ltb max_seq r.seq_num then r.seq_num else max_seq in
        ap after_replay (
          feed-none (recovery_write coins) r rs finish (ok (e, max_seq)) (ok (e', larger))
            (recovery_write-put coins r e max_seq (ok e') q ∙ unfold recovered in refl))
        ∙ later e' larger
        ∙ ap (λ v. v >>= λ e'. ok (store_max e' (max_of larger rs)))
            (sym (put_batch-put coins r rs e (ok e') q))
    go later (err x) q =
        ap after_replay (
          feed-some (recovery_write coins) r rs finish (ok (e, max_seq)) (ok (e, max_seq)) x
            (recovery_write-put coins r e max_seq (err x) q ∙ unfold recovered in refl))
        ∙ unfold after_replay in
          ap (λ v. v >>= λ e'. ok (store_max e' (max_of max_seq (r ∷ rs))))
            (sym (put_batch-put coins r rs e (err x) q))
    go later panic q =
        ap after_replay (
          feed-some (recovery_write coins) r rs finish (ok (e, max_seq)) panic corrupt_record
            (recovery_write-put coins r e max_seq panic q ∙ unfold recovered in refl))
        ∙ unfold after_replay in
          ap (λ v. v >>= λ e'. ok (store_max e' (max_of max_seq (r ∷ rs))))
            (sym (put_batch-put coins r rs e panic q))

pub recover_log-put_batch :
    (coins : ℕ → List Bool) (rs : List Record) (e : Engine)
    → All IsRecord rs
    → (log : List ℕ) × (encode_records rs ≡ ok log)
      × (recover_log coins log e ≡ (put_batch coins rs e >>= λ e'. ok (store_max e' (max_of 0 rs))))
unfolding recover_log
recover_log-put_batch coins rs e valid =
    let (log, q, replayed) = replay-encode_records (recovery_write coins) rs valid in
    (log, q, ap after_replay (replayed (ok (e, 0))) ∙ feed-put_batch coins rs e 0)
