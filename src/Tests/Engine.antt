-- ===== src/Tests/Engine.antt =====
-- Snapshots, options and batches.
use ascent_db.Prelude.{refl, ℕ, ◌≡◌, List, [], ◌∷◌, length, Bool, true, ok, ◌==◌}
use ascent_db.Engine.Snapshots.{
  Call, open_at, release, run, add, remove, oldest, sort, sort_in, oldest-run, IsOldest, open_count,
}
use ascent_db.Config.{Options, sync_batch}
use ascent_db.Batch.{Batch, batch_size, batch_size-encode_records}
use ascent_db.Wal.Encode.{encode_records}
use ascent_db.Tests.Data.{put_ab, del_c, put_ab-IsRecord, del_c-IsRecord}

abbrev calls : List Call
calls = open_at 7 ∷ open_at 3 ∷ open_at 7 ∷ release 7 ∷ []

run_calls : run calls [] ≡ 3 ∷ 7 ∷ []
unfolding run add remove sort sort_in
run_calls = refl

oldest-run_example : IsOldest (λ n. open_count n calls 0) (oldest (run calls []))
oldest-run_example = oldest-run calls

-- Floats stand in as numbers here.
abbrev options : Options ℕ
options = record {
  data_dir = [];
  crash_recovery = true;
  memtable_size = 4096;
  block_size = 512;
  filter_expected_keys = 0;
  filter_fp_rate = 0;
  block_cache_size = 0;
  max_l0_files = 8;
  max_bytes_base = 0;
  level_multiplier = 0;
  max_sstable_size = 0;
  num_levels = 0;
  skiplist_max_level = 0;
  skiplist_p = 0;
  mode = sync_batch;
  interval = 0;
}

abbrev is_zero : ℕ → Bool
is_zero x = x == 0

abbrev batch : Batch
batch = record { recs = put_ab ∷ del_c ∷ [] }

batch_size-encode_records_example :
    (log : List ℕ) × (encode_records (put_ab ∷ del_c ∷ []) ≡ ok log)
    × (batch_size batch ≡ length log)
batch_size-encode_records_example =
    batch_size-encode_records batch (put_ab-IsRecord, (del_c-IsRecord, tt))
