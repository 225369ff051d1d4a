-- ===== src/Wal/Tests.antt =====
-- Runs of the log on small inputs, and the theorems at them.
use kevo.Base.{List, [], ◌∷◌, ◌++◌, none, some, ◌≡◌, ◌≢◌, refl, arith, map}
use kevo.Base.{take}
use kevo.Wal.Types.{
  Entry, ok, err, closed, wal_closed, stuck, sync_none, op_type_put, op_type_delete, op_type_batch,
  record_type_full,
}
use kevo.Wal.Exec.{Exec}
use kevo.Wal.Device.{Wal}
use kevo.Wal.Batch.{
  Batch, size, operation_size, operations_size, encode_value, serialize, decode_batch,
}
use kevo.Wal.Codec.{AllEncodable, kept, decode-serialize}
use kevo.Wal.Write.{new_wal, header, encode_payload}
use kevo.Wal.Log.{
  append, append_with_sequence, append_exact_bytes, append_batch, append_batch_with_sequence, sync,
  close, write_batch,
}
use kevo.Wal.Frames.{frame, entry_frames}
use kevo.Wal.Appending.{IsReady}
use kevo.Wal.Parsing.{read_back}
use kevo.Wal.Replay.{no_stats, replay_file}
use kevo.Wal.Delivery.{deliver, clean_end}
use kevo.Wal.Durability.{Request, append_requests, entries_from, append_requests-replay}
use kevo.Wal.TornWrite.{torn_end, replay-torn}
use kevo.Wal.BatchLoss.{append_batch-lost}
use kevo.Wal.Batches.{batch_entry, write_batch-replay}
use kevo.Wal.Guards.{Refuses, not_open-Refuses, close-write_batch}
use kevo.Wal.Sanity.{IsSane-ok}
use kevo.Wal.Progress.{replay_file-ne-stuck}

-- A handler that keeps every entry.
abbrev collect : Entry → Exec (List Entry) (Unit {0})
collect e seen = (ok tt, seen ++ (e ∷ []))

abbrev empty_log : Wal
empty_log = new_wal sync_none 0 (record { stream = []; flushed = 0; synced = 0; faults = [] }) 1

empty_log-IsReady : IsReady empty_log
empty_log-IsReady = record { is_open = refl; sound = refl }

abbrev requests : List Request
requests =
    record { op = op_type_put; key = 107 ∷ []; value = some (118 ∷ 119 ∷ []) }
    ∷ record { op = op_type_delete; key = 107 ∷ []; value = none }
    ∷ []

append_requests-replay_example :
    ((append_requests requests empty_log).0 ≡ ok (1 ∷ 2 ∷ []))
    × (replay_file collect (append_requests requests empty_log).1.device.stream []
        ≡ deliver collect (map read_back (entries_from 1 requests)) (clean_end collect) no_stats [])
append_requests-replay_example =
    append_requests-replay collect [] requests empty_log [] empty_log-IsReady refl tt
      (
        record { op_known = refl; key_fits = omega arith; value_fits = omega arith },
        (record { op_known = refl; key_fits = omega arith; value_fits = omega arith }, tt),
      )
      (omega arith)

abbrev two_operations : Batch
two_operations = record {
  operations =
      record { op = op_type_put; key = 97 ∷ []; value = none }
      ∷ record { op = op_type_delete; key = 98 ∷ []; value = none }
      ∷ [];
  seq = 0;
}

two_operations-AllEncodable : AllEncodable two_operations.operations
two_operations-AllEncodable = (
  record { op_known = refl; key_fits = omega arith; value_fits = omega arith },
  (record { op_known = refl; key_fits = omega arith; value_fits = omega arith }, tt),
)

decode-serialize_example :
    decode_batch (record {
      sequence_number = 5;
      op = op_type_batch;
      key = serialize two_operations;
      value = none;
    })
    ≡ ok (record two_operations { operations = map kept two_operations.operations })
decode-serialize_example =
    decode-serialize two_operations 5 none two_operations-AllEncodable (omega arith) (omega arith)

write_batch-replay_example :
    ((write_batch two_operations empty_log).0 ≡ ok (record two_operations { seq = 1 }))
    × (replay_file collect (write_batch two_operations empty_log).1.device.stream []
        ≡ deliver collect
            (map read_back (batch_entry two_operations 1 ∷ []))
            (clean_end collect)
            no_stats
            [])
    × (decode_batch (read_back (batch_entry two_operations 1))
        ≡ ok (record { operations = map kept two_operations.operations; seq = 1 }))
write_batch-replay_example =
    write_batch-replay collect [] two_operations empty_log [] empty_log-IsReady refl refl tt
      two_operations-AllEncodable (omega arith) (omega arith)
      (unfold size operations_size operation_size in omega arith) (omega arith)

-- A put that was cut off behind its header and two bytes of its payload.
replay-torn_example :
    replay_file collect
      (take 9 (frame record_type_full (encode_payload op_type_put 1 (107 ∷ []) none)))
      []
    ≡ deliver collect [] (torn_end collect) no_stats []
replay-torn_example =
    replay-torn collect [] record_type_full (encode_payload op_type_put 1 (107 ∷ []) none) 9 [] tt
      refl (unfold encode_payload encode_value in omega arith) (omega arith)
      (unfold encode_payload encode_value header in omega arith) (omega arith)

abbrev batch_of_one : Entry
batch_of_one = record {
  sequence_number = 0;
  op = op_type_put;
  key = 107 ∷ [];
  value = some (118 ∷ []);
}

append_batch-lost_example :
    ((append_batch (batch_of_one ∷ []) empty_log).0 ≡ ok 1)
    × (replay_file collect (append_batch (batch_of_one ∷ []) empty_log).1.device.stream []
        ≡ (ok tt, record { entries_processed = 0; entries_skipped = 1 }, []))
append_batch-lost_example =
    append_batch-lost collect [] batch_of_one [] empty_log [] empty_log-IsReady refl tt
      (omega arith, tt) (omega arith) (unfold encode_payload encode_value header in omega arith)

abbrev closed_empty : Wal
closed_empty = record empty_log { status = closed }

not_open-Refuses_example :
    Refuses closed_empty (append op_type_put [] none)
    × Refuses closed_empty (append_with_sequence op_type_put [] none 7)
    × Refuses closed_empty (append_exact_bytes [] 7)
    × Refuses closed_empty (append_batch (batch_of_one ∷ []))
    × Refuses closed_empty (append_batch_with_sequence (batch_of_one ∷ []) 7)
    × Refuses closed_empty sync
not_open-Refuses_example =
    not_open-Refuses closed_empty op_type_put 7 [] [] none (batch_of_one ∷ []) (λ p. cc)

close-write_batch_example :
    ((close empty_log).0 ≡ ok tt)
    × ((close empty_log).1.status ≡ closed)
    × ((close empty_log).1.device.synced ≡ 0)
    × (append op_type_put [] none (close empty_log).1 ≡ (err wal_closed, (close empty_log).1))
    × ((write_batch two_operations (close empty_log).1).0 ≡ ok (record two_operations { seq = 1 }))
    × ((write_batch two_operations (close empty_log).1).1.device.stream
        ≡ entry_frames (batch_entry two_operations 1))
close-write_batch_example =
    close-write_batch empty_log two_operations op_type_put [] none empty_log-IsReady refl refl
      (omega arith) (unfold size operations_size operation_size in omega arith)

replay_file-ne-stuck_example : (replay_file collect (1 ∷ 2 ∷ 3 ∷ []) []).0 ≢ err stuck
replay_file-ne-stuck_example =
    replay_file-ne-stuck collect (λ e s. IsSane-ok tt) (1 ∷ 2 ∷ 3 ∷ []) []
