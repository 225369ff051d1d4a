-- ===== src/Wal/Delivery.antt =====
-- What a replay hands to its handler.
use kevo.Base.{ℕ, zero, suc, ◌+◌, List, [], ◌∷◌, ◌++◌, ◌≡◌, refl, ap, arith, map, append_assoc}
use kevo.Base.{length}
use kevo.Base.Bytes.{Bytes}
use kevo.Wal.Types.{Entry, Result, ok, err}
use kevo.Wal.Exec.{Exec}
use kevo.Wal.Frames.{entry_frames}
use kevo.Wal.Parsing.{IsLoggable, read_back}
use kevo.Wal.Reading.{type_after, read_entry-frames}
use kevo.Wal.Reader.{Reader}
use kevo.Wal.Replay.{RecoveryStats, Outcome, Rounds, after_handler, replay_loop}

abbrev pub frames_of : List Entry → Bytes
frames_of [] = []
frames_of (e ∷ es) = entry_frames e ++ frames_of es

abbrev pub AllLoggable : List Entry → Type 0
AllLoggable [] = Unit {0}
AllLoggable (e ∷ es) = IsLoggable e × AllLoggable es

abbrev pub types_after : List Entry → ℕ → ℕ
types_after [] c = c
types_after (e ∷ es) c = types_after es (type_after e c)

module _ {S : Type 0} (handler : Entry → Exec S (Unit {0})) where
  abbrev pub Last : Type 0
  Last = RecoveryStats → S → Outcome handler

  abbrev pub resume : Last → Result (Unit {0}) → Last
  resume next (ok u) stats s =
      next (record stats { entries_processed = stats.entries_processed + 1 }) s
  resume next (err e) stats s = (err e, stats, s)

  -- The specification of a replay: the entries go to the handler in order, until it fails; `last`
  -- is what happens behind them.
  abbrev pub deliver : List Entry → Last → Last
  deliver [] last stats s = last stats s
  deliver (e ∷ es) last stats s = let (u, s') = handler e s in resume (deliver es last) u stats s'

  -- The end of a file that holds nothing but whole entries.
  abbrev pub clean_end : Last
  clean_end stats s = (ok tt, stats, s)

  after_handler-resume :
      (next : Rounds handler) (k : Last) (r : Reader)
      → ((stats : RecoveryStats) (s : S) → next r stats s ≡ k stats s)
      → (u : Result (Unit {0})) (stats : RecoveryStats) (s : S)
      → after_handler handler next u r stats s ≡ resume k u stats s
  after_handler-resume next k r h (ok u) stats s = h _ s
  after_handler-resume next k r h (err e) stats s = refl

  pub replay_loop-deliver :
      (es : List Entry) (n fuel : ℕ) (tail : Bytes) (c : ℕ) (stats : RecoveryStats) (s : S)
      → AllLoggable es
      → n ≡ length es + fuel
      → replay_loop handler n
          (record { input = frames_of es ++ tail; fragments = []; curr_type = c })
          stats
          s
        ≡ deliver
            (map read_back es)
            (replay_loop handler fuel
              (record { input = tail; fragments = []; curr_type = types_after es c }))
            stats
            s
  unfolding replay_loop
  replay_loop-deliver [] n fuel tail c stats s v h =
      ap
        (λ k.
          replay_loop handler k (record { input = tail; fragments = []; curr_type = c }) stats s)
        {x = n} {y = fuel} (omega arith)
  replay_loop-deliver (e ∷ es) zero fuel tail c stats s v h = absurd (omega arith)
  replay_loop-deliver (e ∷ es) (suc n) fuel tail c stats s v h =
      rw
        (
          append_assoc (entry_frames e) (frames_of es) tail,
          read_entry-frames e (frames_of es ++ tail) c v.0,
        )
        (after_handler-resume (replay_loop handler n)
          (deliver (map read_back es) (
            replay_loop handler fuel (record {
              input = tail;
              fragments = [];
              curr_type = types_after es (type_after e c);
            })))
          (record { input = frames_of es ++ tail; fragments = []; curr_type = type_after e c })
          (λ stats' s'.
            replay_loop-deliver es n fuel tail (type_after e c) stats' s' v.1 (omega arith))
          (handler (read_back e) s).0 stats (handler (read_back e) s).1)
