-- ===== src/Wal/Keeping.antt =====
-- The steps of the reader that only read on, and do not run out of fuel.
use kevo.Base.{ℕ, ◌≤◌, arith, Bool, true, false}
use kevo.Base.{length, length-drop, if◌then◌else◌}
use kevo.Base.Bytes.{Bytes}
use kevo.Wal.Types.{Entry, Result, ok, err, corrupt_record}
use kevo.Wal.Exec.{Exec, lift, continue, ◌>>=◌}
use kevo.Wal.Reader.{
  Reader, read_full, read_payload, handle_record, process_fragments, add_fragment, need_fragments,
}
use kevo.Wal.Sanity.{IsSane, IsSane-ok, IsSane-require, sane_rules, corrupt_ne, parse_entry-IsSane}

-- A method that reads on in the input, and does not run out of fuel on `n` bytes or fewer.
pub record Keeps {A : Type 0} (n : ℕ) (m : Exec Reader A) : Type 0 where
  pub ends : (r : Reader) → length r.input ≤ n → IsSane (m r).0
  pub le : (r : Reader) → length r.input ≤ n → length (m r).1.input ≤ n

module _ {A : Type 0} (n : ℕ) where
  Keeps-lift : (r : Result A) → IsSane r → Keeps n (lift r)
  Keeps-lift r h = record { ends = λ s k. h; le = λ s k. k }

  Keeps-if : (b : Bool) (m k : Exec Reader A) → Keeps n m → Keeps n k → Keeps n (if b then m else k)
  Keeps-if true m k h i = h
  Keeps-if false m k h i = i

module _ {A B : Type 0} (n : ℕ) where
  Keeps-continue :
      (p : Result A) (r : Reader) (f : A → Exec Reader B)
      → IsSane p
      → length r.input ≤ n
      → ((a : A) → Keeps n (f a))
      → IsSane (continue p f r).0 × (length (continue p f r).1.input ≤ n)
  Keeps-continue (ok a) r f h k g = ((g a).ends r k, (g a).le r k)
  Keeps-continue (err e) r f h k g = (record { sane = λ p. h.sane cc }, k)

  Keeps-bind :
      (m : Exec Reader A) (f : A → Exec Reader B)
      → Keeps n m
      → ((a : A) → Keeps n (f a))
      → Keeps n (m >>= f)
  Keeps-bind m f h g = record {
    ends = λ r k. (Keeps-continue (m r).0 (m r).1 f (h.ends r k) (h.le r k) g).0;
    le = λ r k. (Keeps-continue (m r).0 (m r).1 f (h.ends r k) (h.le r k) g).1;
  }

Keeps-read_full : (n k : ℕ) → Keeps n (read_full k)
unfolding read_full
Keeps-read_full n k = record {
  ends = λ r h. record { sane = λ p. ground arith };
  le = λ r h. ground (arith, length-drop k r.input);
}

Keeps-add_fragment : (n : ℕ) (payload : Bytes) → Keeps n (add_fragment payload)
Keeps-add_fragment n payload = record { ends = λ r h. IsSane-ok tt; le = λ r h. h }

Keeps-need_fragments : (n : ℕ) → Keeps n need_fragments
Keeps-need_fragments n = record {
  ends = λ r h. IsSane-require _ corrupt_record corrupt_ne;
  le = λ r h. h;
}

Keeps-process_fragments : (n : ℕ) → Keeps n process_fragments
unfolding process_fragments
Keeps-process_fragments n = record { ends = λ r h. parse_entry-IsSane _; le = λ r h. h }

-- A step that touches the remembered type alone, or nothing.
Keeps-set_type : (n t : ℕ) → Keeps {A = Unit {0}} n (λ r. (ok tt, record r { curr_type = t }))
Keeps-set_type n t = record { ends = λ r h. IsSane-ok tt; le = λ r h. h }

Keeps-pure : {A : Type 0} (n : ℕ) (a : A) → Keeps n (λ r. (ok a, r))
Keeps-pure n a = record { ends = λ r h. IsSane-ok a; le = λ r h. h }

ruleset keeps_rules = (
  sane_rules, parse_entry-IsSane, Keeps-lift, Keeps-if, Keeps-bind, Keeps-read_full,
  Keeps-add_fragment, Keeps-need_fragments, Keeps-process_fragments, Keeps-set_type, Keeps-pure,
)

pub read_payload-Keeps : (n : ℕ) (header : Bytes) → Keeps n (read_payload header)
unfolding read_payload
read_payload-Keeps n header = search keeps_rules depth 12

pub handle_record-Keeps :
    (n : ℕ) (next : Exec Reader Entry) (p : ℕ × Bytes)
    → Keeps n next
    → Keeps n (handle_record next p)
unfolding handle_record
handle_record-Keeps n next (t, payload) h = search keeps_rules depth 12
