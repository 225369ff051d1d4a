-- ===== src/Wal/Sanity.antt =====
-- No parsing step runs out of fuel.
use kevo.Base.{ℕ, ◌≡◌, ◌≢◌, arith, Bool, true, false}
use kevo.Base.{if◌then◌else◌}
use kevo.Base.Bytes.{Bytes}
use kevo.Wal.Types.{
  Entry, Error, Result, ok, err, stuck, eof, require, index, corrupt_record, invalid_record_type,
  invalid_op_type, record_type_full, record_type_last,
}
use kevo.Wal.Types
use kevo.Wal.Batch.{decode_value}
use kevo.Wal.Parse.{parse_entry}

-- A result that no loop without fuel has given.
pub record IsSane {A : Type 0} (r : Result A) : Type 0 where
  pub sane : r ≢ err stuck

module _ {A : Type 0} where
  pub IsSane-ok : (a : A) → IsSane (ok a)
  IsSane-ok a = record { sane = λ e. cc }

  pub IsSane-err : (e : Error) → e ≢ stuck → IsSane {A = A} (err e)
  IsSane-err e h = record { sane = λ p. h (stuck_of e p) }
    where
      stuck_of : (e : Error) → ◌≡◌ {A = Result A} (err e) (err stuck) → e ≡ stuck
      stuck_of e p = cc

  pub IsSane-if : (b : Bool) (r s : Result A) → IsSane r → IsSane s → IsSane (if b then r else s)
  IsSane-if true r s h k = h
  IsSane-if false r s h k = k

module _ {A B : Type 0} where
  pub IsSane-bind :
      (r : Result A) (f : A → Result B)
      → IsSane r
      → ((a : A) → IsSane (f a))
      → IsSane (Types.◌>>=◌ r f)
  IsSane-bind (ok a) f h k = k a
  IsSane-bind (err e) f h k = record { sane = λ p. h.sane cc }

pub IsSane-require : (b : Bool) (e : Error) → e ≢ stuck → IsSane (require b e)
IsSane-require true e h = IsSane-ok tt
IsSane-require false e h = IsSane-err e h

pub IsSane-index : (bytes : Bytes) (i : ℕ) → IsSane (index bytes i)
IsSane-index bytes i = record { sane = λ p. ground arith }

pub corrupt_ne : corrupt_record ≢ stuck
corrupt_ne p = cc

pub op_ne : invalid_op_type ≢ stuck
op_ne p = cc

pub type_ne : invalid_record_type ≢ stuck
type_ne p = cc

pub ruleset sane_rules = (
  IsSane-ok, IsSane-err, IsSane-if, IsSane-bind, IsSane-require, IsSane-index, corrupt_ne, op_ne,
  type_ne,
)

decode_value-IsSane : (op : ℕ) (bytes : Bytes) (offset : ℕ) → IsSane (decode_value op bytes offset)
unfolding decode_value
decode_value-IsSane op bytes offset = search sane_rules

pub parse_entry-IsSane : (bytes : Bytes) → IsSane (parse_entry bytes)
unfolding parse_entry
parse_entry-IsSane bytes = search (sane_rules, decode_value-IsSane) depth 12
