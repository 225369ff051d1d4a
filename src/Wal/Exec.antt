-- ===== src/Wal/Exec.antt =====
-- Methods as state passing: what a method has changed before it fails stays changed.
use kevo.Wal.Types.{Result, ok, err, Error}

-- A method of an object with state `Object` that returns a `Value` or an error.
abbrev pub Exec : (Object Value : Type 0) → Type 0
Exec Object Value = Object → Result Value × Object

-- The method ends without touching the object.
abbrev pub lift : {Object Value : Type 0} → Result Value → Exec Object Value
lift outcome object = (outcome, object)

abbrev pub pure : {Object Value : Type 0} → Value → Exec Object Value
pure value = lift (ok value)

abbrev pub fail : {Object Value : Type 0} → Error → Exec Object Value
fail reason = lift (err reason)

-- A read of the object's fields.
abbrev pub gets : {Object Value : Type 0} → (Object → Value) → Exec Object Value
gets read object = (ok (read object), object)

module _ {Object Value Next : Type 0} where
  -- The rest of a method, after a call with this outcome has left the object so.
  abbrev pub continue : Result Value → (Value → Exec Object Next) → Exec Object Next
  continue (err reason) rest object = (err reason, object)
  continue (ok value) rest object = rest value object

  infixl 5 ◌>>=◌
  abbrev pub ◌>>=◌ : Exec Object Value → (Value → Exec Object Next) → Exec Object Next
  ◌>>=◌ call rest object = let (outcome, left) = call object in continue outcome rest left

module _ {Object Next : Type 0} where
  infixl 5 ◌>>◌
  abbrev pub ◌>>◌ : Exec Object (Unit {0}) → Exec Object Next → Exec Object Next
  first >> rest = first >>= λ _. rest
