-- ===== src/Locks/Deadlocks.antt =====
-- pkg/locks/deadlocks.go, the walk along the transactions that wait for each other, and detectDeadlock
-- of pkg/locks/locks.go, which starts it.
use kevo.Base.{
  ℕ, zero, suc, ◌+◌, ◌-◌, ◌^◌, List, [], ◌∷◌, ◌++◌, Option, none, some, length, drop, if◌then◌else◌,
  ltb,
}
use kevo.Base.Bytes.{Bytes}
use kevo.Base.Strings.{same}

-- The nodes of a cycle, or none; `out_of_fuel` is a loop that goes on.
pub data Detection : Type 0 where
  deadlock : (nodes : List Bytes) → Detection
  no_deadlock out_of_fuel : Detection

-- A Go map from nodes to their places in the path.
abbrev pub Places : Type 0
Places = List (Bytes × ℕ)

abbrev pub find : Places → Bytes → Option ℕ
find [] node = none
find ((n, i) ∷ places) node = if same n node then some i else find places node

-- The node that a node waits for, if it waits: `getNextDependingNode`.
abbrev pub Waits : Type 0
Waits = Bytes → Option Bytes

module _ (waits : Waits) where
  -- The loop of `DetectDeadlockCycle`; a round for each node that can be reached is enough.
  unfoldable pub detect_loop : ℕ → Places → List Bytes → Bytes → Detection
  detect_loop zero places path current = out_of_fuel
  detect_loop (suc fuel) places path current = elim (waits current) [
    | none ↦ no_deadlock
    | some next ↦ elim (find places next) [
      | some i ↦ deadlock (drop i path)
      | none ↦ detect_loop fuel ((next, length path) ∷ places) (path ++ (next ∷ [])) next
    ]
  ]

  -- `DetectDeadlockCycle`
  unfoldable pub detect_deadlock_cycle : ℕ → Bytes → Detection
  unfolding detect_loop
  detect_deadlock_cycle fuel start = detect_loop fuel [] (start ∷ []) start

-- What `detectDeadlock` reads and writes of `Locks`; the maps are association lists, whose first
-- entry for a key counts.
pub record Locks : Type 0 where
  -- `awaitingLocksTxIdToKey`
  pub awaiting_tx_to_key : List (Bytes × Bytes)
  -- `locks`, from keys to the transactions that hold them
  pub holders : List (Bytes × Bytes)
  -- `locksTxIdToKeys`
  pub tx_to_keys : List (Bytes × List Bytes)
  -- `terminateForDeadlock`
  pub terminate_for_deadlock : List Bytes

abbrev pub lookup {ℓ} : {A : Type ℓ} → List (Bytes × A) → Bytes → Option A
lookup [] key = none
lookup ((k, a) ∷ entries) key = if same k key then some a else lookup entries key

-- A missing key reads as the empty string.
abbrev pub or_empty : Option Bytes → Bytes
or_empty none = []
or_empty (some tx) = tx

abbrev pub holder : Locks → Bytes → Bytes
holder l key = or_empty (lookup l.holders key)

-- `getNextDependingNode`
abbrev pub next_depending_node : Locks → Waits
next_depending_node l node = elim (lookup l.awaiting_tx_to_key node) [
  | none ↦ none
  | some key ↦ some (holder l key)
]

abbrev pub lock_count : Locks → Bytes → ℕ
lock_count l tx = elim (lookup l.tx_to_keys tx) [ none ↦ 0 | some keys ↦ length keys ]

-- The loop over the cycle: the transaction with the fewest locks so far, and their number.
abbrev pub fewest_locks : Locks → List Bytes → Bytes → ℕ → Bytes
fewest_locks l [] tx fewest = tx
fewest_locks l (n ∷ nodes) tx fewest =
    if ltb (lock_count l n) fewest
    then fewest_locks l nodes n (lock_count l n)
    else fewest_locks l nodes tx fewest

abbrev pub max_int64 : ℕ
max_int64 = 2 ^ 63 - 1

-- The transaction to abort, of a cycle that has nodes.
abbrev pub victim : Locks → Detection → Option Bytes
victim l (deadlock []) = none
victim l (deadlock (n ∷ nodes)) = some (fewest_locks l (n ∷ nodes) n max_int64)
victim l no_deadlock = none
victim l out_of_fuel = none

abbrev pub mark : Option Bytes → Locks → Locks
mark none l = l
mark (some tx) l = record l { terminate_for_deadlock = tx ∷ l.terminate_for_deadlock }

-- A transaction can only wait for one that holds a key, or for the empty string.
abbrev pub enough_rounds : Locks → ℕ
enough_rounds l = 2 + length l.holders

unfoldable pub detect : Locks → Bytes → Detection
detect l start = detect_deadlock_cycle (next_depending_node l) (enough_rounds l) start

-- `detectDeadlock`
unfoldable pub detect_deadlock : Locks → Bytes → Option Bytes × Locks
unfolding detect
detect_deadlock l start = let tx = victim l (detect l start) in (tx, mark tx l)
