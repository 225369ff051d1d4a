-- ===== src/Transaction/Tests.antt =====
-- Runs of a buffer, with the witness of its theorem.
use kevo.Base.{◌≡◌, refl, List, [], ◌∷◌, none, some, false}
use kevo.Transaction.Buffer.{
  new_buffer, put, delete, get, size_in_bytes, number_of_queued_operations, clear_buffer,
}
use kevo.Base.{ℕ, zero, suc, Bool, true, if◌then◌else◌}
use kevo.Transaction.Buffer.{Operation}
use kevo.Transaction.BufferIterator.{buffer_seek}
use kevo.Transaction.Writes.{Write, puts, deletes, write_all, last_effect, get-write_all}

abbrev writes : List Write
writes =
    puts (1 ∷ []) (some (10 ∷ 11 ∷ []))
    ∷ puts (2 ∷ []) none
    ∷ deletes (1 ∷ [])
    ∷ puts (2 ∷ []) (some (12 ∷ []))
    ∷ []

two_keys_are_queued : number_of_queued_operations (write_all writes new_buffer) ≡ 2
unfolding number_of_queued_operations put delete
two_keys_are_queued = refl

seven_bytes_are_queued : size_in_bytes (write_all writes new_buffer) ≡ 7
unfolding size_in_bytes put delete
seven_bytes_are_queued = refl

nothing_is_left : get (1 ∷ []) (clear_buffer (write_all writes new_buffer)) ≡ (none, false)
unfolding get clear_buffer
nothing_is_left = refl

get-write_all_example :
    get (1 ∷ []) (write_all writes new_buffer)
    ≡ last_effect (1 ∷ []) writes (get (1 ∷ []) new_buffer)
get-write_all_example = get-write_all (1 ∷ []) writes new_buffer

abbrev listed : List Operation
listed =
    record { key = 1 ∷ []; value = none; is_delete = true }
    ∷ record { key = 2 ∷ []; value = some (12 ∷ []); is_delete = false }
    ∷ []

-- A search that tries one index behind the other.
abbrev first_true : ℕ → (ℕ → Bool) → ℕ
first_true zero test = 0
first_true (suc n) test = if test 0 then 0 else suc (first_true n (λ i. test (suc i)))

seek_finds_the_second : buffer_seek listed first_true (1 ∷ 5 ∷ []) none ≡ some 1
unfolding buffer_seek
seek_finds_the_second = refl

seek_past_the_end : buffer_seek listed first_true (3 ∷ []) (some 0) ≡ none
unfolding buffer_seek
seek_past_the_end = refl
