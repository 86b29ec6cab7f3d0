-- ===== src/Strings/Examples.antt =====
-- Concrete runs of the memory and string routines: "hi" at 100, memory zero elsewhere.
use dave.Common.{ℕ, ◌+◌, ◌<◌, ◌≡◌, ◌≢◌, ◌↔◌, refl, arith, some, update, zero, suc}
use dave.Strings.{Memory, memmove, copy_down, memcmp, strlen, safestrcpy, safestrcpy_from}
use dave.Strings.Move.{memmove_lem}
use dave.Strings.Compare.{IsBytes, SameBytes, memcmp_iff, strlen_lem}

abbrev hi : Memory
hi = update (update (λ a. 0) 100 b'h') 101 b'i'

hi-IsBytes : IsBytes hi
hi-IsBytes a = ground arith

hi_before : (i : ℕ) → i < 2 → hi (100 + i) ≢ 0
hi_before zero lt = omega arith
hi_before (suc zero) lt = omega arith
hi_before (suc (suc i)) lt = absurd (omega arith)

overlapping : memmove 101 100 2 hi 102 ≡ b'i'
unfolding memmove copy_down
overlapping = refl

memmove_example : memmove 101 100 2 hi 102 ≡ b'i'
memmove_example = memmove_lem 101 100 2 102 hi

memcmp_example : (memcmp 100 101 3 hi ≡ 0) ↔ SameBytes 100 101 3 hi
memcmp_example = memcmp_iff 100 101 3 hi hi-IsBytes

strlen_example : strlen 10 100 hi ≡ some 2
strlen_example = strlen_lem 10 100 2 hi (omega arith) hi_before refl

-- The cut string ends within the two bytes.
cut : safestrcpy 200 100 2 hi 201 ≡ 0
unfolding safestrcpy safestrcpy_from
cut = refl
