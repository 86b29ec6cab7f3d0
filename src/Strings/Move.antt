-- ===== src/Strings/Move.antt =====
-- `memmove` of system/runtime/string.c copies correctly also where the ranges overlap.
use dave.Common.{
  ℕ, zero, suc, ◌+◌, ◌-◌, ◌<◌, ◌≤◌, ◌≡◌, ◌⊎◌, ◌∙◌, arith, ◌&&◌, if◌then◌else◌, ltb, leb, update,
}
use dave.Strings.{Memory, copy_up, copy_down, memmove}

-- The memory with the `n` bytes from `src` on at `dst`.
abbrev pub moved : ℕ → ℕ → ℕ → Memory → Memory
moved dst src n m a = if leb dst a && ltb a (dst + n) then m (src + (a - dst)) else m a

copy_up_lem :
    (n d s a : ℕ) (m : Memory) → (d ≤ s) ⊎ (s + n ≤ d) → copy_up n d s m a ≡ moved d s n m a
unfolding copy_up
copy_up_lem zero d s a m apart = ground arith
copy_up_lem (suc n) d s a m apart =
    ground (arith, copy_up_lem n (d + 1) (s + 1) a (update m d (m s)))

-- One round of the downward loop, seen from the bottom of the ranges.
moved_last :
    (n d s a : ℕ) (m : Memory)
    → s < d
    → moved d s n (update m (d + n) (m (s + n))) a ≡ moved d s (suc n) m a
moved_last n d s a m lt = ground arith

copy_down_lem :
    (n d s d' s' a : ℕ) (m : Memory)
    → d' ≡ d + n
    → s' ≡ s + n
    → s < d
    → copy_down n d' s' m a ≡ moved d s n m a
unfolding copy_down
copy_down_lem zero d s d' s' a m ed es lt = ground arith
copy_down_lem (suc n) d s d' s' a m ed es lt =
    let e : d' - 1 ≡ d + n = omega arith in
    let f : s' - 1 ≡ s + n = omega arith in
    copy_down_lem n d s (d' - 1) (s' - 1) a (update m (d' - 1) (m (s' - 1))) e f lt
    ∙ rw (e, f) (moved_last n d s a m lt)

-- After `memmove` the destination holds the old bytes of the source, whether or not the two
-- overlap, and all other bytes are as before.
pub memmove_lem : (dst src n a : ℕ) (m : Memory) → memmove dst src n m a ≡ moved dst src n m a
unfolding memmove
memmove_lem dst src n a m =
    ground (arith, copy_up_lem n dst src a m, copy_down_lem n dst src (dst + n) (src + n) a m)
