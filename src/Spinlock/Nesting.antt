-- ===== src/Spinlock/Nesting.antt =====
-- Matched calls of `pushcli` and `popcli` (system/sync/spinlock.c) leave the interrupts as they were.
use dave.Common.{
  ℕ, suc, ◌+◌, ◌<◌, ◌^◌, ◌≡◌, refl, ap, arith, false, ◌&&◌, Result, ok, panic, ◌==◌, add32, sub32,
  is_negative, ◌∙◌,
}
use dave.Spinlock.{Cpu, pushcli, popcli}

-- A program on one processor: matched pairs of `pushcli` and `popcli`, nested and in a row.
pub data Program : Type 0 where
  done : Program
  nest : Program → Program → Program

-- How many pairs there are.
abbrev pub pairs : Program → ℕ
pairs done = 0
pairs (nest inner next) = suc (pairs inner) + pairs next

abbrev bind : Result Cpu → (Cpu → Result Cpu) → Result Cpu
bind panic f = panic
bind (ok c) f = f c

-- The calls in order.
unfoldable pub run_pairs : Program → Cpu → Result Cpu
run_pairs done c = ok c
run_pairs (nest inner next) c =
    bind (run_pairs inner (pushcli c)) (λ d. bind (popcli d) (λ e. run_pairs next e))

-- Interrupts are off while the counter is not 0.
pub record IsValid (c : Cpu) : Type 0 where
  pub off : (c.ncli == 0) ≡ false → c.enabled ≡ false
  pub small : c.ncli < 2 ^ 31

pub record Restored (c d : Cpu) : Type 0 where
  pub same_flag : d.enabled ≡ c.enabled
  pub same_count : d.ncli ≡ c.ncli
  pub same_saved : (c.ncli == 0) ≡ false → d.intena ≡ c.intena

pub pushcli-IsValid : (c : Cpu) → c.ncli + 1 < 2 ^ 31 → IsValid (pushcli c)
unfolding pushcli
pushcli-IsValid c room = record { off = λ h. refl; small = omega arith }

pub pushed_count : (c : Cpu) → c.ncli + 1 < 2 ^ 31 → (pushcli c).ncli ≡ c.ncli + 1
unfolding pushcli
pushed_count c room = omega arith

pub pushed_off : (c : Cpu) → (pushcli c).enabled ≡ false
unfolding pushcli
pushed_off c = refl

-- Popping what `pushcli` has left, after code that restores it.
pub popcli_after :
    (c d : Cpu)
    → IsValid c
    → c.ncli + 1 < 2 ^ 31
    → Restored (pushcli c) d
    → (e : Cpu) × (popcli d ≡ ok e) × Restored c e × IsValid e
unfolding pushcli popcli
popcli_after c d v room r =
    let count : sub32 d.ncli 1 ≡ c.ncli = omega (arith, r.same_count) in
    let off : d.enabled ≡ false = r.same_flag in
    let one : (add32 c.ncli 1 == 0) ≡ false = ground arith in
    let saved = r.same_saved one in
    let fits : is_negative c.ncli ≡ false = ground (arith, room) in
    let flag : (c.ncli == 0 && d.intena) ≡ c.enabled = ground (arith, saved, v.off) in
    let e : Cpu = record d { ncli = c.ncli; enabled = c.ncli == 0 && d.intena } in
    (
      e,
      rw (off, count, fits) refl,
      record { same_flag = flag; same_count = refl; same_saved = λ h. ground (arith, saved, h) },
      record { off = λ h. ground (arith, flag, h); small = v.small },
    )

pub Restored-refl : (c : Cpu) → Restored c c
Restored-refl c = record { same_flag = refl; same_count = refl; same_saved = λ h. refl }

pub Restored-trans : (c d e : Cpu) → Restored c d → Restored d e → Restored c e
Restored-trans c d e a b = record {
  same_flag = b.same_flag ∙ a.same_flag;
  same_count = b.same_count ∙ a.same_count;
  same_saved = λ h. b.same_saved (ap (λ n. n == 0) a.same_count ∙ h) ∙ a.same_saved h;
}

pub run_pairs_lem :
    (p : Program) (c : Cpu)
    → IsValid c
    → c.ncli + pairs p < 2 ^ 31
    → (d : Cpu) × (run_pairs p c ≡ ok d) × Restored c d × IsValid d
unfolding run_pairs
run_pairs_lem done c v room = (c, refl, Restored-refl c, v)
run_pairs_lem (nest inner next) c v room =
    let (d, inner_ok, inside, _) =
      run_pairs_lem inner (pushcli c) (pushcli-IsValid c (omega arith))
        (omega (arith, pushed_count c (omega arith))) in
    let (e, pop_ok, back, v') = popcli_after c d v (omega arith) inside in
    let (f, next_ok, after, v'') = run_pairs_lem next e v' (omega (arith, back.same_count)) in
    (f, rw (inner_ok, pop_ok) next_ok, Restored-trans c e f back after, v'')

-- However calls of `pushcli` and `popcli` are paired, none of them panics, and the interrupts
-- and the counter are in the end as they were at the start; the counter must not reach 2 ^ 31.
pub run_pairs-Restored :
    (p : Program) (c : Cpu)
    → IsValid c
    → c.ncli + pairs p < 2 ^ 31
    → (d : Cpu) × (run_pairs p c ≡ ok d) × (d.enabled ≡ c.enabled) × (d.ncli ≡ c.ncli)
run_pairs-Restored p c v room =
    let (d, e, r, _) = run_pairs_lem p c v room in (d, e, r.same_flag, r.same_count)
