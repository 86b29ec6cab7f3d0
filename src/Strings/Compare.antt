-- ===== src/Strings/Compare.antt =====
-- `memcmp`, `strncmp` and `strlen` of system/runtime/string.c against what they decide.
use dave.Common.{ℕ, zero, suc, ◌+◌, ◌<◌, ◌≡◌, ◌≢◌, ◌⊎◌, ◌↔◌, refl, ◌∙◌, ap, subst, arith, some}
use dave.Strings.{Memory, memcmp, strncmp, strlen, strlen_from}

abbrev pub IsBytes : Memory → Type 0
IsBytes m = (a : ℕ) → m a < 256

-- The two strings agree up to the first NUL or the limit.
abbrev pub SameString : ℕ → ℕ → ℕ → Memory → Type 0
SameString p q zero m = Unit {0}
SameString p q (suc n) m = (m p ≡ m q) × ((m p ≡ 0) ⊎ SameString (p + 1) (q + 1) n m)

abbrev pub SameBytes : ℕ → ℕ → ℕ → Memory → Type 0
SameBytes p q zero m = Unit {0}
SameBytes p q (suc n) m = (m p ≡ m q) × SameBytes (p + 1) (q + 1) n m

-- `strncmp` is 0 exactly when the strings agree up to the first NUL or the limit.
pub strncmp_iff : (p q n : ℕ) (m : Memory) → IsBytes m → (strncmp p q n m ≡ 0) ↔ SameString p q n m
unfolding strncmp
strncmp_iff p q zero m bytes = (λ e. tt, λ h. refl)
strncmp_iff p q (suc n) m bytes =
    let ih = strncmp_iff (p + 1) (q + 1) n m bytes in
    (λ e. ground (arith, bytes p, bytes q, ih), λ h. ground (arith, bytes p, bytes q, ih))

-- `memcmp` is 0 exactly when the `n` bytes agree.
pub memcmp_iff : (p q n : ℕ) (m : Memory) → IsBytes m → (memcmp p q n m ≡ 0) ↔ SameBytes p q n m
unfolding memcmp
memcmp_iff p q zero m bytes = (λ e. tt, λ h. refl)
memcmp_iff p q (suc n) m bytes =
    let ih = memcmp_iff (p + 1) (q + 1) n m bytes in
    (λ e. ground (arith, bytes p, bytes q, ih), λ h. ground (arith, bytes p, bytes q, ih))

strlen_from_lem :
    (fuel s n k : ℕ) (m : Memory)
    → k < fuel
    → ((i : ℕ) → i < k → m (s + (n + i)) ≢ 0)
    → m (s + (n + k)) ≡ 0
    → strlen_from fuel s n m ≡ some (n + k)
unfolding strlen_from
strlen_from_lem zero s n k m lt before at = absurd (omega arith)
strlen_from_lem (suc fuel) s n zero m lt before at =
    let e : n + 0 ≡ n = omega arith in ground (arith, e, at)
strlen_from_lem (suc fuel) s n (suc k) m lt before at =
    let e : n + suc k ≡ n + 1 + k = omega arith in
    let z : n + 0 ≡ n = omega arith in
    ground (
      arith,
      e,
      z,
      before 0 (omega arith),
      strlen_from_lem fuel s (n + 1) k m (omega arith)
          (λ i li. subst (λ j. m (s + j) ≢ 0) (omega arith) (before (suc i) (omega arith)))
          (ap (λ j. m (s + j)) (omega arith) ∙ at),
    )

-- `strlen` ends at the first NUL and returns its distance.
pub strlen_lem :
    (fuel s k : ℕ) (m : Memory)
    → k < fuel
    → ((i : ℕ) → i < k → m (s + i) ≢ 0)
    → m (s + k) ≡ 0
    → strlen fuel s m ≡ some k
unfolding strlen
strlen_lem fuel s k m lt before at =
    strlen_from_lem fuel s 0 k m lt (λ i li. subst (λ j. m (s + j) ≢ 0) (omega arith) (before i li))
      (ap (λ j. m (s + j)) (omega arith) ∙ at)
    ∙ ap some (omega arith)
