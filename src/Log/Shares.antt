-- ===== src/Log/Shares.antt =====
-- The blocks that the system calls in progress have written under system/storage/log.c: one list for
-- each call, which names each block once.
use dave.Common.{
  ℕ, zero, suc, ◌+◌, ◌-◌, ◌*◌, ◌<◌, ◌≤◌, ◌≡◌, arith, Bool, true, false, ◌||◌, List, [], ◌∷◌,
  if◌then◌else◌, ◌==◌, length, get_or, set, Bool-cases, inl, inr,
}
use dave.Log.{Log, maxopblocks}
use dave.Log.Replay.{is_logged}

abbrev pub has : ℕ → List ℕ → Bool
has b [] = false
has b (x ∷ xs) = x == b || has b xs

-- The blocks of a call after it has written `b`.
abbrev pub noted : ℕ → List ℕ → List ℕ
noted b xs = if has b xs then xs else b ∷ xs

-- How many blocks the calls may still add.
abbrev pub total : List (List ℕ) → ℕ
total [] = 0
total (ws ∷ wss) = (maxopblocks - length ws) + total wss

abbrev pub remove_at : List (List ℕ) → ℕ → List (List ℕ)
remove_at [] i = []
remove_at (ws ∷ wss) zero = wss
remove_at (ws ∷ wss) (suc i) = ws ∷ remove_at wss i

abbrev pub Shares : List (List ℕ) → Type 0
Shares [] = Unit {0}
Shares (ws ∷ wss) = (length ws ≤ maxopblocks) × Shares wss

-- The log has all these blocks.
abbrev pub HasAll : Log → List ℕ → Type 0
HasAll l ws = (b : ℕ) → has b ws ≡ true → is_logged l b l.n ≡ true

abbrev pub Recorded : Log → List (List ℕ) → Type 0
Recorded l [] = Unit {0}
Recorded l (ws ∷ wss) = HasAll l ws × Recorded l wss

pub total-set :
    (wss : List (List ℕ)) (i : ℕ) (xs : List ℕ)
    → i < length wss
    → total (set wss i xs) + (maxopblocks - length (get_or wss i []))
      ≡ total wss + (maxopblocks - length xs)
total-set [] i xs lt = absurd (omega arith)
total-set (ws ∷ wss) zero xs lt = omega arith
total-set (ws ∷ wss) (suc i) xs lt = omega (arith, total-set wss i xs (omega arith))

pub total-remove_at : (wss : List (List ℕ)) (i : ℕ) → total (remove_at wss i) ≤ total wss
total-remove_at [] i = omega arith
total-remove_at (ws ∷ wss) zero = omega arith
total-remove_at (ws ∷ wss) (suc i) = omega (arith, total-remove_at wss i)

pub length-remove_at :
    (wss : List (List ℕ)) (i : ℕ) → i < length wss → length (remove_at wss i) + 1 ≡ length wss
length-remove_at [] i lt = absurd (omega arith)
length-remove_at (ws ∷ wss) zero lt = omega arith
length-remove_at (ws ∷ wss) (suc i) lt = omega (arith, length-remove_at wss i (omega arith))

pub total_at :
    (wss : List (List ℕ)) (i : ℕ)
    → i < length wss
    → maxopblocks - length (get_or wss i []) ≤ total wss
total_at [] i lt = absurd (omega arith)
total_at (ws ∷ wss) zero lt = omega arith
total_at (ws ∷ wss) (suc i) lt = omega (arith, total_at wss i (omega arith))

pub total-Shares : (wss : List (List ℕ)) → total wss ≤ length wss * maxopblocks
total-Shares [] = omega arith
total-Shares (ws ∷ wss) = omega (arith, total-Shares wss)

pub Shares-set :
    (wss : List (List ℕ)) (i : ℕ) (xs : List ℕ)
    → length xs ≤ maxopblocks
    → Shares wss
    → Shares (set wss i xs)
Shares-set [] i xs le sh = tt
Shares-set (ws ∷ wss) zero xs le sh = (le, sh.1)
Shares-set (ws ∷ wss) (suc i) xs le sh = (sh.0, Shares-set wss i xs le sh.1)

pub Shares-remove_at : (wss : List (List ℕ)) (i : ℕ) → Shares wss → Shares (remove_at wss i)
Shares-remove_at [] i sh = tt
Shares-remove_at (ws ∷ wss) zero sh = sh.1
Shares-remove_at (ws ∷ wss) (suc i) sh = (sh.0, Shares-remove_at wss i sh.1)

pub Recorded-at :
    (l : Log) (wss : List (List ℕ)) (i : ℕ) → Recorded l wss → HasAll l (get_or wss i [])
Recorded-at l [] i r = λ b e. cc
Recorded-at l (ws ∷ wss) zero r = r.0
Recorded-at l (ws ∷ wss) (suc i) r = Recorded-at l wss i r.1

-- A log that has more has the blocks of all the calls.
pub Recorded-more :
    (l m : Log) (wss : List (List ℕ))
    → ((b : ℕ) → is_logged l b l.n ≡ true → is_logged m b m.n ≡ true)
    → Recorded l wss
    → Recorded m wss
Recorded-more l m [] more r = tt
Recorded-more l m (ws ∷ wss) more r = (λ b e. more b (r.0 b e), Recorded-more l m wss more r.1)

pub Recorded-set :
    (l : Log) (wss : List (List ℕ)) (i : ℕ) (xs : List ℕ)
    → HasAll l xs
    → Recorded l wss
    → Recorded l (set wss i xs)
Recorded-set l [] i xs h r = tt
Recorded-set l (ws ∷ wss) zero xs h r = (h, r.1)
Recorded-set l (ws ∷ wss) (suc i) xs h r = (r.0, Recorded-set l wss i xs h r.1)

pub Recorded-remove_at :
    (l : Log) (wss : List (List ℕ)) (i : ℕ) → Recorded l wss → Recorded l (remove_at wss i)
Recorded-remove_at l [] i r = tt
Recorded-remove_at l (ws ∷ wss) zero r = r.1
Recorded-remove_at l (ws ∷ wss) (suc i) r = (r.0, Recorded-remove_at l wss i r.1)

pub Recorded-empty : (l : Log) (wss : List (List ℕ)) → length wss ≡ 0 → Recorded l wss
Recorded-empty l [] e = tt
Recorded-empty l (ws ∷ wss) e = absurd (omega arith)

pub has-noted : (b c : ℕ) (ws : List ℕ) → has c (noted b ws) ≡ true → (b == c || has c ws) ≡ true
has-noted b c ws e = elim (Bool-cases (has b ws)) [
  | inl old ↦ ground (arith, e, old)
  | inr new ↦ ground (arith, e, new)
]
