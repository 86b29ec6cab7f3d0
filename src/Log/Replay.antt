-- ===== src/Log/Replay.antt =====
-- What the on-disk log stands for: the contents that a recovery gives each block.
use dave.Common.{
  ℕ, zero, suc, ◌+◌, ◌<◌, ◌≤◌, ◌≡◌, ◌≢◌, ◌⊎◌, refl, ap, ◌∙◌, inl, inr, Bool, true, false, arith,
  Bool-cases, ==_iff, if◌then◌else◌, ◌==◌, update, get_or,
}
use dave.Log.{Block, Log, logged}

-- The latest of the first `n` entries for block `h`, else its contents in `base`.
abbrev pub replay : (ℕ → Block) → (ℕ → ℕ) → (ℕ → Block) → ℕ → ℕ → Block
replay base blk dat zero h = base h
replay base blk dat (suc n) h = if blk n == h then dat n else replay base blk dat n h

-- A disk whose log starts at `start`, as a recovery reads it.
abbrev pub logical : ℕ → (ℕ → Block) → ℕ → Block
logical start d =
    replay d (λ i. get_or (d start) (suc i) 0) (λ i. d (start + i + 1)) (get_or (d start) 0 0)

-- The blocks of the log: the header and `size - 1` more.
abbrev pub InLog : Log → ℕ → Type 0
InLog l b = (l.start ≤ b) × (b < l.start + l.size)

abbrev pub IsHome : Log → ℕ → Type 0
IsHome l b = (b < l.start) ⊎ (l.start + l.size ≤ b)

abbrev pub is_logged : Log → ℕ → ℕ → Bool
is_logged l h zero = false
is_logged l h (suc n) = if logged l n == h then true else is_logged l h n

pub replay-update_other :
    (base : ℕ → Block) (blk : ℕ → ℕ) (dat : ℕ → Block) (n b h : ℕ) (v : Block)
    → b ≢ h
    → replay (update base b v) blk dat n h ≡ replay base blk dat n h
replay-update_other base blk dat zero b h v ne = ground arith
replay-update_other base blk dat (suc n) b h v ne =
    ground (arith, replay-update_other base blk dat n b h v)

-- A block that an entry names does not count in the base.
pub replay-update :
    (base : ℕ → Block) (blk : ℕ → ℕ) (dat : ℕ → Block) (n t h : ℕ) (v : Block)
    → t < n
    → replay (update base (blk t) v) blk dat n h ≡ replay base blk dat n h
replay-update base blk dat zero t h v lt = absurd (omega arith)
replay-update base blk dat (suc n) t h v lt =
    ground
      (arith, replay-update base blk dat n t h v, replay-update_other base blk dat n (blk t) h v)

-- Only the entries below `n`, and the base at `h`, count.
pub replay_ext :
    (base base' : ℕ → Block) (blk blk' : ℕ → ℕ) (dat dat' : ℕ → Block) (n h : ℕ)
    → base h ≡ base' h
    → ((i : ℕ) → i < n → blk i ≡ blk' i)
    → ((i : ℕ) → i < n → dat i ≡ dat' i)
    → replay base blk dat n h ≡ replay base' blk' dat' n h
replay_ext base base' blk blk' dat dat' zero h e be de = e
replay_ext base base' blk blk' dat dat' (suc n) h e be de = ground (
  arith,
  be n,
  de n,
  replay_ext base base' blk blk' dat dat' n h e (λ i lt. be i (omega arith))
      (λ i lt. de i (omega arith)),
)

-- Entries whose data is what `view` has for their blocks.
pub replay_view :
    (base view : ℕ → Block) (l : Log) (n h : ℕ)
    → replay base (logged l) (λ i. view (logged l i)) n h
      ≡ (if is_logged l h n then view h else base h)
replay_view base view l zero h = refl
replay_view base view l (suc n) h = ground (arith, replay_view base view l n h)

-- The entries are home blocks, so replay leaves the log alone.
pub replay-InLog :
    (base dat : ℕ → Block) (l : Log) (n b : ℕ)
    → ((i : ℕ) → i < n → IsHome l (logged l i))
    → InLog l b
    → replay base (logged l) dat n b ≡ base b
replay-InLog base dat l zero b home inside = refl
replay-InLog base dat l (suc n) b home inside =
    ground (arith, home n, replay-InLog base dat l n b (λ i lt. home i (omega arith)) inside)

-- How a recovery reads a disk with a given header and given log blocks.
pub logical-entries :
    (l : Log) (d dat : ℕ → Block) (h : ℕ)
    → get_or (d l.start) 0 0 ≡ l.n
    → ((i : ℕ) → i < l.n → get_or (d l.start) (suc i) 0 ≡ logged l i)
    → ((i : ℕ) → i < l.n → d (l.start + i + 1) ≡ dat i)
    → logical l.start d h ≡ replay d (logged l) dat l.n h
logical-entries l d dat h count entries blocks =
    ap (λ n. replay d (λ i. get_or (d l.start) (suc i) 0) (λ i. d (l.start + i + 1)) n h) count
    ∙ replay_ext d d (λ i. get_or (d l.start) (suc i) 0) (logged l) (λ i. d (l.start + i + 1)) dat
        l.n h refl entries blocks

pub logical-clear :
    (start : ℕ) (d : ℕ → Block) (h : ℕ) → get_or (d start) 0 0 ≡ 0 → logical start d h ≡ d h
logical-clear start d h count =
    ap (λ n. replay d (λ i. get_or (d start) (suc i) 0) (λ i. d (start + i + 1)) n h) count

pub is_logged-entry :
    (l : Log) (n b : ℕ) → is_logged l b n ≡ true → (i : ℕ) × (i < n) × (logged l i ≡ b)
is_logged-entry l zero b e = cc
is_logged-entry l (suc n) b e = elim (Bool-cases (logged l n == b)) [
  | inl hit ↦ (n, omega arith, (==_iff _ b).0 hit)
  | inr miss ↦ let (i, lt, at) = is_logged-entry l n b (rw miss at e) in (i, omega arith, at)
]

pub is_logged-InLog :
    (l : Log) (n b : ℕ)
    → ((i : ℕ) → i < n → IsHome l (logged l i))
    → InLog l b
    → is_logged l b n ≡ false
is_logged-InLog l zero b home inside = refl
is_logged-InLog l (suc n) b home inside =
    ground (arith, home n, is_logged-InLog l n b (λ i lt. home i (omega arith)) inside)
