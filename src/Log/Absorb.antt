-- ===== src/Log/Absorb.antt =====
-- `log_write` of system/storage/log.c: absorption, the pin, and the two panics.
use dave.Common.{
  ℕ, zero, suc, ◌+◌, ◌-◌, ◌^◌, ◌<◌, ◌≤◌, ◌≡◌, ◌≢◌, ◌⊎◌, ◌↔◌, inl, inr, refl, ap, ◌∙◌, arith, true,
  List, ok, panic, if◌then◌else◌, ◌==◌, update, get_or, set, length, length-set, get_or-set_self,
  get_or-set_ne, Bool-cases,
}
use dave.Log.{Block, Log, Store, logged, logsize, set_data, absorb, log_write}
use dave.Log.Replay.{IsHome, is_logged, is_logged-entry}
use dave.Log.Phases.{IsValid}

-- Where the search stops: at the block's entry, or past the last.
absorb_lem :
    (block : List ℕ) (b k i : ℕ)
    → (i ≤ absorb block b k i)
      × (absorb block b k i ≤ i + k)
      × (absorb block b k i ≢ i + k → get_or block (absorb block b k i) 0 ≡ b)
unfolding absorb
absorb_lem block b zero i = ground arith
absorb_lem block b (suc k) i = ground (arith, absorb_lem block b k (suc i))

-- The search stops no later than at an entry for the block.
absorb_le :
    (block : List ℕ) (b k i t : ℕ)
    → i ≤ t
    → t < i + k
    → get_or block t 0 ≡ b
    → absorb block b k i ≤ t
unfolding absorb
absorb_le block b zero i t lo hi at = absurd (omega arith)
absorb_le block b (suc k) i t lo hi at = elim (Bool-cases (i == t)) [
  | inl e ↦ let same : i ≡ t = ground arith in ground (arith, at, ap (λ j. get_or block j 0) same)
  | inr e ↦ ground (arith, e, absorb_le block b k (suc i) t (ground arith) (omega arith) at)
]

-- A block that is logged is absorbed.
pub absorb-is_logged : (l : Log) (b : ℕ) → is_logged l b l.n ≡ true → absorb l.block b l.n 0 ≢ l.n
absorb-is_logged l b e =
    let (t, lt, at) = is_logged-entry l l.n b e in
    let found = absorb_le l.block b l.n 0 t (omega arith) (omega arith) at in
    λ q. omega (arith, q, found, lt)

pub is_logged_ext :
    (l l' : Log) (c n : ℕ)
    → ((i : ℕ) → i < n → logged l i ≡ logged l' i)
    → is_logged l c n ≡ is_logged l' c n
is_logged_ext l l' c zero same = refl
is_logged_ext l l' c (suc n) same =
    ground (arith, same n, is_logged_ext l l' c n (λ i lt. same i (omega arith)))

is_logged_at : (l : Log) (n i : ℕ) → i < n → is_logged l (logged l i) n ≡ true
is_logged_at l zero i lt = absurd (omega arith)
is_logged_at l (suc n) i lt = ground (arith, is_logged_at l n i)

module _ (b : ℕ) (l : Log) (fits : l.n < length l.block) where
  -- The header that `log_write` leaves in memory.
  abbrev pub slot : ℕ
  slot = absorb l.block b l.n 0

  abbrev pub written : Log
  written = record l { block = set l.block slot b; n = if slot == l.n then l.n + 1 else l.n }

  -- A successful `log_write` leaves that header.
  pub log_write-written : (m : Log) (s t : Store) → log_write b l s ≡ ok (m, t) → m ≡ written
  unfolding log_write
  log_write-written m s t e = ground arith

  written_below : (i : ℕ) → i < l.n → logged written i ≡ logged l i
  written_below i lt = ground (
    arith,
    absorb_lem l.block b l.n 0,
    get_or-set_self l.block i b 0,
    get_or-set_ne l.block slot i b 0,
  )

  written_new : slot ≡ l.n → logged written l.n ≡ b
  written_new e = ground (arith, get_or-set_self l.block l.n b 0)

  -- The header then has the block, and otherwise the same blocks as before.
  pub written_logged :
      (c : ℕ) → is_logged written c written.n ≡ (if b == c then true else is_logged l c l.n)
  written_logged c = elim (Bool-cases (slot == l.n)) [
    | inl new ↦ ground (arith, new, written_new, is_logged_ext written l c l.n written_below)
    | inr old ↦ ground (
      arith,
      old,
      absorb_lem l.block b l.n 0,
      is_logged_at l l.n slot,
      is_logged_ext written l c l.n written_below,
    )
  ]

  pub written-IsHome :
      IsHome l b
      → ((i : ℕ) → i < l.n → IsHome l (logged l i))
      → (i : ℕ) → i < written.n
      → IsHome l (logged written i)
  written-IsHome out home i lt =
      ground (arith, home i, written_below i, written_new, absorb_lem l.block b l.n 0)

-- The words for which `log.outstanding < 1` is false.
abbrev pub IsOpen : Log → Type 0
IsOpen l = (1 ≤ l.outstanding) × (l.outstanding < 2 ^ 31)

log_write_stored :
    (b : ℕ) (l : Log) (s : Store) (x : Block)
    → (fits : l.n < length l.block) → IsOpen l
    → l.n < logsize
    → l.n + 1 < l.size
    → log_write b l (set_data b x s)
      ≡ ok (written b l fits, record s { buf = update s.buf b x; dirty = update s.dirty b true })
unfolding log_write
log_write_stored b l s x fits op few room = ground arith

stored-IsValid :
    (b : ℕ) (l : Log) (s : Store) (x : Block) (fits : l.n < length l.block)
    → IsValid l s
    → IsHome l b
    → l.n < logsize
    → l.n + 1 < l.size
    → IsValid
        (written b l fits)
        (record s { buf = update s.buf b x; dirty = update s.dirty b true })
stored-IsValid b l s x fits v out few room = record {
  room = ground arith;
  fits = ground arith;
  entries = length-set l.block (slot b l fits) b ∙ v.entries;
  words = ground (arith, v.words);
  home = written-IsHome b l fits out v.home;
  clear = v.clear;
  synced = λ c miss. ground (arith, written_logged b l fits c, v.synced c);
  pinned = λ c. ground (arith, written_logged b l fits c, v.pinned c);
}

-- In a transaction with room in the log, a block outside the log whose buffer was changed gets a
-- pin and an entry: the call does not panic, the log stays valid, at most one entry is added, and
-- the logged blocks are those from before and this one.
pub log_write-IsValid :
    (b : ℕ) (l : Log) (s : Store) (x : Block)
    → IsValid l s
    → IsHome l b
    → IsOpen l
    → l.n < logsize
    → l.n + 1 < l.size
    → (l' : Log) × (s' : Store) × (log_write b l (set_data b x s) ≡ ok (l', s'))
      × IsValid l' s'
      × (l'.n ≤ l.n + 1)
      × ((c : ℕ) → is_logged l' c l'.n ≡ (if b == c then true else is_logged l c l.n))
log_write-IsValid b l s x v out op few room =
    let fits : l.n < length l.block = omega (arith, v.entries) in
    (
      written b l fits,
      record s { buf = update s.buf b x; dirty = update s.dirty b true },
      log_write_stored b l s x fits op few room,
      stored-IsValid b l s x fits v out few room,
      ground arith,
      written_logged b l fits,
    )

-- A full log or a call outside of a transaction is a panic, and nothing else is one.
pub log_write_panics :
    (b : ℕ) (l : Log) (s : Store)
    → (log_write b l s ≡ panic)
      ↔ ((logsize ≤ l.n) ⊎ (l.size - 1 ≤ l.n) ⊎ (l.outstanding < 1) ⊎ (2 ^ 31 ≤ l.outstanding))
unfolding log_write
log_write_panics b l s = (λ e. ground arith, λ e. ground arith)
