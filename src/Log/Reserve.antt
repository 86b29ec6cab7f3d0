-- ===== src/Log/Reserve.antt =====
-- `begin_op`, `log_write` and `end_op` of system/storage/log.c under any interleaving of system
-- calls: the space that `begin_op` reserves is enough, so no transaction is too big.
use dave.Common.{
  ℕ, ◌+◌, ◌-◌, ◌<◌, ◌≤◌, ◌≡◌, ◌≢◌, ◌⊎◌, refl, sym, ap, ◌∙◌, subst, arith, true, false, List, [],
  ◌∷◌, some, ok, panic, ◌==◌, length, get_or, set, length-set, Bool-cases, inl, inr,
}
use dave.Log.{
  Block, Log, Store, logsize, maxopblocks, set_data, log_write, begin_op, end_op, commit,
}
use dave.Log.Replay.{is_logged}
use dave.Log.Absorb.{
  slot, written, log_write-written, written_logged, absorb-is_logged, is_logged_ext,
}
use dave.Log.Shares.{
  has, noted, total, remove_at, Shares, HasAll, Recorded, total-set, total-remove_at,
  length-remove_at, total_at, total-Shares, Shares-set, Shares-remove_at, Recorded-at,
  Recorded-more, Recorded-set, Recorded-remove_at, Recorded-empty, has-noted,
}

-- The kernel seen by the log: for each call in progress, the blocks that it has written so far,
-- each of them once.
pub record System : Type 0 where
  pub log : Log
  pub store : Store
  pub calls : List (List ℕ)

-- A call begins when `begin_op` lets it; writes at most `maxopblocks` different blocks, each as often
-- as it likes; and ends, alone with the commit. A call that has to wait makes no step.
pub data Step : System → System → Type 0 where
  begins :
      (y : System) {l : Log}
      → begin_op y.log ≡ some l
      → Step y (record y { log = l; calls = [] ∷ y.calls })
  writes :
      (y : System) (i b : ℕ) (x : Block) {l : Log} {s : Store}
      → i < length y.calls
      → length (noted b (get_or y.calls i [])) ≤ maxopblocks
      → log_write b y.log (set_data b x y.store) ≡ ok (l, s)
      → Step y
          (record { log = l; store = s; calls = set y.calls i (noted b (get_or y.calls i [])) })
  ends :
      (y : System) (i : ℕ) {l : Log} {s : Store}
      → i < length y.calls
      → end_op y.log y.store ≡ ok (l, s)
      → Step y (record { log = l; store = s; calls = remove_at y.calls i })

pub data Reach (y : System) : System → Type 0 where
  here : Reach y y
  next : {z w : System} → Reach y z → Step z w → Reach y w

-- Every call in progress still has its share of the log, and its blocks are in the log.
pub record IsReserved (y : System) : Type 0 where
  pub counted : y.log.outstanding ≡ length y.calls
  pub reserved : y.log.n + total y.calls ≤ logsize
  pub shares : Shares y.calls
  pub few : length y.calls ≤ 3
  pub resting : y.log.committing ≡ false
  pub room : logsize < y.log.size
  pub entries : logsize ≤ length y.log.block
  pub recorded : Recorded y.log y.calls

-- What each call leaves of the log.
record Kept (l m : Log) : Type 0 where
  size : m.size ≡ l.size
  committing : m.committing ≡ l.committing
  outstanding : m.outstanding ≡ l.outstanding
  block : length m.block ≡ length l.block

-- A block gets a new entry only if the log does not have it.
module _ (b : ℕ) (l : Log) (fits : l.n < length l.block) where
  written-Kept : Kept l (written b l fits)
  written-Kept = record {
    size = refl;
    committing = refl;
    outstanding = refl;
    block = length-set l.block (slot b l fits) b;
  }

  written_more :
      (c : ℕ)
      → is_logged l c l.n ≡ true
      → is_logged (written b l fits) c (written b l fits).n ≡ true
  written_more c e = written_logged b l fits c ∙ ground (arith, e)

  written-HasAll : (ws : List ℕ) → HasAll l ws → HasAll (written b l fits) (noted b ws)
  written-HasAll ws h c e =
      let which = has-noted b c ws e in
      written_logged b l fits c ∙ elim (Bool-cases (b == c)) [
        | inl same ↦ ground (arith, same)
        | inr other ↦ ground (arith, other, which, h c)
      ]

  -- The entries used and the blocks that the call may still add are no more than before.
  written_share :
      (ws : List ℕ)
      → HasAll l ws
      → length (noted b ws) ≤ maxopblocks
      → (written b l fits).n + (maxopblocks - length (noted b ws)) ≤ l.n + (maxopblocks - length ws)
  written_share ws h le = elim (Bool-cases (has b ws)) [
    | inl old ↦ ground (arith, old, absorb-is_logged l b (h b old))
    | inr new ↦ ground (arith, new, le)
  ]

commit-Kept : (l : Log) (s : Store) → Kept l (commit l s).0
unfolding commit
commit-Kept l s = ground arith

-- `end_op` takes one call off the count; while others are in progress it keeps the entries.
end_op-Kept :
    (l m : Log) (s t : Store)
    → 1 ≤ l.outstanding
    → l.outstanding ≤ 3
    → end_op l s ≡ ok (m, t)
    → (m.size ≡ l.size)
      × (m.outstanding + 1 ≡ l.outstanding)
      × (m.committing ≡ false)
      × (m.n ≤ l.n)
      × (m.block ≡ l.block)
      × ((m.outstanding ≡ 0) ⊎ (m.n ≡ l.n))
unfolding end_op commit
end_op-Kept l m s t lo hi e = ground (arith, e)

-- A successful `log_write` had room for an entry.
log_write_room : (b : ℕ) (l m : Log) (s t : Store) → log_write b l s ≡ ok (m, t) → l.n < logsize
unfolding log_write
log_write_room b l m s t e = ground (arith, e)

same_entries :
    (l m : Log) (b : ℕ)
    → m.block ≡ l.block
    → m.n ≡ l.n
    → is_logged l b l.n ≡ true
    → is_logged m b m.n ≡ true
same_entries l m b blocks count e =
    ap (is_logged m b) count ∙ is_logged_ext m l b l.n (λ i lt. ap (λ bl. get_or bl i 0) blocks) ∙ e

Step-IsReserved : {y z : System} → Step y z → IsReserved y → IsReserved z
unfolding begin_op
Step-IsReserved (begins y {l} e) v =
    let t = total-Shares y.calls in
    record {
      counted = ground arith;
      reserved = ground arith;
      shares = (omega arith, v.shares);
      few = ground arith;
      resting = ground arith;
      room = ground arith;
      entries = ground arith;
      recorded = (
        λ b h. cc,
        Recorded-more y.log l y.calls (λ b. same_entries y.log l b (ground arith) (ground arith))
            v.recorded,
      );
    }
Step-IsReserved (writes y i b x {l} {s} lt le e) v =
    let ws : List ℕ = get_or y.calls i [] in
    let t = total_at y.calls i lt in
    let fits : y.log.n < length y.log.block =
      omega (arith, v.entries, log_write_room b y.log l _ s e) in
    let same : l ≡ written b y.log fits =
      log_write-written b y.log fits l (set_data b x y.store) s e in
    let h = Recorded-at y.log y.calls i v.recorded in
    let k = written-Kept b y.log fits in
    let share = written_share b y.log fits ws h le in
    let n = length-set y.calls i (noted b ws) in
    subst (λ m. IsReserved (record { log = m; store = s; calls = set y.calls i (noted b ws) }))
      (sym same)
      (record {
        counted = omega (arith, v.counted, n);
        reserved = omega (arith, total-set y.calls i (noted b ws) lt, t, share, v.reserved);
        shares = Shares-set y.calls i (noted b ws) le v.shares;
        few = omega (arith, v.few, n);
        resting = v.resting;
        room = v.room;
        entries = omega (arith, v.entries, k.block);
        recorded =
            Recorded-set (written b y.log fits) y.calls i (noted b ws)
              (written-HasAll b y.log fits ws h)
              (Recorded-more y.log (written b y.log fits) y.calls (written_more b y.log fits)
                v.recorded);
      })
Step-IsReserved (ends y i {l} {s} lt e) v =
    let (size, count, rest, le, blocks, which) =
      end_op-Kept y.log l y.store s (omega (arith, v.counted, lt)) (omega (arith, v.counted, v.few))
        e in
    let n = length-remove_at y.calls i lt in
    record {
      counted = omega (arith, v.counted);
      reserved = omega (arith, total-remove_at y.calls i, v.reserved);
      shares = Shares-remove_at y.calls i v.shares;
      few = omega (arith, v.few);
      resting = rest;
      room = omega (arith, v.room);
      entries = subst (λ (bl : List ℕ). logsize ≤ length bl) (sym blocks) v.entries;
      recorded = elim which [
        | inl last ↦ Recorded-empty l (remove_at y.calls i) (omega (arith, v.counted))
        | inr more ↦
            Recorded-remove_at l y.calls i
              (Recorded-more y.log l y.calls (λ b. same_entries y.log l b blocks more) v.recorded)
      ];
    }

-- Under any interleaving of system calls from a resting log, the entries and the blocks that the
-- calls in progress may still add fit in the log.
pub Reach-IsReserved : {y z : System} → IsReserved y → Reach y z → IsReserved z
Reach-IsReserved v here = v
Reach-IsReserved v (next r st) = Step-IsReserved st (Reach-IsReserved v r)

-- However system calls interleave, from a resting log on, a call in progress that has written fewer
-- than `maxopblocks` different blocks, each as often as it liked, does not make `log_write` panic,
-- neither for a new block nor for one that it wrote before.
pub log_write_never_panics :
    (y z : System) (i b : ℕ)
    → IsReserved y
    → Reach y z
    → i < length z.calls
    → length (get_or z.calls i []) < maxopblocks
    → log_write b z.log z.store ≢ panic
unfolding log_write
log_write_never_panics y z i b v r lt few e =
    let w = Reach-IsReserved v r in ground (arith, w, total_at z.calls i lt)

-- However system calls interleave, from a resting log on, `end_op` does not panic while a call is
-- in progress.
pub end_op_never_panics :
    (y z : System) (i : ℕ)
    → IsReserved y
    → Reach y z
    → i < length z.calls
    → end_op z.log z.store ≢ panic
unfolding end_op
end_op_never_panics y z i v r lt e = let w = Reach-IsReserved v r in ground (arith, w)
