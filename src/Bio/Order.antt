-- ===== src/Bio/Order.antt =====
-- `binit` and `brelse` of system/storage/bio.c keep the ring of buffers, in the order of last use.
use dave.Common.{
  ℕ, zero, suc, ◌+◌, ◌<◌, ◌≤◌, ◌≡◌, refl, sym, ap, subst, ◌≢◌, arith, true, false, Bool-cases, inl,
  inr, List, [], ◌∷◌, length, if◌then◌else◌, ◌==◌, update, sub32, Result, ok, panic,
}
use dave.Sleeplock.{lock_chan, holdingsleep, releasesleep}
use dave.Proc.{Table, wakeup}
use dave.Bio.{Buf, Cache, head, nbuf, push_front, unlink, binit, binit_from, brelse}
use dave.Bio.Ring.{Linked, Avoids, Distinct, Same, Same-update, Same-trans, Linked-Same}
use dave.Bio.Moves.{
  remove, Has, IsRing, Within-Avoids, Has-Within, remove-Distinct, remove-Within, removed-Avoids,
  unlinked,
}

-- All the buffers are in the list.
pub record IsFull (xs : List ℕ) : Type 0 where
  pub count : length xs ≤ nbuf
  pub all : (j : ℕ) → j < nbuf → Has j xs

pub unlink-IsRing :
    (b : ℕ) (c : Cache) (xs : List ℕ) → Has b xs → IsRing c xs → IsRing (unlink b c) (remove b xs)
unfolding unlink
unlink-IsRing b c xs h r = record {
  linked =
      let same : update c.prev (c.next b) (c.prev b) b ≡ c.prev b = ground arith in
      let out = Within-Avoids xs r.within in
      rw same (unlinked c.next c.prev head xs head b r.linked h out r.distinct out);
  distinct = remove-Distinct b xs r.distinct;
  within = remove-Within b xs r.within;
}

pub push_front-IsRing :
    (b : ℕ) (c : Cache) (xs : List ℕ)
    → b < nbuf
    → Avoids b xs
    → IsRing c xs
    → IsRing (push_front b c) (b ∷ xs)
unfolding push_front
push_front-IsRing b c xs lt out r = record {
  linked = linked xs out (Within-Avoids xs r.within) r.distinct r.linked;
  distinct = (out, r.distinct);
  within = (lt, r.within);
}
  where
    linked :
        (ys : List ℕ)
        → Avoids b ys
        → Avoids head ys
        → Distinct ys
        → Linked c.next c.prev head ys head
        → Linked (push_front b c).next (push_front b c).prev head (b ∷ ys) head
    linked [] ob oh d (n, p) =
        unfold push_front in
        (ground (arith, n), ground (arith, n), (ground (arith, n), ground (arith, n)))
    linked (y ∷ ys) (nb, ob) (nh, oh) (oy, d) (n, p, rest) =
        let prev1 : ℕ → ℕ = update c.prev b head in
        let first : update c.next b (c.next head) head ≡ y = ground (arith, n) in
        let at_first =
          subst (λ k. Same (update prev1 k b) prev1 ys) (sym first) (Same-update prev1 y b ys oy) in
        unfold push_front in
        (
          ground (arith, n),
          ground (arith, n, nb),
          (
            ground (arith, n),
            ground (arith, n),
            Linked-Same c.next c.prev _ _ y ys head
                (Same-trans _ _ _ (y ∷ ys) (Same-update _ head b (y ∷ ys) (nh, oh))
                  (Same-update c.next b _ (y ∷ ys) (nb, ob)))
                (Same-trans _ _ _ ys at_first (Same-update c.prev b head ys ob))
                (ground (arith, n, nh)) rest,
          ),
        )

Has-remove : (b j : ℕ) (xs : List ℕ) → Has j xs → Has j (b ∷ remove b xs)
Has-remove b j [] h = absurd h
Has-remove b j (x ∷ xs) h = elim (Bool-cases (x == b)) [
  | inl e ↦ let same : x ≡ b = ground arith in rw e (subst (λ q. Has j (q ∷ xs)) same h)
  | inr e ↦ rw e (elim h [
    | inl i ↦ inr (inl i)
    | inr k ↦ elim (Has-remove b j xs k) [ inl i ↦ inl i | inr m ↦ inr (inr m) ]
  ])
]

length-remove : (b : ℕ) (xs : List ℕ) → Has b xs → suc (length (remove b xs)) ≡ length xs
length-remove b [] h = absurd h
length-remove b (x ∷ xs) h = elim (Bool-cases (x == b)) [
  | inl e ↦ rw e refl
  | inr e ↦ rw e (elim h [
    | inl i ↦ absurd (ground (arith, e, i))
    | inr k ↦ ap (λ (n : ℕ). suc n) (length-remove b xs k)
  ])
]

remove-IsFull : (b : ℕ) (xs : List ℕ) → b < nbuf → IsFull xs → IsFull (b ∷ remove b xs)
remove-IsFull b xs lt f = record {
  count = omega (arith, length-remove b xs (f.all b lt), f.count);
  all = λ j in_j. Has-remove b j xs (f.all j in_j);
}

to_front :
    (b : ℕ) (c : Cache) (xs : List ℕ)
    → Has b xs
    → IsRing c xs
    → IsRing (push_front b (unlink b c)) (b ∷ remove b xs)
to_front b c xs h r =
    push_front-IsRing b (unlink b c) (remove b xs) (Has-Within b xs h r.within)
      (removed-Avoids b xs r.distinct) (unlink-IsRing b c xs h r)

-- The numbers below `n`, the largest first.
abbrev pub down : ℕ → List ℕ
down zero = []
down (suc n) = n ∷ down n

Avoids-down : (q n : ℕ) → n ≤ q → Avoids q (down n)
Avoids-down q zero le = tt
Avoids-down q (suc n) le = ((λ e. omega arith), Avoids-down q n (omega arith))

binit_from-IsRing :
    (k b : ℕ) (c : Cache)
    → b + k ≡ nbuf
    → IsRing c (down b)
    → IsRing (binit_from k b c) (down (b + k))
unfolding binit_from
binit_from-IsRing zero b c e r =
    let z : b + 0 ≡ b = omega arith in subst (λ n. IsRing c (down n)) (sym z) r
binit_from-IsRing (suc k) b c e r =
    let z : suc b + k ≡ b + suc k = omega arith in
    subst (λ n. IsRing (binit_from (suc k) b c) (down n)) z
      (binit_from-IsRing k (suc b) _ (omega arith) (
        push_front-IsRing b _ (down b) (omega arith) (Avoids-down b b (omega arith))
          (record { linked = r.linked; distinct = r.distinct; within = r.within })))

Has-down : (n j : ℕ) → j < n → Has j (down n)
Has-down zero j lt = absurd (omega arith)
Has-down (suc n) j lt = elim (Bool-cases (j == n)) [
  | inl e ↦ inl (ground arith)
  | inr e ↦ inr (Has-down n j (ground arith))
]

length-down : (n : ℕ) → length (down n) ≡ n
length-down zero = refl
length-down (suc n) = ap (λ (k : ℕ). suc k) (length-down n)

-- `binit` makes a ring of all the buffers, whatever the memory held.
pub binit-IsRing : (c : Cache) → IsRing (binit c) (down nbuf) × IsFull (down nbuf)
unfolding binit
binit-IsRing c = (
  binit_from-IsRing nbuf 0 _ refl (record { linked = (refl, refl); distinct = tt; within = tt }),
  record { count = omega (arith, length-down nbuf); all = λ j lt. Has-down nbuf j lt },
)

-- The order of the ring after a buffer was given back by its last user, or by another one.
abbrev pub order_after : ℕ → ℕ → List ℕ → List ℕ
order_after left b xs = if left == 0 then b ∷ remove b xs else xs

-- A buffer that a process gives back: unlocked, and with one user less.
abbrev pub given_back : Buf → Buf
given_back buf = record buf {
  lock = record (buf.lock) { locked = false; pid = 0 };
  refcnt = sub32 buf.refcnt 1;
}

abbrev pub BrelseSpec : ℕ → ℕ → Cache → Table → List ℕ → Result (Cache × Table) → Type 0
BrelseSpec pid b c ps xs panic = holdingsleep pid (c.bufs b).lock ≡ false
BrelseSpec pid b c ps xs (ok (c', ps')) =
    let ys = order_after (sub32 (c.bufs b).refcnt 1) b xs in
    (holdingsleep pid (c.bufs b).lock ≡ true)
    × (c'.bufs b ≡ given_back (c.bufs b))
    × ((j : ℕ) → j ≢ b → c'.bufs j ≡ c.bufs j)
    × (ps' ≡ wakeup (lock_chan (c.bufs b).lock) ps)
    × IsRing c' ys
    × IsFull ys

-- `brelse` panics exactly for a process that has not locked the buffer. Otherwise the lock is free,
-- who sleeps on it is woken, the buffer has one user less, and the other buffers are as they were.
-- The ring stays a ring of all the buffers, in which the buffer is the first one when nobody has it
-- any more, and keeps its place otherwise.
pub brelse_lem :
    (pid b : ℕ) (c : Cache) (ps : Table) (xs : List ℕ)
    → b < nbuf
    → IsRing c xs
    → IsFull xs
    → BrelseSpec pid b c ps xs (brelse pid b c ps)
unfolding brelse releasesleep push_front unlink
brelse_lem pid b c ps xs lt r f = elim (Bool-cases (holdingsleep pid (c.bufs b).lock)) [
  | inr e ↦ rw e e
  | inl e ↦ elim (Bool-cases (sub32 (c.bufs b).refcnt 1 == 0)) [
    | inl z ↦
        rw (e, z)
          (
            e,
            ground arith,
            λ j ne. ground (arith, ne),
            refl,
            to_front b _ xs (f.all b lt) (same _),
            remove-IsFull b xs lt f,
          )
    | inr z ↦ rw (e, z) (e, ground arith, λ j ne. ground (arith, ne), refl, same _, f)
  ]
]
  where
    same : (bufs : ℕ → Buf) → IsRing (record c { bufs = bufs }) xs
    same bufs = record { linked = r.linked; distinct = r.distinct; within = r.within }
