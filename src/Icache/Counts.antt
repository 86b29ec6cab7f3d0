-- ===== src/Icache/Counts.antt =====
-- Counting the holders of the inodes in memory (system/storage/fs.c).
use dave.Common.{
  ℕ, suc, ◌+◌, ◌<◌, ◌≤◌, ◌≡◌, ◌≢◌, sym, ap, ◌∙◌, subst, arith, true, ◌&&◌, Bool-cases, inl, inr,
  if◌then◌else◌, ◌==◌, update, add32, [], ◌∷◌, length, word_size,
}
use dave.Fs.{Disk}
use dave.Inodes.{Inode}
use dave.Icache.{Icache, ninode, is_cached}
use dave.Icache.Slots.{Got}
use dave.Icache.Holders.{Handles, count, Holds, give_back, World, IsCounted}

pub count_le : (i : ℕ) (hs : Handles) → count i hs ≤ length hs
count_le i [] = omega arith
count_le i ((j, n) ∷ hs) = ground (arith, count_le i hs)

pub Holds-count : (i n : ℕ) (hs : Handles) → Holds i n hs → 0 < count i hs
Holds-count i n [] h = absurd h
Holds-count i n ((j, m) ∷ hs) (inl (e, g)) = ground (arith, e)
Holds-count i n ((j, m) ∷ hs) (inr h) = ground (arith, Holds-count i n hs h)

pub count-give_back :
    (i n : ℕ) (hs : Handles) (j : ℕ)
    → Holds i n hs
    → count j hs ≡ (if i == j then 1 else 0) + count j (give_back i n hs)
count-give_back i n [] j h = absurd h
count-give_back i n ((k, m) ∷ hs) j h = elim (Bool-cases (k == i && m == n)) [
  | inl e ↦ rw e (ground (arith, e))
  | inr e ↦ rw e (elim h [
    | inl (a, b) ↦ absurd (ground (arith, e, a, b))
    | inr h' ↦ ground (arith, count-give_back i n hs j h')
  ])
]

pub give_back-Holds :
    (i n : ℕ) (hs : Handles) (j m : ℕ) → Holds j m (give_back i n hs) → Holds j m hs
give_back-Holds i n [] j m h = h
give_back-Holds i n ((k, q) ∷ hs) j m h = elim (Bool-cases (k == i && q == n)) [
  | inl e ↦ let all : Holds j m hs = rw e at h in inr all
  | inr e ↦
      let parts : Holds j m ((k, q) ∷ give_back i n hs) = rw e at h in
      elim parts [ inl same ↦ inl same | inr more ↦ inr (give_back-Holds i n hs j m more) ]
]

pub length-give_back : (i n : ℕ) (hs : Handles) → length (give_back i n hs) ≤ length hs
length-give_back i n [] = omega arith
length-give_back i n ((k, m) ∷ hs) = elim (Bool-cases (k == i && m == n)) [
  | inl e ↦ rw e (omega arith)
  | inr e ↦ rw e (omega (arith, length-give_back i n hs))
]

module _ (w : World) (v : IsCounted w) where
  -- A slot that somebody holds is in use.
  pub held_ref : (i n : ℕ) → Holds i n w.held → (w.cache i).ref ≢ 0
  held_ref i n h e = omega (arith, v.counted i (v.numbers i n h).0, Holds-count i n w.held h)

  pub gets-IsCounted :
      (inum i : ℕ) (ic' : Icache)
      → suc (length w.held) < word_size
      → Got inum i w.cache ic'
      → IsCounted (record w { cache = ic'; held = (i, inum) ∷ w.held })
  gets-IsCounted inum i ic' lt g = record {
    counted = λ j in_j. elim (Bool-cases (i == j)) [
      | inl e ↦
          let same : i ≡ j = ground arith in
          let le = count_le j w.held in
          let c = v.counted j in_j in
          ap (λ k. (ic' k).ref) (sym same)
          ∙ g.counted
          ∙ ap (λ k. add32 (w.cache k).ref 1) same
          ∙ ground (arith, e, c, le)
      | inr e ↦
          ap (λ (p : Inode). p.ref) (g.others j (λ h. ground (arith, e, h)))
          ∙ ground (arith, e, v.counted j in_j)
    ];
    numbers = λ j m h. elim h [
      | inl (a, b) ↦ (omega (arith, g.inside, a), ap (λ k. (ic' k).inum) a ∙ g.number ∙ sym b)
      | inr h' ↦ (
        (v.numbers j m h').0,
        (elim (Bool-cases (i == j)) [
          | inl e ↦
              let same : i ≡ j = ground arith in
              let used = λ (z : (w.cache i).ref ≡ 0).
                held_ref j m h' (ap (λ k. (w.cache k).ref) (sym same) ∙ z) in
              ap (λ k. (ic' k).inum) (sym same)
              ∙ g.number
              ∙ sym (g.kept used).0
              ∙ ap (λ k. (w.cache k).inum) same
              ∙ (v.numbers j m h').1
          | inr e ↦
              ap (λ (p : Inode). p.inum) (g.others j (λ k. ground (arith, e, k)))
              ∙ (v.numbers j m h').1
        ]),
      )
    ];
    one_per = g.one_per v.one_per;
    bounded = lt;
  }

  -- One slot has changed, but not its number, and its references are those of the handles.
  pub slot_changed :
      (i : ℕ) (ip : Inode) (s' : Disk) (hs : Handles)
      → (w.cache i).ref ≢ 0
      → i < ninode
      → ip.inum ≡ (w.cache i).inum
      → ip.ref ≡ count i hs
      → ((j : ℕ) → j ≢ i → count j hs ≡ count j w.held)
      → ((j m : ℕ) → Holds j m hs → (j < ninode) × ((w.cache j).inum ≡ m))
      → length hs < word_size
      → IsCounted (record { cache = update w.cache i ip; disk = s'; held = hs })
  slot_changed i ip s' hs used in_i number ref others handles bounded = record {
    counted = λ j in_j. elim (Bool-cases (j == i)) [
      | inl e ↦
          let same : j ≡ i = ground arith in
          ground (arith, e) ∙ ref ∙ ap (λ k. count k hs) (sym same)
      | inr e ↦
          let ne : j ≢ i = λ h. ground (arith, e, h) in
          ground (arith, e) ∙ v.counted j in_j ∙ sym (others j ne)
    ];
    numbers = λ j m h.
        let (in_j, n) = handles j m h in
        (
          in_j,
          elim (Bool-cases (j == i)) [
            | inl e ↦
                let same : j ≡ i = ground arith in
                ground (arith, e) ∙ number ∙ ap (λ k. (w.cache k).inum) (sym same) ∙ n
            | inr e ↦ ground (arith, e) ∙ n
          ],
        );
    one_per = λ n j k in_j in_k at_j at_k.
        v.one_per n j k in_j in_k (was_cached n j at_j) (was_cached n k at_k);
    bounded = bounded;
  }
    where
      was_cached :
          (n j : ℕ) → is_cached n (update w.cache i ip j) ≡ true → is_cached n (w.cache j) ≡ true
      was_cached n j e = elim (Bool-cases (j == i)) [
        | inl h ↦
            let same : j ≡ i = ground arith in
            subst (λ k. is_cached n (w.cache k) ≡ true) (sym same)
              (ground (arith, e, h, used, number))
        | inr h ↦ ground (arith, e, h)
      ]
