-- ===== src/Icache/Holders.antt =====
-- The references to the slots of the inode table of system/storage/fs.c, and who holds them.
use dave.Common.{
  ℕ, suc, ◌+◌, ◌<◌, ◌≡◌, ◌⊎◌, ◌&&◌, if◌then◌else◌, ◌==◌, update, ok, List, [], ◌∷◌, length,
  word_size,
}
use dave.Fs.{Super, Disk}
use dave.Inodes.{Inode}
use dave.Icache.{Icache, ninode, iget, idup, iput}
use dave.Icache.Keeping.{SameInode}
use dave.Icache.Slots.{OnePer}

-- A handle is a slot and the number of the inode that its holder asked for.
abbrev pub Handles : Type 0
Handles = List (ℕ × ℕ)

abbrev pub count : ℕ → Handles → ℕ
count i [] = 0
count i ((j, n) ∷ hs) = (if j == i then 1 else 0) + count i hs

abbrev pub Holds : ℕ → ℕ → Handles → Type 0
Holds i n [] = ⊥
Holds i n ((j, m) ∷ hs) = ((i ≡ j) × (n ≡ m)) ⊎ Holds i n hs

abbrev pub give_back : ℕ → ℕ → Handles → Handles
give_back i n [] = []
give_back i n ((j, m) ∷ hs) =
    let rest = give_back i n hs in if j == i && m == n then hs else (j, m) ∷ rest

pub record World : Type 0 where
  pub cache : Icache
  pub disk : Disk
  pub held : Handles

-- Whoever has a handle may lock the inode and change all but its number and references.
pub data Step (sb : Super) : World → World → Type 0 where
  gets :
      (w : World) (inum i : ℕ) (ic' : Icache)
      → suc (length w.held) < word_size
      → iget inum w.cache ≡ ok (i, ic')
      → Step sb w (record w { cache = ic'; held = (i, inum) ∷ w.held })
  dups :
      (w : World) (i n : ℕ)
      → suc (length w.held) < word_size
      → Holds i n w.held
      → Step sb w (record w { cache = (idup i w.cache).1; held = (i, n) ∷ w.held })
  puts :
      (w : World) (i n : ℕ) (ic' : Icache) (s' : Disk)
      → Holds i n w.held
      → iput sb i w.cache w.disk ≡ ok (ic', s')
      → Step sb w (record { cache = ic'; disk = s'; held = give_back i n w.held })
  changes :
      (w : World) (i n : ℕ) (ip : Inode) (s' : Disk)
      → Holds i n w.held
      → SameInode (w.cache i) ip
      → Step sb w (record w { cache = update w.cache i ip; disk = s' })

pub data Reach (sb : Super) : World → World → Type 0 where
  here : (w : World) → Reach sb w w
  later : (u v w : World) → Reach sb u v → Step sb v w → Reach sb u w

-- The references of a slot are the handles on it, a handle's slot has the inode that it asked for,
-- and no inode is in two slots.
pub record IsCounted (w : World) : Type 0 where
  pub counted : (i : ℕ) → i < ninode → (w.cache i).ref ≡ count i w.held
  pub numbers : (i n : ℕ) → Holds i n w.held → (i < ninode) × ((w.cache i).inum ≡ n)
  pub one_per : OnePer w.cache
  pub bounded : length w.held < word_size
