-- ===== src/Inodes/Layout.antt =====
-- Shorts and words in the blocks of system/storage/fs.c.
use dave.Common.{ℕ, ◌+◌, ◌<◌, ◌≤◌, ◌≡◌, ◌≢◌, ◌⊎◌, arith, word_size}
use dave.Fs.{Disk}
use dave.Inodes.{short_at, word_at, put_short, put_word}

-- The bytes of a block but for those from `off` to `off + n`.
abbrev pub Outside : ℕ → ℕ → ℕ → ℕ → ℕ → Type 0
Outside b off n q o = (q ≢ b) ⊎ ((o < off) ⊎ (off + n ≤ o))

pub put_short-Outside :
    (b off x : ℕ) (s : Disk) (q o : ℕ)
    → Outside b off 2 q o
    → (put_short b off x s).bytes q o ≡ s.bytes q o
unfolding put_short
put_short-Outside b off x s q o out = ground arith

pub put_word-Outside :
    (b off x : ℕ) (s : Disk) (q o : ℕ)
    → Outside b off 4 q o
    → (put_word b off x s).bytes q o ≡ s.bytes q o
unfolding put_word put_short
put_word-Outside b off x s q o out = ground arith

pub put_word-small :
    (b off x : ℕ) (s : Disk) (q o : ℕ) → s.bytes q o < 256 → (put_word b off x s).bytes q o < 256
unfolding put_word put_short
put_word-small b off x s q o small = ground arith

pub short_at-put_short :
    (b off x : ℕ) (s : Disk) → x < 65536 → short_at (put_short b off x s) b off ≡ x
unfolding put_short
short_at-put_short b off x s small = ground arith

pub word_at-put_word :
    (b off x : ℕ) (s : Disk) → x < word_size → word_at (put_word b off x s) b off ≡ x
unfolding put_word put_short
word_at-put_word b off x s small = ground arith

-- Another word.
abbrev pub Apart : ℕ → ℕ → ℕ → ℕ → Type 0
Apart b off q o = (q ≢ b) ⊎ ((o + 4 ≤ off) ⊎ (off + 4 ≤ o))

pub word_at-put_word_ne :
    (b off x : ℕ) (s : Disk) (q o : ℕ)
    → Apart b off q o
    → word_at (put_word b off x s) q o ≡ word_at s q o
unfolding put_word put_short
word_at-put_word_ne b off x s q o out = ground arith

pub word_at-same :
    (s t : Disk) (b : ℕ)
    → ((o : ℕ) → t.bytes b o ≡ s.bytes b o)
    → (o : ℕ) → word_at t b o ≡ word_at s b o
word_at-same s t b same o = ground (arith, same o, same (o + 1), same (o + 2), same (o + 2 + 1))
