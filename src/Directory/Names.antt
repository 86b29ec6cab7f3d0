-- ===== src/Directory/Names.antt =====
-- The names in the entries of a directory (system/storage/fs.c).
use dave.Common.{
  ℕ, zero, suc, ◌+◌, ◌-◌, ◌<◌, ◌≡◌, refl, sym, ap, ◌∙◌, subst, arith, true, false, ◌&&◌, Bool-cases,
  inl, inr, List, [], ◌∷◌, ◌==◌, ltb, leb, get_or,
}
use dave.Strings.{Memory, strncpy}
use dave.Strings.Compare.{IsBytes, SameString, strncmp_iff}
use dave.Strings.Copies.{string_byte, copied, strncpy_lem}
use dave.Inodes.Storing.{Bytes}
use dave.Directory.{dirsiz, two_names, namecmp, bytes_from, name_field}

SameString-string_byte :
    (p q n : ℕ) (m m' : Memory)
    → ((i : ℕ) → i < n → m (p + i) ≡ m' (p + i))
    → ((i : ℕ) → i < n → m (q + i) ≡ string_byte p i m')
    → SameString p q n m
SameString-string_byte p q zero m m' same copy = tt
SameString-string_byte p q (suc n) m m' same copy =
    let first : m p ≡ m' p = ap m (omega arith) ∙ same 0 (omega arith) ∙ ap m' (omega arith) in
    let second : m q ≡ m' p = ap m (omega arith) ∙ copy 0 (omega arith) in
    (
      first ∙ sym second,
      elim (Bool-cases (m' p == 0)) [
        | inl z ↦ inl (first ∙ ground arith)
        | inr more ↦ inr (
            SameString-string_byte (p + 1) (q + 1) n m m'
              (λ i lt. ap m (omega arith) ∙ same (suc i) (omega arith) ∙ ap m' (omega arith))
              (λ i lt. ap m (omega arith) ∙ copy (suc i) (omega arith) ∙ rw more refl))
      ],
    )

get_or-bytes_from : (m : Memory) (a n i : ℕ) → i < n → get_or (bytes_from m a n) i 0 ≡ m (a + i)
get_or-bytes_from m a zero i lt = absurd (omega arith)
get_or-bytes_from m a (suc n) zero lt = ap m (omega arith)
get_or-bytes_from m a (suc n) (suc i) lt =
    get_or-bytes_from m (a + 1) n i (omega arith) ∙ ap m (omega arith)

get_or-byte : (xs : List ℕ) (i : ℕ) → Bytes xs → get_or xs i 0 < 256
get_or-byte [] i b = omega arith
get_or-byte (x ∷ xs) zero b = b.0
get_or-byte (x ∷ xs) (suc i) b = get_or-byte xs i b.1

pub name_field_lem :
    (name : List ℕ) (i : ℕ)
    → i < dirsiz
    → get_or (name_field name) i 0 ≡ string_byte 0 i (two_names name [])
unfolding name_field
name_field_lem name i lt =
    let copy = strncpy_lem 16 0 14 (16 + i) (two_names name []) (omega arith) (inr (omega arith)) in
    let inside : (leb 16 (16 + i) && ltb (16 + i) 30) ≡ true = ground (arith, lt) in
    let index : 16 + i - 16 ≡ i = omega arith in
    get_or-bytes_from (strncpy 16 0 14 (two_names name [])) 16 14 i lt
    ∙ copy
    ∙ rw (inside, index) refl

string_byte-small : (p i : ℕ) (m : Memory) → IsBytes m → string_byte p i m < 256
string_byte-small p zero m b = b p
string_byte-small p (suc i) m b = ground (arith, string_byte-small (p + 1) i m b)

two_names-IsBytes : (s t : List ℕ) → Bytes s → Bytes t → IsBytes (two_names s t)
two_names-IsBytes s t bs bt a = ground (arith, get_or-byte s a bs, get_or-byte t (a - 16) bt)

bytes_from-Bytes :
    (m : Memory) (a n : ℕ) → ((i : ℕ) → i < n → m (a + i) < 256) → Bytes (bytes_from m a n)
bytes_from-Bytes m a zero small = tt
bytes_from-Bytes m a (suc n) small = (
  let e : a + 0 ≡ a = omega arith in subst (λ k. m k < 256) e (small 0 (omega arith)),
  bytes_from-Bytes m (a + 1) n (λ i lt.
      let e : a + suc i ≡ a + 1 + i = omega arith in
      subst (λ k. m k < 256) e (small (suc i) (omega arith))),
)

pub name_field-Bytes : (name : List ℕ) → Bytes name → Bytes (name_field name)
unfolding name_field
name_field-Bytes name b = bytes_from-Bytes (strncpy 16 0 14 (two_names name [])) 16 14 (λ i lt.
    let copy = strncpy_lem 16 0 14 (16 + i) (two_names name []) (omega arith) (inr (omega arith)) in
    let inside : (leb 16 (16 + i) && ltb (16 + i) 30) ≡ true = ground (arith, lt) in
    let index : 16 + i - 16 ≡ i = omega arith in
    let shown : copied 16 0 14 (two_names name []) (16 + i) ≡ string_byte 0 i (two_names name []) =
      rw (inside, index) refl in
    omega (
      arith,
      copy,
      shown,
      string_byte-small 0 i (two_names name []) (two_names-IsBytes name [] b tt),
    ))

-- A name compares equal with the field that holds it.
pub namecmp-name_field : (name : List ℕ) → Bytes name → namecmp name (name_field name) ≡ 0
unfolding namecmp
namecmp-name_field name b =
    let m : Memory = two_names name (name_field name) in
    (strncmp_iff 0 16 14 m (two_names-IsBytes name (name_field name) b (name_field-Bytes name b))).1
      (SameString-string_byte 0 16 14 m (two_names name []) (λ i lt. ground (arith, lt))
        (λ i lt.
          let index : 16 + i - 16 ≡ i = omega arith in
          let high : ltb (16 + i) 16 ≡ false = ground arith in
          rw (high, index) (name_field_lem name i lt)))
