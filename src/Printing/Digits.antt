-- ===== src/Printing/Digits.antt =====
-- The characters that `printint` of system/devices/console.c prints read back as its number.
use native.Mathlib.Nat.{div-lt_iff_lt-mul, mod-add-div, mod-lt, mul_comm, pow-succ', pow-zero}
use dave.Common.{
  ℕ, zero, suc, ◌+◌, ◌-◌, ◌*◌, ◌/◌, ◌%◌, ◌^◌, ◌<◌, ◌≤◌, ◌≡◌, ◌⊎◌, inl, inr, refl, sym, ap, ◌∙◌,
  arith, Bool, true, ◌&&◌, List, [], ◌∷◌, ◌++◌, Option, some, if◌then◌else◌, ◌==◌, ltb, length,
  sub32, is_negative, word_size, Bool-cases, subst,
}
use dave.Printing.{buf_size, digit, put, digits_from, backwards, minus, printint, finish}

abbrev pub digit_value : ℕ → ℕ
digit_value c = if ltb c 58 then c - 48 else c - 87

-- Reading a numeral, the highest digit first.
abbrev pub read_from : ℕ → ℕ → List ℕ → ℕ
read_from base acc [] = acc
read_from base acc (c ∷ cs) = read_from base (acc * base + digit_value c) cs

-- The same number, the lowest digit first.
abbrev low_value : ℕ → List ℕ → ℕ
low_value base [] = 0
low_value base (c ∷ cs) = digit_value c + base * low_value base cs

read_from-append :
    (base acc c : ℕ) (cs : List ℕ)
    → read_from base acc (cs ++ c ∷ []) ≡ read_from base acc cs * base + digit_value c
read_from-append base acc c [] = refl
read_from-append base acc c (x ∷ xs) = read_from-append base (acc * base + digit_value x) c xs

read-backwards : (base : ℕ) (cs : List ℕ) → read_from base 0 (backwards cs) ≡ low_value base cs
read-backwards base [] = refl
read-backwards base (c ∷ cs) =
    read_from-append base 0 c (backwards cs)
    ∙ ap (λ n. n * base + digit_value c) (read-backwards base cs)
    ∙ swap (low_value base cs)
  where
    swap : (n : ℕ) → n * base + digit_value c ≡ digit_value c + base * n
    swap n = ground (arith, mul_comm n base)

digit_value-digit : (d : ℕ) → d < 16 → digit_value (digit d) ≡ d
digit_value-digit d small = ground arith

abbrev IsNumeral : ℕ → ℕ → ℕ → Option (List ℕ) → Type 0
IsNumeral base x len o = (ds : List ℕ) × (o ≡ some ds) × (low_value base ds ≡ x) × (length ds ≤ len)

quotient_fits : (k base x : ℕ) → 1 < base → x < base ^ suc k → x / base < base ^ k
quotient_fits k base x two fits =
    (div-lt_iff_lt-mul {k = base} (omega arith)).1
      (subst (λ n. x < n) (pow-succ' base k ∙ mul_comm base (base ^ k)) fits)

put-IsNumeral :
    (base x len : ℕ) (o : Option (List ℕ))
    → 1 < base
    → base ≤ 16
    → IsNumeral base (x / base) len o
    → IsNumeral base x (suc len) (put (digit (x % base)) o)
put-IsNumeral base x len o two small (ds, e, value, le) = (
  digit (x % base) ∷ ds,
  ap (put (digit (x % base))) e,
  ap (λ n. n + base * low_value base ds) (digit_value-digit (x % base) below)
      ∙ ap (λ n. x % base + base * n) value
      ∙ mod-add-div x base,
  omega (arith, le),
)
  where
    below : x % base < 16
    below = omega (arith, mod-lt x {m = base} (omega arith))

last-IsNumeral :
    (base x len : ℕ)
    → 1 < base
    → base ≤ 16
    → x / base ≡ 0
    → IsNumeral base x (suc len) (some (digit (x % base) ∷ []))
last-IsNumeral base x len two small none_left = (
  digit (x % base) ∷ [],
  refl,
  ap (λ n. n + base * 0) (digit_value-digit (x % base) below)
      ∙ ap (λ n. x % base + base * n) (sym none_left)
      ∙ mod-add-div x base,
  omega arith,
)
  where
    below : x % base < 16
    below = omega (arith, mod-lt x {m = base} (omega arith))

digits_from_lem :
    (k places base x : ℕ)
    → 1 < base
    → base ≤ 16
    → x < base ^ suc k
    → suc k ≤ places
    → IsNumeral base x (suc k) (digits_from places base x)
unfolding digits_from
digits_from_lem k zero base x two small fits room = absurd (omega arith)
digits_from_lem zero (suc places) base x two small fits room =
    let none_left : (x / base == 0) ≡ true =
      ground (arith, pow-zero base, quotient_fits 0 base x two fits) in
    rw none_left (last-IsNumeral base x 0 two small (ground (arith, none_left)))
digits_from_lem (suc k) (suc places) base x two small fits room =
    elim (Bool-cases (x / base == 0)) [
      | inl none_left ↦
          rw none_left (last-IsNumeral base x (suc k) two small (ground (arith, none_left)))
      | inr more ↦ rw more (
          put-IsNumeral base x (suc k) _ two small (
            digits_from_lem k places base (x / base) two small
              (quotient_fits (suc k) base x two fits) (omega arith)))
    ]

numeral :
    (base x : ℕ)
    → (base ≡ 10) ⊎ (base ≡ 16)
    → x < word_size
    → IsNumeral base x 10 (digits_from buf_size base x)
numeral base x (inl e) word =
    rw e (digits_from_lem 9 buf_size 10 x (omega arith) (omega arith) (omega arith) (omega arith))
numeral base x (inr e) word =
    rw e (digits_from_lem 9 buf_size 16 x (omega arith) (omega arith) (omega arith) (omega arith))

backwards-append : (xs : List ℕ) (c : ℕ) → backwards (xs ++ c ∷ []) ≡ c ∷ backwards xs
backwards-append [] c = refl
backwards-append (x ∷ xs) c = ap (λ l. l ++ x ∷ []) (backwards-append xs c)

finish_negative :
    (ds : List ℕ) → length ds ≤ 10 → finish true (some ds) ≡ some (minus ∷ backwards ds)
finish_negative ds le =
    let room : ltb (length ds) buf_size ≡ true = ground arith in
    rw room (ap some (backwards-append ds minus))

-- For the bases 10 and 16 that the kernel uses and every word, `printint` stays within its 16
-- places of `buf`, and prints a numeral that reads back as the number: as the unsigned word, or,
-- for a negative `int` that is printed signed, behind a minus sign as its absolute value.
pub printint_lem :
    (xx base : ℕ) (sign : Bool)
    → (base ≡ 10) ⊎ (base ≡ 16)
    → xx < word_size
    → (cs : List ℕ) × (printint xx base sign
        ≡ some (if sign && is_negative xx then minus ∷ cs else cs))
      × (read_from base 0 cs ≡ (if sign && is_negative xx then word_size - xx else xx))
unfolding printint
printint_lem xx base sign is_base word = elim (Bool-cases (sign && is_negative xx)) [
  | inl neg ↦
      let (ds, e, value, le) = numeral base (sub32 0 xx) is_base (omega arith) in
      rw (neg, e)
        (backwards ds, finish_negative ds le, read-backwards base ds ∙ value ∙ ground (arith, neg))
  | inr plus ↦
      let (ds, e, value, le) = numeral base xx is_base word in
      rw (plus, e) (backwards ds, refl, read-backwards base ds ∙ value)
]
