-- ===== src/Digits/Value.antt =====
-- itoa writes the number: reading the digits back gives the value.
use native.Mathlib.Nat.{mod-lt, div-add-mod, div-lt_iff_lt-mul, pow-suc}
use pony_os.Base.{
  false, ℕ, zero, suc, ◌+◌, ◌-◌, ◌*◌, ◌/◌, ◌%◌, ◌^◌, ◌≤◌, ◌<◌, ◌≡◌, refl, ◌∙◌, arith, some, List,
  [], ◌∷◌, ◌++◌, length, get_or, length-append, ltb, ◌==◌, if◌then◌else◌,
}
use native.Mathlib.Decide.{ℕ_discrete}
use pony_os.Memory.{Memory, store}
use pony_os.FileSystem.{store_bytes}
use pony_os.Terminal.Read.{AreChars}
use pony_os.Digits.{lookup, itoa_loop}

-- The number that digits stand for, the highest first, behind the number `n`.
unfoldable pub digit : ℕ → ℕ
digit c = if ltb c 65 then c - 48 else c - 55

unfoldable pub number : ℕ → ℕ → List ℕ → ℕ
unfolding digit
number radix n [] = n
number radix n (c ∷ cs) = number radix (n * radix + digit c) cs

-- The digits that the loop writes, the lowest first.
pub low_digits : ℕ → ℕ → ℕ → List ℕ
low_digits radix zero v = []
low_digits radix (suc fuel) v =
    let rest = lookup (v % radix) ∷ low_digits radix fuel (v / radix) in if v == 0 then [] else rest

-- Turned round.
pub high_digits : ℕ → ℕ → ℕ → List ℕ
high_digits radix zero v = []
high_digits radix (suc fuel) v =
    let rest = high_digits radix fuel (v / radix) ++ lookup (v % radix) ∷ [] in
    if v == 0 then [] else rest

digit-lookup : (i : ℕ) → i < 36 → digit (lookup i) ≡ i
unfolding digit lookup
digit-lookup i h = ground arith

lookup_char : (i : ℕ) → i < 36 → (0 < lookup i) × (lookup i < 256)
unfolding lookup
lookup_char i h = ground arith

number-append :
    (radix n c : ℕ) (cs : List ℕ)
    → number radix n (cs ++ c ∷ []) ≡ number radix n cs * radix + digit c
unfolding number
number-append radix n c [] = refl
number-append radix n c (d ∷ cs) = number-append radix (n * radix + digit d) c cs

pub AreChars-cons : (c : ℕ) (cs : List ℕ) → (0 < c) × (c < 256) → AreChars cs → AreChars (c ∷ cs)
AreChars-cons c cs h hs zero p = h
AreChars-cons c cs h hs (suc i) p = hs i (omega arith)

get_or-append_last :
    (xs : List ℕ) (c i : ℕ)
    → i ≤ length xs
    → get_or (xs ++ c ∷ []) i 0 ≡ (if i == length xs then c else get_or xs i 0)
get_or-append_last [] c zero p = refl
get_or-append_last [] c (suc i) p = absurd (omega arith)
get_or-append_last (x ∷ xs) c zero p = ground arith
get_or-append_last (x ∷ xs) c (suc i) p = ground (arith, get_or-append_last xs c i)

module _ (radix : ℕ) (low : 2 ≤ radix) (high : radix ≤ 36) where
  smaller : (fuel v : ℕ) → v < 2 ^ suc fuel → v / radix < 2 ^ fuel
  smaller fuel v h =
      (div-lt_iff_lt-mul {k = radix} {x = v} {y = 2 ^ fuel} (omega arith)).1
        (grind (arith, pow-suc 2 fuel))

  pub number-high_digits :
      (fuel v : ℕ) → v < 2 ^ fuel → number radix 0 (high_digits radix fuel v) ≡ v
  unfolding high_digits number
  number-high_digits zero v h = omega arith
  number-high_digits (suc fuel) v h = elim (ℕ_discrete v 0) [
    | yes nothing ↦ ground arith
    | no something ↦
        let more : v == 0 ≡ false = ground arith in
        rw more (
          number-append radix 0 (lookup (v % radix)) (high_digits radix fuel (v / radix))
          ∙ rw
              (
                number-high_digits fuel (v / radix) (smaller fuel v h),
                digit-lookup (v % radix) (omega (arith, mod-lt v {m = radix} (omega arith))),
              )
              (grind (arith, div-add-mod v radix)))
  ]

  -- The loop's stores.
  pub itoa_loop-low_digits :
      (task fuel v buf : ℕ) (m : Memory)
      → v < 2 ^ fuel
      → itoa_loop task fuel m buf v radix
        ≡ some (
          store_bytes task m buf (low_digits radix fuel v),
          buf + length (low_digits radix fuel v),
        )
  unfolding itoa_loop low_digits store_bytes
  itoa_loop-low_digits task zero v buf m h = ground arith
  itoa_loop-low_digits task (suc fuel) v buf m h = elim (ℕ_discrete v 0) [
    | yes nothing ↦ ground arith
    | no something ↦
        let more : v == 0 ≡ false = ground arith in
        rw more (
          itoa_loop-low_digits task fuel (v / radix) (buf + 1)
            (store task m buf (lookup (v % radix))) (smaller fuel v h)
          ∙ ground arith)
  ]

  pub low_digits-AreChars : (fuel v : ℕ) → AreChars (low_digits radix fuel v)
  unfolding low_digits
  low_digits-AreChars zero v = λ i p. absurd (omega arith)
  low_digits-AreChars (suc fuel) v = elim (ℕ_discrete v 0) [
    | yes nothing ↦ rw nothing (λ i p. absurd (omega arith))
    | no something ↦
        let more : v == 0 ≡ false = ground arith in
        rw more (
          AreChars-cons _ _
            (lookup_char (v % radix) (omega (arith, mod-lt v {m = radix} (omega arith))))
            (low_digits-AreChars fuel (v / radix)))
  ]

pub length-high_digits :
    (radix fuel v : ℕ) → length (high_digits radix fuel v) ≡ length (low_digits radix fuel v)
unfolding high_digits low_digits
length-high_digits radix zero v = refl
length-high_digits radix (suc fuel) v = ground (
  arith,
  length-high_digits radix fuel (v / radix),
  length-append (high_digits radix fuel (v / radix)) (lookup (v % radix) ∷ []),
)

turned :
    (high' low' : List ℕ) (c i : ℕ)
    → length high' ≡ length low'
    → ((j : ℕ) → j < length low' → get_or high' j 0 ≡ get_or low' (length low' - 1 - j) 0)
    → i < suc (length low')
    → get_or (high' ++ c ∷ []) i 0 ≡ get_or (c ∷ low') (suc (length low') - 1 - i) 0
turned high' low' c i size inner p =
    get_or-append_last high' c i (omega arith) ∙ (elim (ℕ_discrete i (length low')) [
      | yes last ↦
          let first : suc (length low') - 1 - i ≡ 0 = omega arith in rw first (ground arith)
      | no before ↦
          let later : suc (length low') - 1 - i ≡ suc (length low' - 1 - i) = omega arith in
          rw later (ground (arith, inner i))
    ])

-- The one list is the other one turned round.
pub high_digits-low_digits :
    (radix fuel v i : ℕ)
    → i < length (low_digits radix fuel v)
    → get_or (high_digits radix fuel v) i 0
      ≡ get_or (low_digits radix fuel v) (length (low_digits radix fuel v) - 1 - i) 0
unfolding high_digits low_digits
high_digits-low_digits radix zero v i = λ p. absurd (omega arith)
high_digits-low_digits radix (suc fuel) v i = elim (ℕ_discrete v 0) [
  | yes nothing ↦ rw nothing (λ p. absurd (omega arith))
  | no something ↦
      let more : v == 0 ≡ false = ground arith in
      rw more (
        turned (high_digits radix fuel (v / radix)) (low_digits radix fuel (v / radix))
          (lookup (v % radix)) i (length-high_digits radix fuel (v / radix))
          (high_digits-low_digits radix fuel (v / radix)))
]

pub length-low_digits : (radix fuel v : ℕ) → length (low_digits radix fuel v) ≤ fuel
unfolding low_digits
length-low_digits radix zero v = omega arith
length-low_digits radix (suc fuel) v = ground (arith, length-low_digits radix fuel (v / radix))
