-- ===== src/Digits/RoundTrip.antt =====
-- itoa leaves a string of digits that reads as its number.
use pony_os.Base.{
  false, ℕ, zero, suc, ◌+◌, ◌-◌, ◌^◌, ◌≤◌, ◌<◌, ◌≡◌, ◌≢◌, ap, sym, ◌∙◌, arith, some, List, [], ◌∷◌,
  length, get_or, ◌==◌,
}
use native.Mathlib.Decide.{ℕ_discrete}
use pony_os.Memory.{Memory, load, store}
use pony_os.Memory.Copy.{Apart, Distinct, load-store, load-store_self}
use pony_os.Strings.{strlen, c_string}
use pony_os.Strings.Names.{strlen_lem}
use pony_os.FileSystem.{store_bytes}
use pony_os.FileSystem.Bytes.{store_bytes_in, store_bytes_out}
use pony_os.Terminal.Read.{c_string_lem}
use pony_os.Digits.{itoa}
use pony_os.Digits.Reverse.{strrev_lem}
use pony_os.Digits.Value.{
  low_digits-AreChars, number-high_digits, itoa_loop-low_digits, digit, number, low_digits,
  high_digits, AreChars-cons, length-high_digits, high_digits-low_digits, length-low_digits,
}

module _ (task : ℕ) (m : Memory) (value buf radix : ℕ) (low : 2 ≤ radix) (high : radix ≤ 36)
    (small : value < 2 ^ 32) (distinct : Distinct task buf 33) where
  digits : List ℕ
  digits = low_digits radix 32 value

  written : Memory
  written = store task (store_bytes task m buf digits) (buf + length digits) 0

  short : length digits ≤ 32
  unfolding digits
  short = length-low_digits radix 32 value

  written-digits : (i : ℕ) → i < length digits → load task written (buf + i) ≡ get_or digits i 0
  unfolding written digits
  written-digits i p =
      load-store task _ (buf + length digits) 0 (buf + i)
        (λ e. distinct i (length digits) p (omega (arith, short)) (sym e))
      ∙ store_bytes_in task digits m buf i (λ i j p q. distinct i j p (omega (arith, short))) p
      ∙ omega (arith, low_digits-AreChars radix low high 32 value i p)

  written-end : load task written (buf + length digits) ≡ 0
  unfolding written
  written-end = load-store_self task (store_bytes task m buf digits) (buf + length digits) 0

  written-outside : (b : ℕ) → Apart task buf 33 b → load task written b ≡ load task m b
  unfolding written
  written-outside b h =
      load-store task _ (buf + length digits) 0 b (h (length digits) (omega (arith, short)))
      ∙ store_bytes_out task digits m buf b (λ i p. h i (omega (arith, short)))

  written-strlen : strlen task written buf ≡ some (length digits)
  unfolding digits
  written-strlen =
      strlen_lem task written (length digits) buf (omega (arith, short)) written-end (λ i p e.
        absurd (omega (arith, written-digits i p, low_digits-AreChars radix low high 32 value i p)))

  Itoa : Type 0
  Itoa =
      (m' : Memory) × (itoa task m value buf radix ≡ some m')
      × (number radix 0 (c_string task 33 m' buf) ≡ value)
      × ((b : ℕ) → Apart task buf 33 b → load task m' b ≡ load task m b)

  zero_digit :
      (i : ℕ)
      → i < 1
      → load task (store task (store task m buf b'0') (buf + 1) 0) (buf + i)
        ≡ get_or (b'0' ∷ []) i 0
  zero_digit zero p = ground (
    arith,
    load-store task (store task m buf b'0') (buf + 1) 0 (buf + 0)
        (λ e. distinct 0 1 (omega arith) (omega arith) (sym e)),
    load-store_self task m buf b'0',
  )
  zero_digit (suc i) p = absurd (omega arith)

  nought : number radix 0 (b'0' ∷ []) ≡ 0
  unfolding number digit
  nought = omega arith

  itoa_zero : value ≡ 0 → Itoa
  unfolding itoa Itoa
  itoa_zero e =
      let m' = store task (store task m buf b'0') (buf + 1) 0 in
      let string : c_string task 33 m' buf ≡ b'0' ∷ [] =
        c_string_lem task m' (b'0' ∷ []) 33 buf (omega arith)
          (λ i p. AreChars-cons b'0' [] (omega arith) (λ j q. absurd (omega arith)) i p) zero_digit
          (load-store_self task (store task m buf b'0') (buf + 1) 0) in
      (
        m',
        ground arith,
        ap (number radix 0) string ∙ nought ∙ sym e,
        λ b h.
            load-store task (store task m buf b'0') (buf + 1) 0 b (h 1 (omega arith))
            ∙ load-store task m buf b'0' b (ground (arith, h 0)),
      )

  itoa_positive : value ≢ 0 → Itoa
  unfolding itoa Itoa digits written
  itoa_positive ne =
      let size = length-high_digits radix 32 value in
      let more : value == 0 ≡ false = ground arith in
      let (m', done, inside, outside) =
        strrev_lem task written buf (length digits) written-strlen
          (λ i j p q. distinct i j p (omega (arith, short))) in
      let string : c_string task 33 m' buf ≡ high_digits radix 32 value =
        c_string_lem task m' (high_digits radix 32 value) 33 buf (omega (arith, short, size))
          (λ i p.
            rw (high_digits-low_digits radix 32 value i (omega (arith, size)))
              (low_digits-AreChars radix low high 32 value _ (omega (arith, size))))
          (λ i p.
            inside i (omega (arith, size))
            ∙ written-digits (length digits - 1 - i) (omega (arith, size))
            ∙ sym (high_digits-low_digits radix 32 value i (omega (arith, size))))
          (ap (λ (l : ℕ). load task m' (buf + l)) size
            ∙ outside (buf + length digits)
                (λ i p. distinct i (length digits) p (omega (arith, short)))
            ∙ written-end) in
      (
        m',
        rw (more, itoa_loop-low_digits radix low high task 32 value buf m small) done,
        ap (number radix 0) string ∙ number-high_digits radix low high 32 value small,
        λ b h. outside b (λ i p. h i (omega (arith, short))) ∙ written-outside b h,
      )

  -- For a radix from 2 to 36, a number of 32 bits and a buffer of 33 bytes, itoa returns: the string
  -- in the buffer, read as digits of that radix, is the number, and no byte outside of the buffer has
  -- changed.
  pub itoa_lem :
      (m' : Memory) × (itoa task m value buf radix ≡ some m')
      × (number radix 0 (c_string task 33 m' buf) ≡ value)
      × ((b : ℕ) → Apart task buf 33 b → load task m' b ≡ load task m b)
  unfolding Itoa
  itoa_lem = elim (ℕ_discrete value 0) [
    | yes nothing ↦ itoa_zero nothing
    | no something ↦ itoa_positive something
  ]
