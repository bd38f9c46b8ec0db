-- ===== src/Digits/Reverse.antt =====
-- strrev reverses a string in place.
use pony_os.Base.{
  ℕ, zero, suc, ◌+◌, ◌-◌, ◌*◌, ◌≤◌, ◌<◌, ◌≡◌, ◌≢◌, refl, ap, sym, ◌∙◌, arith, some, ltb, Bool-cases,
  inl, inr,
}
use native.Mathlib.Decide.{ℕ_discrete, dec_lt}
use pony_os.Memory.{Memory, load, store, translate}
use pony_os.Memory.Copy.{Apart, Distinct, load-store, load-store_self, load-lt}
use pony_os.Strings.{strlen}
use pony_os.Digits.{swap, rev_loop, strrev}

empty :
    (task : ℕ) (m : Memory) (s end b : ℕ) → load task (rev_loop task 0 m s 0 end) b ≡ load task m b
unfolding rev_loop
empty task m s end b = refl

module _ (task s n : ℕ) (distinct : Distinct task s n) where
  differ : (i j : ℕ) → i < n → j < n → i ≢ j → translate task (s + i) ≢ translate task (s + j)
  differ i j p q ne = elim (dec_lt i j) [
    | yes less ↦ distinct i j less q
    | no more ↦ λ e. distinct j i (omega arith) p (sym e)
  ]

  swap-other :
      (m : Memory) (beg end b : ℕ)
      → translate task (s + beg) ≢ translate task b
      → translate task (s + end) ≢ translate task b
      → load task (swap task m s beg end) b ≡ load task m b
  unfolding swap
  swap-other m beg end b p q = load-store task _ (s + beg) _ b p ∙ load-store task m (s + end) _ b q

  swap-beg :
      (m : Memory) (beg end : ℕ)
      → load task (swap task m s beg end) (s + beg) ≡ load task m (s + end)
  unfolding swap
  swap-beg m beg end = ground (
    arith,
    load-store_self task (store task m (s + end) (load task m (s + beg))) (s + beg)
        (load task m (s + end)),
    load-lt task m (s + end),
  )

  swap-end :
      (m : Memory) (beg end : ℕ)
      → beg < end
      → end < n
      → load task (swap task m s beg end) (s + end) ≡ load task m (s + beg)
  unfolding swap
  swap-end m beg end p q = ground (
    arith,
    load-store task (store task m (s + end) (load task m (s + beg))) (s + beg)
        (load task m (s + end)) (s + end) (distinct beg end p q),
    load-store_self task m (s + end) (load task m (s + beg)),
    load-lt task m (s + beg),
  )

  -- The bytes from `beg` to `end` change places; no other byte changes.
  pub record Reversed (m m' : Memory) (beg end : ℕ) : Type 0 where
    pub inside :
        (i : ℕ) → beg ≤ i → i ≤ end → load task m' (s + i) ≡ load task m (s + (beg + end - i))
    pub outside :
        (b : ℕ)
        → ((i : ℕ) → beg ≤ i → i ≤ end → translate task (s + i) ≢ translate task b)
        → load task m' b ≡ load task m b

  rev_loop-Reversed :
      (fuel : ℕ) (m : Memory) (beg end : ℕ)
      → end < n
      → end ≤ beg + 2 * fuel
      → Reversed m (rev_loop task fuel m s beg end) beg end
  unfolding rev_loop
  rev_loop-Reversed zero m beg end low enough = record {
    inside = λ i p q. ap (λ (j : ℕ). load task m (s + j)) (omega arith);
    outside = λ b h. refl;
  }
  rev_loop-Reversed (suc fuel) m beg end low enough = elim (Bool-cases (ltb beg end)) [
    | inr met ↦ rw met record {
      inside = λ i p q. ap (λ (j : ℕ). load task m (s + j)) (ground arith);
      outside = λ b h. refl;
    }
    | inl more ↦
        let less : beg < end = ground arith in
        let m1 = swap task m s beg end in
        let rest = rev_loop-Reversed fuel m1 (beg + 1) (end - 1) (omega arith) (omega arith) in
        rw more record {
          inside = λ i p q. elim (ℕ_discrete i beg) [
            | yes first ↦ rw first (
                rest.outside (s + beg)
                  (λ j p' q'. differ j beg (omega arith) (omega arith) (omega arith))
                ∙ swap-beg m beg end
                ∙ ap (λ (j : ℕ). load task m (s + j)) (omega arith))
            | no later ↦ elim (ℕ_discrete i end) [
              | yes last ↦ rw last (
                  rest.outside (s + end) (λ j p' q'. differ j end (omega arith) low (omega arith))
                  ∙ swap-end m beg end less low
                  ∙ ap (λ (j : ℕ). load task m (s + j)) (omega arith))
              | no inner ↦
                  let j = beg + end - i in
                  let mirror : beg + 1 + (end - 1) - i ≡ j = omega arith in
                  rest.inside i (omega arith) (omega arith)
                  ∙ ap (λ (j : ℕ). load task m1 (s + j)) mirror
                  ∙ swap-other m beg end (s + j)
                      (differ beg j (omega arith) (omega arith) (omega arith))
                      (differ end j low (omega arith) (omega arith))
            ]
          ];
          outside = λ b h.
              rest.outside b (λ i p q. h i (omega arith) (omega arith))
              ∙ swap-other m beg end b (h beg (omega arith) (omega arith))
                  (h end (omega arith) (omega arith));
        }
  ]

-- For a string of `l` characters in a region without a repeated byte, strrev returns; the
-- characters are then in the reverse order, and no other byte has changed, the NUL included.
pub strrev_lem :
    (task : ℕ) (m : Memory) (s l : ℕ)
    → strlen task m s ≡ some l
    → Distinct task s (l + 1)
    → (m' : Memory) × (strrev task m s ≡ some m')
      × ((i : ℕ) → i < l → load task m' (s + i) ≡ load task m (s + (l - 1 - i)))
      × ((b : ℕ) → Apart task s l b → load task m' b ≡ load task m b)
unfolding strrev
strrev_lem task m s l e distinct =
    let inner : Distinct task s l = λ i j p q. distinct i j p (omega arith) in
    elim (ℕ_discrete l 0) [
      | yes none_left ↦ (
        rev_loop task l m s 0 (l - 1),
        rw e,
        λ i p. absurd (omega arith),
        λ b h. rw none_left (empty task m s 0 b),
      )
      | no some_left ↦
          let done = rev_loop-Reversed task s l inner l m 0 (l - 1) (omega arith) (omega arith) in
          (
            rev_loop task l m s 0 (l - 1),
            rw e,
            λ i p.
                done.inside i (omega arith) (omega arith)
                ∙ ap (λ (j : ℕ). load task m (s + j)) (omega arith),
            λ b h. done.outside b (λ i p q. h i (omega arith)),
          )
    ]
