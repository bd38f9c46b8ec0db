-- ===== src/Programs/Errors/Opens.antt =====
-- The test err_open_lots of syscalls/ece391syserr.c: six opens that succeed, one that does not, and
-- six closes.
use Prim.Native.String.{String}
use pony_os.Base.{ℕ, zero, suc, ◌+◌, ◌≤◌, ◌≡◌, inl, refl, ap, ◌∙◌, arith, List, some, pos, returns}
use mathlib.Core.Path.{subst}
use pony_os.FileSystem.{Dentry}
use pony_os.Process.{Kernel, fdt_size}
use pony_os.Screen.{puts_scroll}
use pony_os.Programs.Errors.{open_lots, close_lots, err_open_lots}
use pony_os.Programs.Errors.Steady.{IsTestable, During, found_at, Passes, put-Passes}
use pony_os.Programs.Errors.Slots.{open_step, open_full, close_step}

module _ (literal : String → ℕ) (chars : String → List ℕ) (k0 : Kernel) (p : ℕ)
    (h : IsTestable literal chars k0 p) where
  abbrev Now : ℕ → ℕ → Kernel → Type 0
  Now = During literal chars k0 p

  module _ (buf : ℕ) (f : Dentry) (found : found_at literal chars k0 p "." ≡ some (pos 0, f)) where
    opens :
        (n to : ℕ) (k : Kernel)
        → 2 ≤ to
        → to + n ≡ fdt_size
        → Now 2 to k
        → (k' : Kernel) × (open_lots literal buf (suc n) 0 k ≡ returns (1, k'))
          × Now 2 fdt_size k'
          × (k'.screen ≡ k.screen)
    unfolding open_lots
    opens zero to k low all d =
        let full : to ≡ fdt_size = omega arith in
        let d' = subst (λ (n : ℕ). Now 2 n k) full d in
        (k, rw (open_full literal chars k0 p h f found k d') refl, d', refl)
    opens (suc n) to k low all d =
        let (k1, once, d1, shown1) =
          open_step literal chars k0 p h f found to k low (omega arith) d in
        let (k2, rest, d2, shown2) = opens n (to + 1) k1 (omega arith) (omega arith) d1 in
        (k2, rw once rest, d2, shown2 ∙ shown1)

    closes :
        (n from : ℕ) (k : Kernel)
        → 2 ≤ from
        → from + n ≡ fdt_size
        → Now from fdt_size k
        → (k' : Kernel) × (close_lots literal buf n from k ≡ returns (0, k'))
          × Now 2 2 k'
          × (k'.screen ≡ k.screen)
    unfolding close_lots
    closes zero from k low all d = (
      k,
      refl,
      record {
        current = d.current;
        index = d.index;
        fs = d.fs;
        paging = d.paging;
        ready = d.ready;
        free = λ i q r e. d.free i q r (inl (omega arith));
        busy = λ i q r. absurd (omega arith);
        range = d.range;
        kept = d.kept;
      },
      refl,
    )
    closes (suc n) from k low all d =
        let (k1, once, d1, shown1) = close_step literal chars k0 p h from k low (omega arith) d in
        let (k2, rest, d2, shown2) = closes n (from + 1) k1 (omega arith) (omega arith) d1 in
        (k2, rw once rest, d2, shown2 ∙ shown1)

    pub err_open_lots-Passes :
        Passes literal chars k0 p h (err_open_lots literal buf) (chars "err_open_lots: PASS\n")
    unfolding err_open_lots
    err_open_lots-Passes k d =
        let (k1, opened_all, d1, shown1) = opens 6 2 k (omega arith) (omega arith) d in
        let (k2, closed_all, d2, shown2) = closes 6 2 k1 (omega arith) (omega arith) d1 in
        let (k3, printed_it, d3, shown3) =
          put-Passes literal chars k0 p h "err_open_lots: PASS\n" k2 d2 in
        (
          k3,
          rw opened_all (rw closed_all (rw printed_it refl)),
          d3,
          shown3 ∙ ap (puts_scroll (chars "err_open_lots: PASS\n")) (shown2 ∙ shown1),
        )
