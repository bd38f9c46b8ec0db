-- ===== src/FileSystem/Lookup.antt =====
-- The lookups of directory entries, by name and by index, against the list of the names on disk.
use mathlib.Core.Path.{ap₂}
use native.Mathlib.Decide.{dec_lt}
use pony_os.Base.{
  ℕ, zero, suc, ◌+◌, ◌*◌, ◌^◌, ◌≤◌, ◌<◌, ◌≡◌, ◌≢◌, refl, sym, ap, ◌∙◌, inl, inr, true, false,
  Option, none, some, List, arith, ◌==◌, ==_iff, Bool-cases, if◌then◌else◌, ℤ, pos, minus_one,
  is_zero, length,
}
use pony_os.Memory.{Memory}
use pony_os.Strings.{strlen, strncmp, c_string, same}
use pony_os.Strings.Names.{strlen-c_string, strncmp-c_string, same_iff, same_length, c_string_whole}
use pony_os.FileSystem.{
  FileSystem, Dentry, max_name_length, count_of, cap, dentry_at, find_dentry, read_dentry_by_name,
}

module _ (task : ℕ) where
  -- A name on disk, or asked for: its first 32 characters.
  abbrev pub name_at : Memory → ℕ → List ℕ
  name_at m a = c_string task max_name_length m a

  abbrev pub dir_name : FileSystem → Memory → ℕ → List ℕ
  dir_name fs m i = name_at m (fs.dir_table + 64 * i)

  -- The first of the `n` entries from the `i`-th on that has this name.
  unfoldable pub first_named : FileSystem → Memory → List ℕ → ℕ → ℕ → Option ℕ
  first_named fs m name zero i = none
  first_named fs m name (suc n) i =
      if same name (dir_name fs m i) then some i else first_named fs m name n (i + 1)

  -- The scan of a string ends within 2 GB: from there on its length is negative as an int.
  abbrev pub Ends : Memory → ℕ → Type 0
  Ends m a = (l : ℕ) × (l < 2 ^ 31) × (strlen task m a ≡ some l)

  abbrev pub filled : FileSystem → Memory → Dentry → Option ℕ → ℤ × Dentry
  filled fs m dentry none = (minus_one, dentry)
  filled fs m dentry (some i) = (pos 0, dentry_at task fs m i)

  -- The code's two tests, on lengths and on characters, are one test on names.
  cap-length :
      (m : Memory) (a l : ℕ) → l < 2 ^ 31 → strlen task m a ≡ some l → length (name_at m a) ≡ cap l
  cap-length m a l p e = ground (arith, strlen-c_string task m max_name_length a l e)

  tests_ne :
      (m : Memory) (a b l1 l2 : ℕ)
      → l1 < 2 ^ 31
      → l2 < 2 ^ 31
      → strlen task m a ≡ some l1
      → strlen task m b ≡ some l2
      → (cap l1 == cap l2) ≡ false
      → same (name_at m a) (name_at m b) ≡ false
  tests_ne m a b l1 l2 p1 p2 e1 e2 h =
      same_length (name_at m a) (name_at m b)
        (λ e. ground (arith, cap-length m a l1 p1 e1, cap-length m b l2 p2 e2, e))

  tests_eq :
      (m : Memory) (a b l1 l2 : ℕ)
      → l1 < 2 ^ 31
      → l2 < 2 ^ 31
      → strlen task m a ≡ some l1
      → strlen task m b ≡ some l2
      → (cap l1 == cap l2) ≡ true
      → is_zero (strncmp task m a b (cap l1)) ≡ same (name_at m a) (name_at m b)
  tests_eq m a b l1 l2 p1 p2 e1 e2 h =
      let lengths : cap l1 ≡ cap l2 = (==_iff (cap l1) (cap l2)).0 h in
      strncmp-c_string task m (cap l1) a b
      ∙ ap₂ same (c_string_whole task m max_name_length (cap l1) a (cap-length m a l1 p1 e1))
          (c_string_whole task m max_name_length (cap l1) b (cap-length m b l2 p2 e2 ∙ sym lengths))

  find_dentry-first_named :
      (fs : FileSystem) (m : Memory) (fname : ℕ) (dentry : Dentry) (l1 : ℕ)
      → l1 < 2 ^ 31
      → strlen task m fname ≡ some l1
      → (n i : ℕ) → ((j : ℕ) → j < i + n → Ends m (fs.dir_table + 64 * j))
      → find_dentry task fs m fname dentry n i
        ≡ some (filled fs m dentry (first_named fs m (name_at m fname) n i))
  unfolding find_dentry first_named
  find_dentry-first_named fs m fname dentry l1 p1 e1 zero i h = refl
  find_dentry-first_named fs m fname dentry l1 p1 e1 (suc n) i h =
      let name = fs.dir_table + 64 * i in
      let (l2, p2, e2) = h i (omega arith) in
      let rest =
        find_dentry-first_named fs m fname dentry l1 p1 e1 n (i + 1) (λ j p. h j (omega arith)) in
      elim (Bool-cases (cap l1 == cap l2)) [
        | inl eq ↦
            rw (e1, e2, eq, tests_eq m fname name l1 l2 p1 p2 e1 e2 eq)
              (elim (Bool-cases (same (name_at m fname) (name_at m name))) [
                | inl hit ↦ rw hit
                | inr miss ↦ rw miss rest
              ])
        | inr ne ↦ rw (e1, e2, ne, tests_ne m fname name l1 l2 p1 p2 e1 e2 ne) rest
      ]

  -- For a string that ends, and names on disk whose scans end, all within 2 GB: read_dentry_by_name fills in the
  -- first entry whose first 32 characters are those of the name and returns 0, and returns -1 with
  -- the dentry left alone when there is none; it always returns.
  pub read_dentry_by_name_lem :
      (fs : FileSystem) (m : Memory) (fname : ℕ) (dentry : Dentry)
      → Ends m fname
      → ((j : ℕ) → j < count_of fs.num_dir_entry → Ends m (fs.dir_table + 64 * j))
      → read_dentry_by_name task fs m fname dentry
        ≡ some
            (filled fs m dentry (first_named fs m (name_at m fname) (count_of fs.num_dir_entry) 0))
  unfolding read_dentry_by_name
  read_dentry_by_name_lem fs m fname dentry (l1, p1, e1) h =
      find_dentry-first_named fs m fname dentry l1 p1 e1 (count_of fs.num_dir_entry) 0
        (λ j p. h j (omega arith))

  ne_from :
      (fs : FileSystem) (m : Memory) (name : List ℕ) (i k : ℕ)
      → same name (dir_name fs m i) ≡ false
      → i ≤ k
      → (i + 1 ≤ k → dir_name fs m k ≢ name)
      → dir_name fs m k ≢ name
  ne_from fs m name i k miss p later = elim (dec_lt i k) [
    | yes q ↦ later (omega arith)
    | no q ↦ λ e.
        let here : k ≡ i = omega arith in
        ground (arith, miss, (same_iff name (dir_name fs m i)).1 (sym e ∙ ap (dir_name fs m) here))
  ]

  -- `first_named` finds the least index with the name, and only when there is one.
  pub first_named_least :
      (fs : FileSystem) (m : Memory) (name : List ℕ) (n i j : ℕ)
      → first_named fs m name n i ≡ some j
      → (i ≤ j)
        × (j < i + n)
        × (dir_name fs m j ≡ name)
        × ((k : ℕ) → i ≤ k → k < j → dir_name fs m k ≢ name)
  unfolding first_named
  first_named_least fs m name zero i j e = cc
  first_named_least fs m name (suc n) i j e = elim (Bool-cases (same name (dir_name fs m i))) [
    | inl hit ↦
        let here : i ≡ j = ground arith in
        rw (← here)
          (omega arith, omega arith, sym ((same_iff _ _).0 hit), λ k p q. absurd (omega arith))
    | inr miss ↦
        let (low, high, found, before) = first_named_least fs m name n (i + 1) j (ground arith) in
        (
          omega arith,
          omega arith,
          found,
          λ k p q. ne_from fs m name i k miss p (λ p'. before k p' q),
        )
  ]

  pub first_named-none :
      (fs : FileSystem) (m : Memory) (name : List ℕ) (n i : ℕ)
      → first_named fs m name n i ≡ none
      → (k : ℕ) → i ≤ k
      → k < i + n
      → dir_name fs m k ≢ name
  unfolding first_named
  first_named-none fs m name zero i e k p q = absurd (omega arith)
  first_named-none fs m name (suc n) i e k p q = elim (Bool-cases (same name (dir_name fs m i))) [
    | inl hit ↦ absurd (ground arith)
    | inr miss ↦
        ne_from fs m name i k miss p
          (λ p'. first_named-none fs m name n (i + 1) (ground arith) k p' (omega arith))
  ]
