-- ===== src/FileSystem/Entries.antt =====
-- A lookup by name is the same in two memories that agree on the name and on the entries.
use mathlib.Core.Path.{ap₂}
use pony_os.Base.{ℕ, zero, suc, ◌+◌, ◌*◌, ◌^◌, ◌<◌, ◌≡◌, refl, ◌∙◌, arith, some, List, ◌∷◌}
use pony_os.Memory.{Memory, load}
use pony_os.Memory.Copy.{load32-cong}
use pony_os.Strings.{strlen_loop, strlen, strncmp}
use pony_os.Strings.Names.{strlen_loop-c_string}
use pony_os.FileSystem.{
  FileSystem, Dentry, bytes_at, cap, count_of, dentry_at, find_dentry, read_dentry_by_name,
}

module _ (task : ℕ) (m m' : Memory) where
  -- The memories agree on the `n` bytes from `a` on.
  abbrev pub AgreeFrom : ℕ → ℕ → Type 0
  AgreeFrom a n = (i : ℕ) → i < n → load task m' (a + i) ≡ load task m (a + i)

  strlen_loop-kept :
      (fuel a len l : ℕ)
      → AgreeFrom a (l + 1)
      → strlen_loop task fuel m a len ≡ some l
      → strlen_loop task fuel m' a len ≡ some l
  unfolding strlen_loop
  strlen_loop-kept zero a len l h e = e
  strlen_loop-kept (suc fuel) a len l h e =
      let (low, rest) = strlen_loop-c_string task m (suc fuel) 0 a len l e in
      ground (arith, h len (omega arith), strlen_loop-kept fuel a (len + 1) l h)

  strncmp-kept :
      (n a b : ℕ) → AgreeFrom a n → AgreeFrom b n → strncmp task m' a b n ≡ strncmp task m a b n
  unfolding strncmp
  strncmp-kept zero a b h g = refl
  strncmp-kept (suc n) a b h g = ground (
    arith,
    h 0,
    g 0,
    strncmp-kept n (a + 1) (b + 1) (λ i q. ground (arith, h (suc i)))
        (λ i q. ground (arith, g (suc i))),
  )

  pub bytes_at-kept : (n a : ℕ) → AgreeFrom a n → bytes_at task m' a n ≡ bytes_at task m a n
  unfolding bytes_at
  bytes_at-kept zero a h = refl
  bytes_at-kept (suc n) a h =
      ap₂ (λ (x : ℕ) (xs : List ℕ). x ∷ xs) (ground (arith, h 0))
        (bytes_at-kept n (a + 1) (λ i q. ground (arith, h (suc i))))

  dentry_at-kept :
      (fs : FileSystem) (i : ℕ)
      → AgreeFrom (fs.dir_table + 64 * i) 64
      → dentry_at task fs m' i ≡ dentry_at task fs m i
  unfolding dentry_at
  dentry_at-kept fs i h =
      let name = fs.dir_table + 64 * i in
      let names = bytes_at-kept 32 name (λ j q. h j (omega arith)) in
      let rest = bytes_at-kept 24 (name + 40) (λ j q. ground (arith, h (40 + j))) in
      let ty = load32-cong task m' m (name + 32) (λ j q. ground (arith, h (32 + j))) in
      let inode = load32-cong task m' m (name + 36) (λ j q. ground (arith, h (36 + j))) in
      rw (names, rest, ty, inode) refl

  find_dentry-kept :
      (fs : FileSystem) (fname l1 : ℕ) (dentry : Dentry)
      → strlen task m fname ≡ some l1
      → l1 < 64
      → AgreeFrom fname 64
      → (n i : ℕ)
      → ((j : ℕ)
          → j < i + n
          → (l : ℕ) × (l < 64) × (strlen task m (fs.dir_table + 64 * j) ≡ some l))
      → ((j : ℕ) → j < i + n → AgreeFrom (fs.dir_table + 64 * j) 64)
      → find_dentry task fs m' fname dentry n i ≡ find_dentry task fs m fname dentry n i
  unfolding find_dentry strlen
  find_dentry-kept fs fname l1 dentry e1 short h zero i ends same = refl
  find_dentry-kept fs fname l1 dentry e1 short h (suc n) i ends same =
      let name = fs.dir_table + 64 * i in
      let (l2, short2, e2) = ends i (omega arith) in
      let here = same i (omega arith) in
      let rest =
        find_dentry-kept fs fname l1 dentry e1 short h n (i + 1) (λ j q. ends j (omega arith))
          (λ j q. same j (omega arith)) in
      let e1' = strlen_loop-kept (2 ^ 32) fname 0 l1 (λ j q. h j (omega arith)) e1 in
      let e2' = strlen_loop-kept (2 ^ 32) name 0 l2 (λ j q. here j (omega arith)) e2 in
      let few : cap l1 < 64 = ground arith in
      let compared =
        strncmp-kept (cap l1) fname name (λ j q. h j (omega arith)) (λ j q. here j (omega arith)) in
      rw (e1', e2', e1, e2, compared, dentry_at-kept fs i here, rest) refl

  pub read_dentry_by_name-kept :
      (fs : FileSystem) (index fname l : ℕ) (dentry : Dentry)
      → strlen task m fname ≡ some l
      → l < 64
      → AgreeFrom fname 64
      → ((j : ℕ)
          → j < count_of fs.num_dir_entry
          → (l : ℕ) × (l < 64) × (strlen task m (fs.dir_table + 64 * j) ≡ some l))
      → ((j : ℕ) → j < count_of fs.num_dir_entry → AgreeFrom (fs.dir_table + 64 * j) 64)
      → read_dentry_by_name task (record fs { current_dir_read_index = index }) m' fname dentry
        ≡ read_dentry_by_name task fs m fname dentry
  unfolding read_dentry_by_name find_dentry dentry_at
  read_dentry_by_name-kept fs index fname l dentry e short h ends same =
      moved (count_of fs.num_dir_entry) 0
      ∙ find_dentry-kept fs fname l dentry e short h (count_of fs.num_dir_entry) 0
          (λ j q. ends j (omega arith)) (λ j q. same j (omega arith))
    where
      moved :
          (n i : ℕ)
          → find_dentry task (record fs { current_dir_read_index = index }) m' fname dentry n i
            ≡ find_dentry task fs m' fname dentry n i
      moved zero i = refl
      moved (suc n) i = rw (moved n (i + 1)) refl
