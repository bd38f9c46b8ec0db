-- ===== src/SystemCall/Refused.antt =====
-- System calls that are refused for every process: the kernel stays as it was.
use pony_os.Base.{ℕ, ◌≤◌, ◌<◌, ◌≡◌, ◌⊎◌, inl, inr, refl, arith, some, minus_one, returns}
use pony_os.FileSystem.{no_dentry, read_dentry_by_name}
use pony_os.Process.{Kernel, memory_of, task_of}
use pony_os.SystemCall.{open_file, read, write, close, vidmap}

module _ (k : Kernel) where
  pub standard_refused :
      (buf nbytes : ℕ)
      → (read k 1 buf nbytes ≡ returns (minus_one, k))
        × (write k 0 buf nbytes ≡ returns (minus_one, k))
        × ((fd : ℕ) → fd < 2 → close k fd ≡ returns (minus_one, k))
  unfolding read write close
  standard_refused buf nbytes = (refl, refl, λ fd q. ground arith)

  pub vidmap_refused :
      (screenstart : ℕ)
      → (screenstart < 0x8000000) ⊎ (0x8400000 ≤ screenstart)
      → vidmap k screenstart ≡ returns (minus_one, k)
  unfolding vidmap
  vidmap_refused screenstart (inl q) = ground arith
  vidmap_refused screenstart (inr q) = ground arith

  pub open_refused :
      (filename : ℕ)
      → read_dentry_by_name (task_of k) k.fs (memory_of k) filename no_dentry
        ≡ some (minus_one, no_dentry)
      → open_file k filename ≡ returns (minus_one, k)
  unfolding open_file
  open_refused filename missing = rw missing refl
