-- ===== src/FileSystem/Kept.antt =====
-- A file is the same in two memories that agree on its inode and its bytes.
use pony_os.Base.{ℕ, ◌+◌, ◌*◌, ◌/◌, ◌≤◌, ◌<◌, ◌≡◌, ap, ◌∙◌, arith}
use pony_os.Memory.{Memory, translate, load, load32}
use pony_os.Memory.Copy.{load32-cong}
use pony_os.FileSystem.{FileSystem, inode_at, inode_length, block_address}
use pony_os.FileSystem.Data.{IsClear, file_address, file_byte, max_file_length}

module _ (task : ℕ) (fs : FileSystem) (m m' : Memory) (inode : ℕ)
    (same : (k : ℕ)
      → k < 4096
      → load task m' (inode_at fs inode + k) ≡ load task m (inode_at fs inode + k)) where
  field_kept :
      (k : ℕ)
      → k < 4093
      → load32 task m' (inode_at fs inode + k) ≡ load32 task m (inode_at fs inode + k)
  field_kept k p =
      load32-cong task m' m (inode_at fs inode + k) (λ i q. ground (arith, same (k + i)))

  pub inode_length-kept : inode_length task fs m' inode ≡ inode_length task fs m inode
  unfolding inode_length
  inode_length-kept = ground (arith, field_kept 0)

  pub file_address-kept :
      (j : ℕ)
      → j < max_file_length task fs
      → file_address task fs m' inode j ≡ file_address task fs m inode j
  unfolding file_address block_address
  file_address-kept j p = ground (arith, field_kept (4 + 4 * (j / 4096)))

  pub file_byte-kept :
      (j : ℕ)
      → j < max_file_length task fs
      → load task m' (file_address task fs m inode j) ≡ load task m (file_address task fs m inode j)
      → file_byte task fs m' inode j ≡ file_byte task fs m inode j
  unfolding file_byte
  file_byte-kept j p e = ap (load task m') (file_address-kept j p) ∙ e

  pub IsClear-kept :
      (buf n n' : ℕ)
      → inode_length task fs m inode ≤ max_file_length task fs
      → n' ≤ n
      → IsClear task fs m inode buf n
      → IsClear task fs m' inode buf n'
  IsClear-kept buf n n' small fewer clear = record {
    inode_clear = λ k p i q. clear.inode_clear k p i (omega arith);
    file_clear = λ j p i q e.
        let p' : j < inode_length task fs m inode = omega (arith, inode_length-kept) in
        clear.file_clear j p' i (omega arith)
          (e ∙ ap (translate task) (file_address-kept j (omega arith)));
    distinct = λ i j p q. clear.distinct i j p (omega arith);
  }
