-- ===== src/FileSystem/Data.antt =====
-- read_data against the file that an inode and its data blocks stand for.
use pony_os.Base.{
  ℕ, suc, ◌+◌, ◌-◌, ◌*◌, ◌/◌, ◌%◌, ◌^◌, ◌≤◌, ◌<◌, ◌≡◌, refl, ap, ◌∙◌, arith, min, ltb, pos, inl,
  inr, Bool-cases, ◌==◌, true, false, minus_one, zero,
}
use mathlib.Core.Path.{subst}
use native.Mathlib.Decide.{dec_lt}
use native.Mathlib.Nat.{add_assoc, add-zero}
use pony_os.Memory.{Memory, load, load32, memcpy}
use pony_os.Memory.Copy.{Apart, Separate, Distinct, load32-cong, load-memcpy_out, load-memcpy_in}
use pony_os.FileSystem.{
  FileSystem, data_block_size, inode_at, inode_length, block_address, offset_in, copied_length,
  read_blocks, remaining_length, read_data, is_positive,
}

module _ (task : ℕ) (fs : FileSystem) where
  -- Where byte `j` of the file lies, and what it is.
  unfoldable pub file_address : Memory → ℕ → ℕ → ℕ
  file_address m inode j = block_address task fs m inode (j / data_block_size) + j % data_block_size

  unfoldable pub file_byte : Memory → ℕ → ℕ → ℕ
  file_byte m inode j = load task m (file_address m inode j)

  -- The buffer of `n` bytes holds no byte of the inode, and none of the file.
  pub record IsClear (m : Memory) (inode buf n : ℕ) : Type 0 where
    pub inode_clear : (k : ℕ) → k < 4096 → Apart task buf n (inode_at fs inode + k)
    pub file_clear :
        (j : ℕ) → j < inode_length task fs m inode → Apart task buf n (file_address m inode j)
    pub distinct : Distinct task buf n

  -- The bytes of the file from `off` on stand in the buffer, and nothing else has changed.
  pub record Holds (m0 : Memory) (inode off buf n done : ℕ) (m : Memory) : Type 0 where
    pub filled : (k : ℕ) → k < done → load task m (buf + k) ≡ file_byte m0 inode (off + k)
    pub same : (b : ℕ) → Apart task buf n b → load task m b ≡ load task m0 b

  -- An inode has room for 1023 block numbers.
  abbrev pub max_file_length : ℕ
  max_file_length = 1023 * 4096

  module _ (m0 : Memory) (inode off buf n : ℕ) (clear : IsClear m0 inode buf n)
      (fits : off + n ≤ inode_length task fs m0 inode)
      (small : inode_length task fs m0 inode ≤ max_file_length) where
    field32_same :
        (m : Memory) (done k : ℕ)
        → k < 4093
        → Holds m0 inode off buf n done m
        → load32 task m (inode_at fs inode + k) ≡ load32 task m0 (inode_at fs inode + k)
    field32_same m done k p h = load32-cong task m m0 (inode_at fs inode + k) (λ i q.
        ground
          (arith, h.same (inode_at fs inode + (k + i)) (clear.inode_clear (k + i) (omega arith))))

    -- Where the next byte comes from, and that the block's number is still what it was.
    from_file :
        (m : Memory) (done i o t : ℕ)
        → Holds m0 inode off buf n done m
        → off + done ≡ i * 4096 + o
        → o + t < 4096
        → done + t < n
        → block_address task fs m inode i + o + t ≡ file_address m0 inode (off + (done + t))
    unfolding file_address
    from_file m done i o t h e p q =
        let j : (off + (done + t)) / 4096 ≡ i = omega arith in
        rw j (ground (arith, field32_same m done (4 + 4 * i) (omega arith) h))

    copied_byte :
        (m : Memory) (done i o c t : ℕ)
        → Holds m0 inode off buf n done m
        → off + done ≡ i * 4096 + o
        → o + c ≤ 4096
        → done + c ≤ n
        → t < c
        → load task
            (memcpy task m (buf + done) (block_address task fs m inode i + o) c)
            (buf + (done + t))
          ≡ file_byte m0 inode (off + (done + t))
    unfolding file_byte
    copied_byte m done i o c t h e p q r = ground (
      arith,
      load-memcpy_in task c m (buf + done) (block_address task fs m inode i + o) t apart again r,
      from_file m done i o t h e (omega arith) (omega arith),
      h.same (file_address m0 inode (off + (done + t)))
          (clear.file_clear (off + (done + t)) (omega arith)),
    )
      where
        apart : Separate task (buf + done) c (block_address task fs m inode i + o)
        apart x y px py = ground (
          arith,
          clear.file_clear (off + (done + y)) (omega arith) (done + x) (omega arith),
          from_file m done i o y h e (omega arith) (omega arith),
        )

        again : Distinct task (buf + done) c
        again x y px py =
            ground (arith, clear.distinct (done + x) (done + y) (omega arith) (omega arith))

    copy-Holds :
        (m : Memory) (done i o c : ℕ)
        → Holds m0 inode off buf n done m
        → off + done ≡ i * 4096 + o
        → o + c ≤ 4096
        → done + c ≤ n
        → Holds m0 inode off buf n
            (done + c)
            (memcpy task m (buf + done) (block_address task fs m inode i + o) c)
    unfolding file_byte
    copy-Holds m done i o c h e p q = record {
      filled = λ k r. elim (dec_lt k done) [
        | yes old ↦
            load-memcpy_out task c m (buf + done) _ (buf + k) (λ x y eq.
              clear.distinct k (done + x) (omega arith) (omega arith) (ground (arith, eq)))
            ∙ h.filled k old
        | no new ↦
            let t : k ≡ done + (k - done) = omega arith in
            rw t (copied_byte m done i o c (k - done) h e p q (omega arith))
      ];
      same = λ b r.
          load-memcpy_out task c m (buf + done) _ b (λ x y. ground (arith, r (done + x)))
          ∙ h.same b r;
    }

    round_inside :
        (m : Memory) (done i o : ℕ)
        → Holds m0 inode off buf n done m
        → off + done ≡ i * 4096 + o
        → done < n
        → ltb i (inode_length task fs m inode) ≡ true
    round_inside m done i o h e p = ground (arith, field32_same m done 0 (omega arith) h, fits)

    -- The loop, from any block on: its own test never fails before the length left is used up.
    read_blocks-Holds :
        (start first : ℕ) (fuel i left done : ℕ) (m : Memory)
        → Holds m0 inode off buf n done m
        → off + done ≡ i * 4096 + offset_in start first i
        → offset_in start first i < 4096
        → start ≤ i
        → done + left ≡ n
        → left ≤ fuel
        → 0 < left
        → let r = read_blocks task fs inode start first fuel i left done (buf + done) m in
          (r.0 ≡ pos n) × Holds m0 inode off buf n n r.1
    unfolding read_blocks
    read_blocks-Holds start first zero i left done m h e o s p q r = absurd (omega arith)
    read_blocks-Holds start first (suc fuel) i left done m h e o s p q r =
        let c = copied_length start first i left in
        let next =
          copy-Holds m done i (offset_in start first i) c h e (ground arith) (ground arith) in
        rw (round_inside m done i (offset_in start first i) h e (omega arith))
          (elim (Bool-cases (left - c == 0)) [
            | inl last ↦
                let all : done + c ≡ n = ground arith in
                rw last (
                  ap pos all,
                  subst
                      (λ k. Holds m0 inode off buf n k (
                        memcpy task m (buf + done)
                          (block_address task fs m inode i + offset_in start first i) c))
                      all next,
                )
            | inr more ↦
                rw (more, add_assoc buf done c)
                  (read_blocks-Holds start first fuel (i + 1) (left - c) (done + c) _ next
                    (ground arith) (ground arith) (omega arith) (ground arith) (ground arith)
                    (ground arith))
          ])

  -- The three ways in which read_data ends at once, with memory as it was: no such inode, nothing
  -- asked for, and nothing left behind the offset.
  pub read_data_bad_inode :
      (m : Memory) (inode off buf count : ℕ)
      → fs.num_inodes ≤ inode
      → read_data task fs m inode off buf count ≡ (minus_one, m)
  unfolding read_data
  read_data_bad_inode m inode off buf count h = ground arith

  module _ (m : Memory) (inode off count : ℕ) where
    abbrev pub available : ℕ
    available = min count (inode_length task fs m inode - off)

    module _ (buf : ℕ) (valid : inode < fs.num_inodes)
        (small : inode_length task fs m inode ≤ max_file_length) (near : off < 2 ^ 31)
        (request : count < 2 ^ 31) where
      -- What is left to copy is what was asked for, as far as the file goes.
      remaining_length_lem : 0 < available → remaining_length task fs m inode off count ≡ available
      unfolding remaining_length
      remaining_length_lem h = ground arith

      remaining_length_none :
          available ≡ 0 → is_positive (remaining_length task fs m inode off count) ≡ false
      unfolding remaining_length
      remaining_length_none h = ground arith

      fits_available : 0 < available → off + available ≤ inode_length task fs m inode
      fits_available h = omega arith

      available_positive : 0 < available → is_positive available ≡ true
      available_positive h = ground arith

      read_data_runs :
          is_positive (remaining_length task fs m inode off count) ≡ true
          → read_data task fs m inode off buf count
            ≡ read_blocks task fs inode
                (off / data_block_size)
                (off % data_block_size)
                (remaining_length task fs m inode off count)
                (off / data_block_size)
                (remaining_length task fs m inode off count)
                0
                buf
                m
      unfolding read_data
      read_data_runs h = ground arith

      read_data_stops :
          is_positive (remaining_length task fs m inode off count) ≡ false
          → read_data task fs m inode off buf count ≡ (pos 0, m)
      unfolding read_data
      read_data_stops h = ground arith

      -- For a valid inode, a file of at most 1023 blocks, an offset and a count that are not negative
      -- as int32_t, and a buffer that overlaps neither the inode nor the file: read_data returns how
      -- many bytes there are from the offset on, at most the count; the buffer then holds just these
      -- bytes of the file, block by block, and no byte outside of it has changed.
      pub read_data_lem :
          IsClear m inode buf available
          → let r = read_data task fs m inode off buf count in
            (r.0 ≡ pos available) × Holds m inode off buf available available r.1
      read_data_lem clear = elim (dec_lt 0 available) [
        | yes some_left ↦
            let left = remaining_length_lem some_left in
            let go =
              read_blocks-Holds m inode off buf available clear (fits_available some_left) small
                (off / data_block_size) (off % data_block_size) available (off / data_block_size)
                available 0 m (record { filled = λ k p. elim p [ ]; same = λ b h. refl })
                (ground arith) (ground arith) (omega arith) (omega arith) (omega arith) some_left in
            rw (read_data_runs (rw left (available_positive some_left)), left) (rw add-zero at go)
        | no none_left ↦
            let nothing : available ≡ 0 = omega arith in
            rw (read_data_stops (remaining_length_none nothing), nothing)
              (refl, record { filled = λ k p. elim p [ ]; same = λ b h. refl })
      ]
