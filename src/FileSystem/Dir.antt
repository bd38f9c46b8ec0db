-- ===== src/FileSystem/Dir.antt =====
-- dir_read: one name for each call, in the order of the directory.
use pony_os.FileSystem.Bytes.{store_bytes_out, store_bytes_in, length-bytes_at, get_or-bytes_at}
use native.Mathlib.Decide.{dec_lt}
use pony_os.Base.{ℕ, ◌+◌, ◌*◌, ◌≤◌, ◌<◌, ◌≡◌, sym, ◌∙◌, some, List, arith, length, pos}
use pony_os.Memory.{Memory, load, store}
use pony_os.Memory.Copy.{Apart, Distinct, load-store, load-store_self, load-lt}
use pony_os.Strings.{strlen, c_string}
use pony_os.Strings.Names.{
  strlen_lem, c_string_nonzero, c_string_end, length-c_string, c_string-cong,
}
use pony_os.FileSystem.{
  FileSystem, count_of, bytes_at, store_bytes, dentry_at, read_dentry_by_index, dir_read,
}
use pony_os.FileSystem.Lookup.{dir_name}

module _ (task : ℕ) where
  module _ (fs : FileSystem) (m : Memory) (buf : ℕ) where
    abbrev pub entry : ℕ
    entry = fs.dir_table + 64 * fs.current_dir_read_index

    -- Memory after a call that found an entry: its 32 bytes, and a NUL.
    abbrev pub named : Memory
    named = store task (store_bytes task m buf (bytes_at task m entry 32)) (buf + 32) 0

    module _ (distinct : Distinct task buf 33) where
      named_name : (i : ℕ) → i < 32 → load task named (buf + i) ≡ load task m (entry + i)
      named_name i p =
          load-store task (store_bytes task m buf bytes) (buf + 32) 0 (buf + i)
            (λ e. distinct i 32 p (omega arith) (sym e))
          ∙ ground (
            arith,
            store_bytes_in task bytes m buf i inside
                (ground (arith, length-bytes_at task m entry 32)),
            get_or-bytes_at task m 32 entry i p,
            load-lt task m (entry + i),
          )
        where
          bytes : List ℕ
          bytes = bytes_at task m entry 32

          inside : Distinct task buf (length bytes)
          inside = rw (length-bytes_at task m entry 32) (λ i j p q. distinct i j p (omega arith))

      named_end : load task named (buf + 32) ≡ 0
      named_end =
          load-store_self task (store_bytes task m buf (bytes_at task m entry 32)) (buf + 32) 0

      length_name : ℕ
      length_name = length (dir_name task fs m fs.current_dir_read_index)

      same_name : c_string task 32 named buf ≡ dir_name task fs m fs.current_dir_read_index
      same_name = c_string-cong task named m 32 buf entry named_name

      name_ends : load task named (buf + length_name) ≡ 0
      unfolding length_name
      name_ends = elim (dec_lt length_name 32) [
        | yes short ↦ named_name length_name short ∙ c_string_end task m 32 entry short
        | no long ↦
            let full : length_name ≡ 32 = omega (arith, length-c_string task m 32 entry) in
            ground (arith, full, named_end)
      ]

      name_measured : strlen task named buf ≡ some length_name
      unfolding length_name
      name_measured =
          strlen_lem task named length_name buf (omega (arith, length-c_string task m 32 entry))
            name_ends
            (λ i p. λ e.
              c_string_nonzero task m 32 entry i p
                (sym (named_name i (omega (arith, length-c_string task m 32 entry))) ∙ e))

      -- For an index that is below the count of entries and a buffer of 33 bytes: dir_read returns
      -- the length of the name of that entry and moves on to the next; the buffer then holds this
      -- name, cut after 32 characters, with a NUL behind it, and no other byte has changed.
      pub dir_read_lem :
          fs.current_dir_read_index < count_of fs.num_dir_entry
          → let name = dir_name task fs m fs.current_dir_read_index in
            (dir_read task fs m buf
              ≡ some (
                pos (length name),
                record fs { current_dir_read_index = fs.current_dir_read_index + 1 },
                named,
              ))
            × (c_string task 32 named buf ≡ name)
            × (load task named (buf + length name) ≡ 0)
            × ((b : ℕ) → Apart task buf 33 b → load task named b ≡ load task m b)
      unfolding dir_read read_dentry_by_index dentry_at length_name
      dir_read_lem h = (ground (arith, name_measured), same_name, name_ends, named_out)
        where
          named_out : (b : ℕ) → Apart task buf 33 b → load task named b ≡ load task m b
          named_out b apart =
              load-store task (store_bytes task m buf (bytes_at task m entry 32)) (buf + 32) 0 b
                (apart 32 (omega arith))
              ∙ store_bytes_out task (bytes_at task m entry 32) m buf b
                  (rw (length-bytes_at task m entry 32) (λ i p. apart i (omega arith)))

-- Behind the last entry there is nothing to read.
pub dir_read_end :
    (task : ℕ) (fs : FileSystem) (m : Memory) (buf : ℕ)
    → count_of fs.num_dir_entry ≤ fs.current_dir_read_index
    → dir_read task fs m buf ≡ some (pos 0, fs, m)
unfolding dir_read
dir_read_end task fs m buf h = ground arith
