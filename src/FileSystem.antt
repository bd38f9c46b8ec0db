-- ===== src/FileSystem.antt =====
-- student-distrib/fileSystem.c: the read-only file system in the memory image that the boot loader
-- left at `file_start`. Addresses and 32-bit fields are bit patterns; what is signed in the source
-- is compared through `is_positive` and `count_of`.
pub mod Kept
pub mod Entries
pub mod Lookup
pub mod Bytes
pub mod Data
pub mod Dir
pub mod Tests
use pony_os.Base.{
  ℕ, zero, suc, ◌+◌, ◌-◌, ◌*◌, ◌/◌, ◌%◌, ◌^◌, Bool, not, ◌&&◌, Option, some, List, [], ◌∷◌, ltb,
  leb, ◌==◌, if◌then◌else◌, ◌>>=◌, ℤ, pos, minus_one, is_zero, is_minus_one,
}
use pony_os.Memory.{Memory, load, load32, store, memcpy}
use pony_os.Strings.{strlen, strncmp}

-- The file's variables, as `filesys_init` leaves them.
pub record FileSystem : Type 0 where
  pub num_dir_entry : ℕ
  pub num_inodes : ℕ
  pub num_data_blocks : ℕ
  pub current_dir_read_index : ℕ
  pub data_block_start : ℕ
  pub dir_table : ℕ
  pub inode_table : ℕ

pub record Dentry : Type 0 where
  pub file_name : List ℕ
  pub file_type : ℕ
  pub inode : ℕ
  pub reserved : List ℕ

abbrev pub data_block_size : ℕ
data_block_size = 4096

abbrev pub max_name_length : ℕ
max_name_length = 32

abbrev pub max_int : ℕ
max_int = 0x7fffffff

-- Whether an int32_t is above 0, and how often `for (i = 0; i < n; i++)` runs for it.
abbrev pub is_positive : ℕ → Bool
is_positive w = ltb 0 w && ltb w (2 ^ 31)

abbrev pub count_of : ℕ → ℕ
count_of w = if ltb w (2 ^ 31) then w else 0

-- `if (l > max_name_length) l = max_name_length;` on an int32_t pattern.
abbrev pub cap : ℕ → ℕ
cap l = if ltb max_name_length l && ltb l (2 ^ 31) then max_name_length else l

abbrev pub inode_at : FileSystem → ℕ → ℕ
inode_at fs inode = fs.inode_table + data_block_size * inode

-- The two branches in the body of read_data's loop differ only in the offset into the block, which
-- is `first` in the first block, `start`, and 0 in the others.
abbrev pub offset_in : ℕ → ℕ → ℕ → ℕ
offset_in start first i = if i == start then first else 0

abbrev pub copied_length : ℕ → ℕ → ℕ → ℕ → ℕ
copied_length start first i remaining =
    if leb (data_block_size - offset_in start first i) remaining
    then data_block_size - offset_in start first i
    else remaining

-- What a dentry_t on the stack holds before it is filled.
abbrev pub no_dentry : Dentry
no_dentry = record { file_name = []; file_type = 0; inode = 0; reserved = [] }

module _ (task : ℕ) where
  unfoldable pub bytes_at : Memory → ℕ → ℕ → List ℕ
  bytes_at m a zero = []
  bytes_at m a (suc n) = load task m a ∷ bytes_at m (a + 1) n

  unfoldable pub store_bytes : Memory → ℕ → List ℕ → Memory
  store_bytes m a [] = m
  store_bytes m a (x ∷ xs) = store_bytes (store task m a x) (a + 1) xs

  -- `current_dir_read_index` is a zero-initialised global that the function does not set.
  pub filesys_init : Memory → ℕ → FileSystem
  filesys_init m file_start = record {
    num_dir_entry = load32 task m file_start;
    num_inodes = load32 task m (file_start + 4);
    num_data_blocks = load32 task m (file_start + 8);
    current_dir_read_index = 0;
    data_block_start = file_start + data_block_size * (load32 task m (file_start + 4) + 1);
    dir_table = file_start + 64;
    inode_table = file_start + 4096;
  }

  -- dir_table[i] and its fields, at the offsets of `dentry_t`.
  unfoldable pub dentry_at : FileSystem → Memory → ℕ → Dentry
  unfolding bytes_at
  dentry_at fs m i = record {
    file_name = bytes_at m (fs.dir_table + 64 * i) 32;
    file_type = load32 task m (fs.dir_table + 64 * i + 32);
    inode = load32 task m (fs.dir_table + 64 * i + 36);
    reserved = bytes_at m (fs.dir_table + 64 * i + 40) 24;
  }

  -- The loop of read_dentry_by_name, with `n` rounds left.
  find_dentry : FileSystem → Memory → ℕ → Dentry → ℕ → ℕ → Option (ℤ × Dentry)
  find_dentry fs m fname dentry zero i = some (minus_one, dentry)
  find_dentry fs m fname dentry (suc n) i =
      let rest = find_dentry fs m fname dentry n (i + 1) in
      let name = fs.dir_table + 64 * i in
      strlen task m fname >>= λ l1. strlen task m name >>= λ l2.
      if not (cap l1 == cap l2)
      then rest
      else if is_zero (strncmp task m fname name (cap l1))
      then some (pos 0, dentry_at fs m i)
      else rest

  pub read_dentry_by_name : FileSystem → Memory → ℕ → Dentry → Option (ℤ × Dentry)
  unfolding find_dentry
  read_dentry_by_name fs m fname dentry =
      find_dentry fs m fname dentry (count_of fs.num_dir_entry) 0

  pub read_dentry_by_index : FileSystem → Memory → ℕ → Dentry → ℤ × Dentry
  read_dentry_by_index fs m index dentry =
      if leb fs.num_dir_entry index then (minus_one, dentry) else (pos 0, dentry_at fs m index)

  abbrev pub inode_length : FileSystem → Memory → ℕ → ℕ
  inode_length fs m inode = load32 task m (inode_at fs inode)

  -- data_block(inode_table[inode].data[i])
  abbrev pub block_address : FileSystem → Memory → ℕ → ℕ → ℕ
  block_address fs m inode i =
      fs.data_block_start + data_block_size * load32 task m (inode_at fs inode + 4 + 4 * i)

  -- The loop of read_data. The fuel is the length left, and a round copies a byte at least.
  module _ (fs : FileSystem) (inode start first : ℕ) where
    read_blocks : ℕ → ℕ → ℕ → ℕ → ℕ → Memory → ℤ × Memory
    read_blocks zero i remaining total buf m = (pos total, m)
    read_blocks (suc fuel) i remaining total buf m =
        let copied = copied_length start first i remaining in
        let from = block_address fs m inode i + offset_in start first i in
        let m' = memcpy task m buf from copied in
        let rest =
          read_blocks fuel (i + 1) (remaining - copied) (total + copied) (buf + copied) m' in
        if not (ltb i (inode_length fs m inode))
        then (pos total, m)
        else if remaining - copied == 0
        then (pos (total + copied), m')
        else rest

  pub remaining_length : FileSystem → Memory → ℕ → ℕ → ℕ → ℕ
  remaining_length fs m inode offset count =
      if ltb (inode_length fs m inode) ((offset + count) % 2 ^ 32)
      then (inode_length fs m inode + 2 ^ 32 - offset) % 2 ^ 32
      else count

  pub read_data : FileSystem → Memory → ℕ → ℕ → ℕ → ℕ → ℤ × Memory
  read_data fs m inode offset buf count =
      if leb fs.num_inodes inode
      then (minus_one, m)
      else if not (is_positive (remaining_length fs m inode offset count))
      then (pos 0, m)
      else read_blocks fs inode (offset / data_block_size) (offset % data_block_size)
          (remaining_length fs m inode offset count) (offset / data_block_size)
          (remaining_length fs m inode offset count) 0 buf m

  unfoldable pub filesys_read : FileSystem → Memory → ℕ → ℕ → ℕ → ℕ → ℤ × Memory
  filesys_read = read_data

  -- `f` is an uninitialised local; it is read only after the lookup has filled it.
  pub filesys_read_by_name : FileSystem → Memory → ℕ → ℕ → ℕ → Option (ℤ × Memory)
  filesys_read_by_name fs m fname buf count =
      read_dentry_by_name fs m fname no_dentry >>= λ (res, f).
      if is_minus_one res then some (minus_one, m) else some (read_data fs m f.inode 0 buf count)

  pub load_executable : FileSystem → Memory → ℕ → ℕ → Option (ℤ × Memory)
  load_executable fs m fname dest = filesys_read_by_name fs m fname dest max_int >>= λ (res, m').
      some (if is_minus_one res then minus_one else pos 0, m')

  -- A name that fills its 32 bytes gets its NUL at buf[32].
  dir_read_entry : FileSystem → Memory → ℕ → ℤ × Dentry → Option (ℤ × FileSystem × Memory)
  dir_read_entry fs m buf (res, temp) =
      let m' = store task (store_bytes m buf temp.file_name) (buf + max_name_length) 0 in
      if is_minus_one res
      then some (res, fs, m)
      else strlen task m' buf >>= λ l.
          some (pos l, record fs { current_dir_read_index = fs.current_dir_read_index + 1 }, m')

  pub dir_read : FileSystem → Memory → ℕ → Option (ℤ × FileSystem × Memory)
  unfolding dir_read_entry
  dir_read fs m buf =
      if not (ltb fs.current_dir_read_index (count_of fs.num_dir_entry))
      then some (pos 0, fs, m)
      else dir_read_entry fs m buf (read_dentry_by_index fs m fs.current_dir_read_index no_dentry)

unfoldable pub filesys_open : FileSystem → ℤ × FileSystem
filesys_open fs = (pos 0, record fs { current_dir_read_index = 0 })

pub filesys_close : ℤ
filesys_close = pos 0

pub filesys_write : ℤ
filesys_write = minus_one

pub dir_open : FileSystem → ℤ × FileSystem
dir_open fs = (pos 0, record fs { current_dir_read_index = 0 })

pub dir_close : FileSystem → ℤ × FileSystem
dir_close fs = (pos 0, record fs { current_dir_read_index = 0 })

pub dir_write : ℤ
dir_write = minus_one
