-- ===== src/SystemCall.antt =====
-- The system calls of student-distrib/systemcall.c on files: open, read, write, close, getargs and
-- vidmap. Arguments are bit patterns; results are signed.
pub mod Files
pub mod Reading
pub mod Writing
pub mod Listing
pub mod Refused
pub mod Tests
use pony_os.Base.{
  ◌%◌, ℕ, zero, suc, ◌+◌, ◌-◌, ◌*◌, ◌^◌, Bool, not, ◌&&◌, ◌||◌, Option, none, some, ltb, leb, ◌==◌,
  if◌then◌else◌, ℤ, pos, negsuc, minus_one, is_minus_one, Outcome, returns, waits, faults, endless,
  scanned, and_then,
}
use pony_os.Memory.{load32, store32}
use pony_os.FileSystem.{
  Dentry, no_dentry, read_dentry_by_name, filesys_read, filesys_write, filesys_open, dir_read,
  dir_write, store_bytes,
}
use pony_os.Paging.{update_at}
use pony_os.Rtc.{rtc_read, rtc_write}
use pony_os.Screen.{Screen}
use pony_os.Terminal.{Terminals, terminal_read, terminal_write, get_bytes, is_negative}
use pony_os.Process.{
  Driver, null, unset, terminal_read_wrapper, terminal_write_wrapper, rtc_read_wrapper,
  rtc_write_wrapper, filesys_read_driver, filesys_write_wrapper, dir_read_wrapper,
  dir_write_wrapper, FileDesc, Pcb, Kernel, fdt_size, max_arg_size, memory_of, with_memory, task_of,
  with_pcb,
}

abbrev pub Call : Type 0
Call = Outcome (ℤ × Kernel)

-- A call that goes through the current pcb: NULL is not mapped.
abbrev pub with_current : {A : Type 0} → Kernel → (ℕ → Pcb → Outcome A) → Outcome A
with_current k f = elim k.current_pid [ none ↦ faults | some p ↦ f p (k.pcbs p) ]

abbrev pub with_file : Pcb → ℕ → FileDesc → Pcb
with_file pcb fd d = record pcb { file_array = update_at pcb.file_array fd d }

-- The first descriptor that is not in use, from the `i`-th on, of the `n` left; fdt_size if none.
pub free_from : (ℕ → FileDesc) → ℕ → ℕ → ℕ
free_from files zero i = i
free_from files (suc n) i = if (files i).flags == 0 then i else free_from files n (i + 1)

abbrev pub rtc_type : ℕ
rtc_type = 0

abbrev pub dir_type : ℕ
dir_type = 1

abbrev pub reg_type : ℕ
reg_type = 2

-- The function pointers by the type of the file; any other type leaves those of the last use.
abbrev pub drivers : ℕ → FileDesc → FileDesc
drivers file_type d =
    if file_type == rtc_type
    then record d { read = rtc_read_wrapper; write = rtc_write_wrapper }
    else if file_type == reg_type
    then record d { read = filesys_read_driver; write = filesys_write_wrapper }
    else if file_type == dir_type
    then record d { read = dir_read_wrapper; write = dir_write_wrapper }
    else d

abbrev pub opened : Dentry → FileDesc → FileDesc
opened f d = drivers f.file_type (record d { inode = f.inode; flags = 1; file_position = 0 })

abbrev pub open_directory : Dentry → Kernel → Kernel
open_directory f k = if f.file_type == dir_type then record k { fs = (filesys_open k.fs).1 } else k

pub open_entry : Dentry → Kernel → ℕ → Pcb → Call
open_entry f k p pcb =
    let i = free_from pcb.file_array fdt_size 0 in
    let pcb' = record (with_file pcb i (opened f (pcb.file_array i))) {
      available = update_at pcb.available i 1;
    } in
    if i == fdt_size
    then returns (minus_one, k)
    else returns (pos i, open_directory f (with_pcb k p pcb'))

pub open_file : Kernel → ℕ → Call
open_file k filename =
    and_then (scanned (read_dentry_by_name (task_of k) k.fs (memory_of k) filename no_dentry))
      λ (res, temp).
        if is_minus_one res then returns (minus_one, k) else with_current k (open_entry temp k)

-- The call through the function pointer `read`.
pub call_read : Driver → Kernel → ℕ → ℕ → ℕ → ℕ → Call
call_read terminal_read_wrapper k inode offset buf count =
    and_then (terminal_read (task_of k) k.terminals k.screen buf count)
      λ (l, ts, s). returns (pos l, record k { terminals = ts; screen = s })
call_read rtc_read_wrapper k inode offset buf count =
    and_then (rtc_read k.rtc) λ (res, r). returns (res, record k { rtc = r })
call_read filesys_read_driver k inode offset buf count =
    let (res, m) = filesys_read (task_of k) k.fs (memory_of k) inode offset buf count in
    returns (res, with_memory k m)
call_read dir_read_wrapper k inode offset buf count =
    and_then (scanned (dir_read (task_of k) k.fs (memory_of k) buf))
      λ (res, fs, m). returns (res, with_memory (record k { fs = fs }) m)
call_read _ k inode offset buf count = faults

pub call_write : Driver → Kernel → ℕ → ℕ → Call
call_write terminal_write_wrapper k buf count =
    and_then (terminal_write (task_of k) k.terminals k.screen buf count)
      λ (n, ts, s). returns (pos n, record k { terminals = ts; screen = s })
call_write rtc_write_wrapper k buf count =
    let freq = if buf == 0 then none else some (load32 (task_of k) (memory_of k) buf) in
    let (res, r) = rtc_write freq 4 k.rtc in returns (res, record k { rtc = r })
call_write filesys_write_wrapper k buf count = returns (filesys_write, k)
call_write dir_write_wrapper k buf count = returns (dir_write, k)
call_write _ k buf count = faults

abbrev pub add_int : ℕ → ℤ → ℕ
add_int w (pos n) = (w + n) % 2 ^ 32
add_int w (negsuc n) = (w + (2 ^ 32 - 1 - n)) % 2 ^ 32

-- `file_position += bytes_read` in the current process, after a read that did not fail.
pub advance : ℕ → ℕ → ℤ × Kernel → ℤ × Kernel
advance p fd (res, k) =
    let pcb = k.pcbs p in
    let d = pcb.file_array fd in
    if is_minus_one res then (minus_one, k) else (
      res,
      with_pcb k p (with_file pcb fd (record d { file_position = add_int d.file_position res })),
    )

pub read_open : Kernel → ℕ → ℕ → ℕ → ℕ → Pcb → Call
unfolding call_read advance
read_open k fd buf nbytes p pcb =
    let d = pcb.file_array fd in
    if d.flags == 0
    then returns (minus_one, k)
    else and_then (call_read d.read k d.inode d.file_position buf nbytes)
        λ r. returns (advance p fd r)

pub read : Kernel → ℕ → ℕ → ℕ → Call
read k fd buf nbytes =
    if leb fdt_size fd || fd == 1
    then returns (minus_one, k)
    else with_current k (read_open k fd buf nbytes)

pub write_open : Kernel → ℕ → ℕ → ℕ → ℕ → Pcb → Call
unfolding call_write
write_open k fd buf nbytes p pcb =
    let d = pcb.file_array fd in
    if d.flags == 0 then returns (minus_one, k) else call_write d.write k buf nbytes

pub write : Kernel → ℕ → ℕ → ℕ → Call
write k fd buf nbytes =
    if leb fdt_size fd || fd == 0
    then returns (minus_one, k)
    else with_current k (write_open k fd buf nbytes)

pub close_open : Kernel → ℕ → ℕ → Pcb → Call
close_open k fd p pcb =
    let d = pcb.file_array fd in
    if d.flags == 0
    then returns (minus_one, k)
    else returns (pos 0, with_pcb k p (with_file pcb fd (record d { flags = 0 })))

pub close : Kernel → ℕ → Call
close k fd =
    if leb fdt_size fd || ltb fd 2 then returns (minus_one, k) else with_current k (close_open k fd)

pub getargs : Kernel → ℕ → ℕ → Call
getargs k buf nbytes = if buf == 0 then returns (minus_one, k) else elim k.current_pid [
  | none ↦ faults
  | some p ↦
      if k.arg_available p == 0
      then returns (minus_one, k)
      else if is_negative nbytes
      then faults
      else returns (
        pos 0,
        with_memory k (
            store_bytes (task_of k) (memory_of k) buf
              (get_bytes k.arg_buf (p * max_arg_size) nbytes)),
      )
]

pub do_nothing : ℤ
do_nothing = pos 0

abbrev pub video_user : ℕ
video_user = 0xb8000 + 0xa000000

-- (int)(screenstart) below USER_PAGE_START includes the patterns from 2 ^ 31 on.
pub vidmap : Kernel → ℕ → Call
vidmap k screenstart =
    if screenstart == 0
    then returns (minus_one, k)
    else if ltb screenstart 0x8000000 || leb 0x8400000 screenstart
    then returns (minus_one, k)
    else returns (pos 0, with_memory k (store32 (task_of k) (memory_of k) screenstart video_user))
