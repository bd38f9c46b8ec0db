-- ===== src/Process.antt =====
-- The process table of student-distrib/systemcall.c: process control blocks, process numbers, and
-- the state of the whole kernel that the system calls change.
pub mod Slots
pub mod Tests
use pony_os.Base.{
  ℕ, zero, suc, ◌+◌, ◌-◌, ◌*◌, Bool, Option, none, some, ltb, ◌==◌, if◌then◌else◌, ℤ, pos,
  minus_one,
}
use pony_os.Memory.{Memory}
use pony_os.FileSystem.{FileSystem}
use pony_os.Paging.{Paging, update_at}
use pony_os.Rtc.{Rtc}
use pony_os.Screen.{Screen}
use pony_os.Terminal.{Terminals}

-- What a function pointer of a file descriptor holds. `unset` is what was there before.
pub data Driver : Type 0 where
  null : Driver
  unset : Driver
  terminal_read_wrapper : Driver
  terminal_write_wrapper : Driver
  rtc_read_wrapper : Driver
  rtc_write_wrapper : Driver
  filesys_read_driver : Driver
  filesys_write_wrapper : Driver
  dir_read_wrapper : Driver
  dir_write_wrapper : Driver

pub record FileDesc : Type 0 where
  pub read : Driver
  pub write : Driver
  pub inode : ℕ
  pub file_position : ℕ
  pub flags : ℕ

-- A pointer to a pcb is `none` for NULL, or the number of the process whose stack bottom it is.
pub record Pcb : Type 0 where
  pub parent : Option ℕ
  pub child : Option ℕ
  pub parent_esp : ℕ
  pub parent_ebp : ℕ
  pub current_esp : ℕ
  pub current_ebp : ℕ
  pub terminal : ℕ
  pub is_terminal : ℕ
  pub file_array : ℕ → FileDesc
  pub available : ℕ → ℕ
  pub pid : ℕ

-- `current_pid` is `none` for -1. arg_buf[pid][i] stands at pid * MAX_ARG_SIZE + i.
pub record Kernel : Type 0 where
  pub current_pid : Option ℕ
  pub total_running_process : ℕ
  pub process_status : ℕ → ℕ
  pub pcbs : ℕ → Pcb
  pub arg_buf : ℕ → ℕ
  pub arg_available : ℕ → ℕ
  pub entry_point : ℕ
  pub esp0 : ℕ
  pub fs : FileSystem
  pub rtc : Rtc
  pub terminals : Terminals
  pub screen : Screen

abbrev pub fdt_size : ℕ
fdt_size = 8

abbrev pub max_pid : ℕ
max_pid = 8

abbrev pub max_arg_size : ℕ
max_arg_size = 4096

abbrev pub assigned_pcb_size : ℕ
assigned_pcb_size = 0x2000

abbrev pub mem_defense_size : ℕ
mem_defense_size = 8

abbrev pub memory_of : Kernel → Memory
memory_of k = k.screen.memory

abbrev pub with_memory : Kernel → Memory → Kernel
with_memory k m = record k { screen = record (k.screen) { memory = m } }

-- Where the 4 MB page of the task that is mapped now starts, in 4 KB units.
abbrev pub task_of : Kernel → ℕ
task_of k = (k.screen.paging.page_dir 32).aligned_address

abbrev pub with_pcb : Kernel → ℕ → Pcb → Kernel
with_pcb k pid p = record k { pcbs = update_at k.pcbs pid p }

unfoldable pub get_running_process_num : Kernel → ℕ
get_running_process_num k = k.total_running_process

unfoldable pub set_current_pid : ℕ → Kernel → Kernel
set_current_pid pid k = record k { current_pid = some pid }

unfoldable pub is_running : Kernel → ℕ → ℕ
is_running k pid = if pid == 0 then 0 else k.process_status pid

pub get_kernel_stack_bottom : ℕ → ℕ
get_kernel_stack_bottom pid = 0x800000 - assigned_pcb_size * (pid + 1)

-- tss.esp0 while the process runs.
abbrev pub stack_top : ℕ → ℕ
stack_top pid = get_kernel_stack_bottom pid + assigned_pcb_size - mem_defense_size

-- The pcb fields that pcb_init sets; the rest keeps what the pcb's place held.
abbrev pub stdin_desc : FileDesc → FileDesc
stdin_desc d = record d { read = terminal_read_wrapper; write = null; flags = 1 }

abbrev pub stdout_desc : FileDesc → FileDesc
stdout_desc d = record d { read = null; write = terminal_write_wrapper; flags = 1 }

unfoldable pub initial_files : (ℕ → FileDesc) → ℕ → FileDesc
initial_files files i =
    if i == 0
    then stdin_desc (files 0)
    else if i == 1
    then stdout_desc (files 1)
    else if ltb i fdt_size
    then record (files i) { flags = 0 }
    else files i

pub pcb_init : ℕ → Kernel → Kernel
pcb_init pid k =
    with_pcb k pid
      (record (k.pcbs pid) { pid = pid; file_array = initial_files (k.pcbs pid).file_array })

-- The loop of get_empty_pid with `n` rounds left.
pub empty_from : (ℕ → ℕ) → ℕ → ℕ → Option ℕ
empty_from status zero i = none
empty_from status (suc n) i = if status i == 0 then some i else empty_from status n (i + 1)

-- `none` is the source's -1.
pub get_empty_pid : Kernel → Option ℕ
get_empty_pid k = empty_from k.process_status (max_pid - 1) 1
