-- ===== src/Execute.antt =====
-- execute and halt of student-distrib/systemcall.c.
pub mod Parent
pub mod Args
mod Tests
use pony_os.Base.{
  ℕ, zero, suc, ◌+◌, ◌-◌, ◌*◌, ◌%◌, ◌^◌, ◌&&◌, Bool, not, Option, none, some, List, length, ltb,
  leb, ◌==◌, if◌then◌else◌, ℤ, pos, minus_one, is_minus_one, Outcome, returns, faults, scanned,
  and_then,
}
use pony_os.Memory.{Memory, load, load32, store, memcpy}
use pony_os.Strings.{strlen}
use pony_os.FileSystem.{
  no_dentry, bytes_at, read_dentry_by_name, filesys_read_by_name, load_executable,
}
use pony_os.Paging.{update_at, setup_task_page}
use pony_os.Screen.{set_active_terminal, clear}
use pony_os.Terminal.{ended}
use pony_os.Process.{
  Pcb, Kernel, max_pid, max_arg_size, memory_of, with_memory, task_of, with_pcb, stack_top,
  pcb_init, get_empty_pid, set_current_pid,
}
use pony_os.Scheduler.{Registers}
use pony_os.SystemCall.{with_current}

abbrev pub exec_info_bytes : ℕ
exec_info_bytes = 28

abbrev pub user_program_addr : ℕ
user_program_addr = 0x8048000

-- What the processor does after the call: it goes back to the caller with a result, enters user mode
-- at an address, goes back to the caller of another execute with the registers of that one and the
-- result 0, or spins until the timer takes over.
pub data Control : Type 0 where
  result : ℤ → Control
  user_mode : ℕ → Control
  resume : Registers → Control
  spin : Control

-- The two loops over the command, with `n` characters of it left: where the first space is, and
-- where the first other character is.
pub first_space : (ℕ → ℕ) → ℕ → ℕ → ℕ
first_space char zero i = i
first_space char (suc n) i = if char i == b' ' then i else first_space char n (i + 1)

pub after_spaces : (ℕ → ℕ) → ℕ → ℕ → ℕ
after_spaces char zero i = i
after_spaces char (suc n) i = if not (char i == b' ') then i else after_spaces char n (i + 1)

-- The argument at the index `i` of the command, copied to arg_buf[pid].
pub with_args : ℕ → ℕ → ℕ → ℕ → Kernel → Outcome Kernel
with_args pid command l i k =
    let char = λ (j : ℕ). load (task_of k) (memory_of k) (command + j) in
    let start = after_spaces char (l - i) i in
    let row = pid * max_arg_size in
    let buffer =
      ended k.arg_buf row (bytes_at (task_of k) (memory_of k) (command + start) (l - start))
        (l - start) in
    if leb (max_pid * max_arg_size) (row + (l - start))
    then faults
    else returns (record k {
      arg_buf = buffer;
      arg_available = update_at k.arg_available pid (if buffer row == 0 then 0 else 1);
    })

abbrev pub with_task : ℕ → Kernel → Kernel
with_task pid k = record k {
  screen = record (k.screen) { paging = setup_task_page pid k.screen.paging };
}

-- The pcb of the new process, the child pointer of its parent, and the registers that both keep.
pub new_pcb : Option ℕ → ℕ → ℕ → ℕ → Registers → Pcb → Pcb
new_pcb prev pid terminal_num is_terminal r p = record p {
  terminal = terminal_num;
  parent = prev;
  is_terminal = is_terminal;
  current_ebp = stack_top pid;
  current_esp = stack_top pid;
  parent_esp = r.esp;
  parent_ebp = r.ebp;
}

pub start : ℕ → ℕ → ℕ → Registers → Kernel → Outcome Kernel
start pid terminal_num is_terminal r k =
    let own = with_pcb k pid (new_pcb k.current_pid pid terminal_num is_terminal r (k.pcbs pid)) in
    let running = λ (k : Kernel). set_current_pid pid (record k { esp0 = stack_top pid }) in
    let child = λ (p : Pcb). if is_terminal == 0 then some pid else p.child in
    elim k.current_pid [
      | none ↦ if is_terminal == 0 then faults else returns (running own)
      | some q ↦ returns (
          running (
            with_pcb own q (record (own.pcbs q) {
              child = child (own.pcbs q);
              current_esp = r.esp;
              current_ebp = r.ebp;
            })))
    ]

pub leave_to : Pcb → Kernel → ℕ → Kernel
leave_to pcb k q =
    let parent = k.pcbs q in
    set_current_pid parent.pid
      (record (with_pcb (with_task parent.pid k) q (record parent { child = none })) {
        esp0 = stack_top q;
      })

pub exit : Kernel → ℕ → Pcb → Outcome (Control × Kernel)
exit k p pcb =
    let k1 = record k {
      total_running_process = (k.total_running_process + (2 ^ 32 - 1)) % 2 ^ 32;
      process_status = update_at k.process_status pcb.pid 0;
    } in
    if not (pcb.is_terminal == 0)
    then returns (spin, record k1 { screen = clear k1.screen })
    else elim pcb.parent [
      | none ↦ faults
      | some q ↦
          returns
            (resume (record { esp = pcb.parent_esp; ebp = pcb.parent_ebp }), leave_to pcb k1 q)
    ]

-- `fname`, `temp_buf` and `shell_name` are where the linker and the stack put the array fname, the
-- buffer tempBuf and the string "shell".
module _ (fname temp_buf shell_name : ℕ) where
  pub is_executable : Kernel → Bool
  is_executable k =
      let byte = λ (j : ℕ). load (task_of k) (memory_of k) (temp_buf + j) in
      (byte 0 == 0x7f) && (byte 1 == 0x45) && (byte 2 == 0x4c) && (byte 3 == 0x46)

  -- From the assigned process number on; `i` is the end of the program's name in the command.
  pub run_in : ℕ → ℕ → ℕ → ℕ → ℕ → Registers → Kernel → Outcome (Control × Kernel)
  run_in pid command i terminal_num is_terminal r k =
      let claimed = pcb_init pid (record k {
        process_status = update_at k.process_status pid 1;
        total_running_process = (k.total_running_process + 1) % 2 ^ 32;
      }) in
      and_then (scanned (strlen (task_of k) (memory_of k) command)) λ l.
        and_then (with_args pid command l i claimed) λ k1.
          let mapped = with_task pid k1 in
          let k2 = record mapped { screen = set_active_terminal terminal_num mapped.screen } in
          and_then
            (scanned (load_executable (task_of k2) k2.fs (memory_of k2) fname user_program_addr))
            λ (res, m).
              let k3 = with_memory k2 m in
              let entry = load32 (task_of k3) m (temp_buf + 24) in
              if is_minus_one res
              then returns (result minus_one, k3)
              else and_then
                  (start pid terminal_num is_terminal r (record k3 { entry_point = entry }))
                  λ k4. returns (user_mode entry, k4)

  -- The name was found.
  pub run_file : ℕ → ℕ → ℕ → ℕ → Registers → Kernel → Outcome (Control × Kernel)
  run_file command i terminal_num is_terminal r k =
      and_then
        (scanned
          (filesys_read_by_name (task_of k) k.fs (memory_of k) fname temp_buf exec_info_bytes))
        λ (res, m).
          let k1 = with_memory k m in
          if not (is_executable k1)
          then returns (result minus_one, k1)
          else elim (get_empty_pid k1) [
            | none ↦ returns (result minus_one, k1)
            | some pid ↦ run_in pid command i terminal_num is_terminal r k1
          ]

  -- A name that does not fit the array overruns it.
  pub execute_with_terminal_num : ℕ → ℕ → ℕ → Registers → Kernel → Outcome (Control × Kernel)
  execute_with_terminal_num command terminal_num is_terminal r k =
      let task = task_of k in
      let m = memory_of k in
      if command == 0
      then returns (result minus_one, k)
      else and_then (scanned (strlen task m command)) λ l.
        let i = first_space (λ j. load task m (command + j)) l 0 in
        let k1 = with_memory k (store task (memcpy task m fname command i) (fname + i) 0) in
        if leb max_arg_size i
        then faults
        else and_then (scanned (read_dentry_by_name task k.fs (memory_of k1) fname no_dentry))
            λ (res, f).
              if is_minus_one res
              then returns (result minus_one, k1)
              else run_file command i terminal_num is_terminal r k1

  pub execute : ℕ → Registers → Kernel → Outcome (Control × Kernel)
  execute command r k = with_current k λ p pcb. execute_with_terminal_num command pcb.terminal 0 r k

  -- The last process is not left: the shell starts again in its place.
  pub restart_shell : Kernel → Outcome (Control × Kernel)
  restart_shell k =
      and_then
        (scanned
          (filesys_read_by_name (task_of k) k.fs (memory_of k) shell_name temp_buf exec_info_bytes))
        λ (res, m).
          let entry = load32 (task_of k) m (temp_buf + 24) in
          returns (user_mode entry, record (with_memory k m) { entry_point = entry })

  pub halt : ℤ → Kernel → Outcome (Control × Kernel)
  halt status k = if k.total_running_process == 1 then restart_shell k else with_current k (exit k)
