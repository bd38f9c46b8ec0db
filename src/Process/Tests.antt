-- ===== src/Process/Tests.antt =====
-- A kernel with the processes 1 and 2, of which 1 runs.
use pony_os.Base.{ℕ, ◌==◌, ◌||◌, if◌then◌else◌, some, none}
use pony_os.FileSystem.Tests.{disk, fs}
use pony_os.Process.{unset, FileDesc, Pcb, Kernel, initial_files}
use pony_os.Rtc.Tests.{clock}
use pony_os.Screen.Tests.{full}
use pony_os.Terminal.Tests.{lines}

abbrev pub no_file : FileDesc
no_file = record { read = unset; write = unset; inode = 0; file_position = 0; flags = 0 }

abbrev pub shell : ℕ → Pcb
shell pid = record {
  parent = none;
  child = none;
  parent_esp = 0;
  parent_ebp = 0;
  current_esp = 0;
  current_ebp = 0;
  terminal = 0;
  is_terminal = 0;
  file_array = initial_files (λ i. no_file);
  available = λ i. 0;
  pid = pid;
}

abbrev pub kernel : Kernel
kernel = record {
  current_pid = some 1;
  total_running_process = 2;
  process_status = λ i. if i == 1 || i == 2 then 1 else 0;
  pcbs = shell;
  arg_buf = λ i. 0;
  arg_available = λ i. 0;
  entry_point = 0;
  esp0 = 0;
  fs = fs;
  rtc = clock;
  terminals = lines;
  screen = record full { memory = disk };
}
