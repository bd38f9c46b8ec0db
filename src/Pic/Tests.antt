-- ===== src/Pic/Tests.antt =====
-- The keyboard's line.
use pony_os.Base.{[]}
use pony_os.Pic.{Pic}

abbrev pub started : Pic
started = record {
  master_port = 0xfb;
  slave_port = 0xff;
  master_mask = 0xfb;
  slave_mask = 0xff;
  commands = [];
}
