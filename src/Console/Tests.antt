-- ===== src/Console/Tests.antt =====
-- A text that is longer than what is left of its row.
use pony_os.Base.{◌≡◌, codes, refl, arith}
use pony_os.Screen.Tests.{full}
use pony_os.Console.{Console, putc_all}
use pony_os.Console.Rows.{putc_all_row}

abbrev last_columns : Console
last_columns = record { screen_x = 75; screen_y = 3; screen = full }

putc_all_row_example :
    ((putc_all (codes "Enabling Interrupts") last_columns).screen_x ≡ 14)
    × ((putc_all (codes "Enabling Interrupts") last_columns).screen_y ≡ 3)
putc_all_row_example =
    putc_all_row (codes "Enabling Interrupts") last_columns refl (omega arith) (omega arith)
