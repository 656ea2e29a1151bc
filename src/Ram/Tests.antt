-- ===== src/Ram/Tests.antt =====
-- Examples for the theorems on the RAM.
use linchpin.Base.{◌+◌, ◌*◌, ◌%◌, arith}
use linchpin.Ram.{Ram, move_ram_bytes, zero_ram_bytes}
use linchpin.Ram.Access.{Holds}
use linchpin.Ram.Zero.{zeroed, zero_ram_bytes-Holds}
use linchpin.Ram.Move.{moved, move_ram_bytes-Holds}

abbrev sample_ram : Ram
sample_ram b i = (b * 7 + i) % 256

-- Overlapping ranges across the end of a bank.
move_ram_bytes-Holds_example :
    Holds (move_ram_bytes sample_ram 0x7ffc 0x7ff8 8) (moved sample_ram 0x7ffc 0x7ff8 8)
move_ram_bytes-Holds_example =
    move_ram_bytes-Holds sample_ram 0x7ffc 0x7ff8 8 (omega arith) (omega arith)

zero_ram_bytes-Holds_example :
    Holds (zero_ram_bytes sample_ram 0xfffe 6) (zeroed sample_ram 0xfffe 6)
zero_ram_bytes-Holds_example = zero_ram_bytes-Holds sample_ram 0xfffe 6 (omega arith)
