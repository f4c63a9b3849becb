-- ===== src/Run/Clock.antt =====
-- `nextTick` of cmd/tinc-boot/run/main_linux.go: the version under which a node announces itself at
-- this start, kept in a file.
pub mod Ticks
use tinc_boot.Prelude.{
  ℕ, zero, suc, ◌+◌, ◌-◌, ◌^◌, Bool, true, false, List, [], Option, none, some, ◌==◌, if◌then◌else◌,
}
use tinc_boot.Prelude.Int.{ℤ, pos, negsuc}
use tinc_boot.Text.{Text, codes}
use tinc_boot.Text.Strings.{trim_space}
use tinc_boot.Numbers.{parse_int, format_int}
use tinc_boot.Daemon.Disk.{Outcome, write_file}

-- `tick++` on an int64.
unfoldable pub increment : ℤ → ℤ
increment (pos n) = if n == 2 ^ 63 - 1 then negsuc (2 ^ 63 - 1) else pos (n + 1)
increment (negsuc zero) = pos 0
increment (negsuc (suc n)) = negsuc n

-- The tick that a file's content stands for: 0 for a broken one.
unfoldable pub read_tick : Text → ℤ
read_tick content = elim (parse_int (trim_space content)) [ none ↦ pos 0 | some tick ↦ tick ]

pub data Tick : Type 0 where
  ticked : ℤ → Tick
  read_clock write_failed : Tick

-- `nextTick`; `denied` is a failure to read a file that exists. The tick beside an error is not used.
unfoldable pub next_tick : Bool → Outcome → Option Text → Option Text × Tick
next_tick denied outcome none =
    let (clock, written) =
      write_file outcome (format_int (increment (read_tick (codes "0")))) none in
    (clock, if written then ticked (increment (read_tick (codes "0"))) else write_failed)
next_tick denied outcome (some content) =
    if denied
    then (some content, read_clock)
    else let tick = increment (read_tick content) in
      let (clock, written) = write_file outcome (format_int tick) (some content) in
      (clock, if written then ticked tick else write_failed)
