-- ===== src/Pic/Sample.antt =====
-- Two interrupt controllers that read as their masks.
use feudos.Prelude.{refl, ◌==◌, if◌then◌else◌}
use feudos.Io.{Device}
use feudos.Pic.{pic1_data}
use feudos.Pic.Chips.{Chip, mask_byte, chip1, chip2, ReadsMasks}

abbrev pub first : Chip
first = record { awaits = mask_byte; offset = 8; cascade = 4; mode = 1; mask = 0xB8; ended = 0 }

abbrev pub second : Chip
second = record { awaits = mask_byte; offset = 0x70; cascade = 2; mode = 1; mask = 0x8F; ended = 0 }

abbrev pub chips : Device
chips tr port = if port == pic1_data then (chip1 first tr).mask else (chip2 second tr).mask

pub chips-ReadsMasks : ReadsMasks chips first second
chips-ReadsMasks = record { reads1 = λ tr a. refl; reads2 = λ tr a. refl }
