-- ===== src/Tests/Firmware.antt =====
-- src/acpi/mod.rs: the theorem on a memory of zeros.
use delta_os.Acpi.Tables.{Ram, new}
use delta_os.Acpi.{parse}
use delta_os.Acpi.Bounds.{SoundOutcome, new-IsInfo, parse-SoundOutcome}

abbrev zeros : Ram
zeros addr = 0

parse-SoundOutcome_example : SoundOutcome (parse zeros new)
parse-SoundOutcome_example = parse-SoundOutcome zeros new new-IsInfo
