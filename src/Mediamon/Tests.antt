-- ===== src/Mediamon/Tests.antt =====
-- 11-7/mediamon.c at concrete inputs.
use mac_os_x_internal.Prelude.{true, some, none}
use mac_os_x_internal.Mediamon.{Device, created, failed}

abbrev disk : Device
disk = record { object = 1; properties = created 2; xml = some 3 }

abbrev gone : Device
gone = record { object = 4; properties = failed true; xml = none }
