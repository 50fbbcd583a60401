-- ===== src/MemoryMap/Tests.antt =====
-- A memory map at a concrete file.
use wsclient.Base.{some}
use wsclient.MemoryMap.{Opening}

abbrev opening : Opening
opening = record { descriptor = some 3; length = 4096; address = some 65536 }
