-- ===== src/MemoryMap/Windows/Tests.antt =====
-- A memory map on Windows at a concrete new file.
use wsclient.Base.{◌==◌, true, some, if◌then◌else◌}
use wsclient.MemoryMap.Windows.{Handle, Answers, one_mb}

abbrev answers : Answers
answers = record {
  existing = Handle.invalid;
  low_size = 0;
  high_size = 0;
  fresh = Handle.handle 3;
  temp = true;
  written = λ n. if n == 0 then one_mb else 1424;
  file = Handle.handle 4;
  mapping = Handle.handle 5;
  view = some 65536;
}
