-- ===== src/MemoryMap/Windows/Handles.antt =====
-- Handles that are opened and closed on Windows, for ext/easywsclient/MemoryMap.cpp.
use wsclient.Base.{ℕ, ◌≡◌, refl, List, ◌++◌}
use wsclient.Wsocket.Table.{table_after, remove-same}
use wsclient.MemoryMap.Windows.{Handle, invalid, null, handle, opens, closes}

pub opens-closes : (h : Handle) (table : List ℕ) → table_after (opens h ++ closes h) table ≡ table
opens-closes invalid table = refl
opens-closes null table = refl
opens-closes (handle h) table = remove-same h table
