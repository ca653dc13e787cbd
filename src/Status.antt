-- ===== src/Status.antt =====
-- The return codes of util/macros.h.
use kanbudb.Prelude.{Bool, true, false}

pub data Status : Type 0 where
  ok oom not_found exists corrupt io inval busy : Status

-- `rc == KANBUDB_OK`
abbrev pub is_ok : Status → Bool
is_ok Status.ok = true
is_ok _ = false
