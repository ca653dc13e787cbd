-- ===== src/Shutdown.antt =====
-- How `db_close` and the compaction thread of src/core/db.c, `compact_worker`, take the locks and end.
-- The two run interleaved, one step at a time; no other call is under way. Of the work between the
-- locks only its end is a step.
pub mod Joins
use kanbudb.Prelude.{◌≡◌, Bool, true, false, ◌&&◌, not, Option, none, some, if◌then◌else◌}

-- Where the thread stands: at the test of its loop, in its sleep, at the test behind it, before the
-- first lock, with one, two or all locks, and at its end.
pub data Worker : Type 0 where
  top sleeping test want has_table has_lsm working ended : Worker

-- Where `db_close` stands: before its first lock, with one to four locks, in `pthread_join`, and behind it.
pub data Closer : Type 0 where
  begin has_table has_wal has_lsm has_all joining closed : Closer

pub record State : Type 0 where
  pub compact_running : Bool
  pub worker : Worker
  pub closer : Closer

-- Whether each of them holds the table lock, the LSM lock and the B+tree lock.
abbrev pub worker_table : Worker → Bool
worker_table Worker.has_table = true
worker_table Worker.has_lsm = true
worker_table Worker.working = true
worker_table _ = false

abbrev pub worker_lsm : Worker → Bool
worker_lsm Worker.has_lsm = true
worker_lsm Worker.working = true
worker_lsm _ = false

abbrev pub worker_btree : Worker → Bool
worker_btree Worker.working = true
worker_btree _ = false

abbrev pub closer_table : Closer → Bool
closer_table Closer.begin = false
closer_table Closer.closed = false
closer_table _ = true

abbrev pub closer_lsm : Closer → Bool
closer_lsm Closer.has_lsm = true
closer_lsm Closer.has_all = true
closer_lsm Closer.joining = true
closer_lsm _ = false

abbrev pub closer_btree : Closer → Bool
closer_btree Closer.has_all = true
closer_btree Closer.joining = true
closer_btree _ = false

-- A lock is taken, if it is free; `pthread_join` waits in the same way.
abbrev pub take_lock : Bool → State → Option State
take_lock held s = if held then none else some s

-- The next step of `compact_worker`; `none`: it waits, or it has ended.
unfoldable pub worker_at : Worker → State → Option State
worker_at Worker.top s =
    some (record s { worker = if s.compact_running then Worker.sleeping else Worker.ended })
worker_at Worker.sleeping s = some (record s { worker = Worker.test })
worker_at Worker.test s =
    some (record s { worker = if s.compact_running then Worker.want else Worker.ended })
worker_at Worker.want s = take_lock (closer_table s.closer) (record s { worker = Worker.has_table })
worker_at Worker.has_table s =
    take_lock (closer_lsm s.closer) (record s { worker = Worker.has_lsm })
worker_at Worker.has_lsm s =
    take_lock (closer_btree s.closer) (record s { worker = Worker.working })
worker_at Worker.working s = some (record s { worker = Worker.top })
worker_at Worker.ended s = none

abbrev pub worker_step : State → Option State
worker_step s = worker_at s.worker s

abbrev pub has_ended : Worker → Bool
has_ended Worker.ended = true
has_ended _ = false

-- The next step of `db_close`; the lock of the log, which the thread does not use, is free.
unfoldable pub closer_at : Closer → State → Option State
closer_at Closer.begin s =
    take_lock (worker_table s.worker) (record s { closer = Closer.has_table })
closer_at Closer.has_table s = some (record s { closer = Closer.has_wal })
closer_at Closer.has_wal s = take_lock (worker_lsm s.worker) (record s { closer = Closer.has_lsm })
closer_at Closer.has_lsm s =
    take_lock (worker_btree s.worker) (record s { closer = Closer.has_all })
closer_at Closer.has_all s = some (record s { compact_running = false; closer = Closer.joining })
closer_at Closer.joining s =
    take_lock (not (has_ended s.worker)) (record s { closer = Closer.closed })
closer_at Closer.closed s = none

abbrev pub closer_step : State → Option State
closer_step s = closer_at s.closer s

pub data Step (s t : State) : Type 0 where
  by_worker : worker_step s ≡ some t → Step s t
  by_closer : closer_step s ≡ some t → Step s t

-- A run from one state to another.
pub data Leads (s : State) : State → Type 0 where
  here : Leads s s
  later : {t u : State} → Leads s t → Step t u → Leads s u

-- When `db_close` is called, wherever the thread stands in its sleep.
abbrev pub called : State
called = record { compact_running = true; worker = Worker.top; closer = Closer.begin }
