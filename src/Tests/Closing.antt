-- ===== src/Tests/Closing.antt =====
-- `db_close` and the compaction thread at one interleaving.
use kanbudb.Prelude.{◌≡◌, refl, ◌⊎◌, true, false, none}
use kanbudb.Shutdown.{
  Worker, Closer, State, worker_at, closer_at, worker_step, closer_step, Step, Leads, called,
}
use kanbudb.Shutdown.Joins.{db_close_joins}

-- The thread woke up and is about to take its first lock, when `db_close` takes all of them.
abbrev both_wait : State
both_wait = record { compact_running = false; worker = Worker.want; closer = Closer.joining }

abbrev awake : State
awake = record { compact_running = true; worker = Worker.want; closer = Closer.begin }

run_awake : Leads called awake
unfolding worker_at
run_awake =
    Leads.later (Leads.later (Leads.later Leads.here (Step.by_worker refl)) (Step.by_worker refl))
      (Step.by_worker refl)

run_both_wait : Leads called both_wait
unfolding closer_at
run_both_wait =
    Leads.later
      (Leads.later
        (Leads.later
          (Leads.later (Leads.later run_awake (Step.by_closer refl)) (Step.by_closer refl))
          (Step.by_closer refl))
        (Step.by_closer refl))
      (Step.by_closer refl)

db_close_joins_example :
    ((Worker.want ≡ Worker.want) × (worker_step both_wait ≡ none) × (closer_step both_wait ≡ none))
    ⊎ ((t : State) × Leads both_wait t × (t.closer ≡ Closer.closed))
db_close_joins_example = db_close_joins both_wait run_both_wait refl
