-- ===== src/Shutdown/Joins.antt =====
-- Whether `db_close` of src/core/db.c gets behind its `pthread_join`.
use mathlib.Core.Option.{some-injective}
use kanbudb.Prelude.{◌≡◌, refl, sym, subst, ◌∙◌, ◌⊎◌, inl, inr, Bool, true, false, ◌&&◌, none, some}
use kanbudb.Shutdown.{
  Worker, Closer, State, worker_table, closer_table, take_lock, worker_at, worker_step, closer_at,
  closer_step, Step, Leads, called,
}

-- The table lock has at most one holder, and the flag is cleared once `db_close` waits.
record IsSafe (s : State) : Type 0 where
  exclusive : (worker_table s.worker && closer_table s.closer) ≡ false
  cleared : s.closer ≡ Closer.joining → s.compact_running ≡ false

-- A step that needs a lock keeps what holds behind it, since the lock was free.
taken :
    (P : State → Type 0) (held : Bool) (s t : State)
    → take_lock held s ≡ some t
    → (held ≡ false → P s)
    → P t
taken P false s t h v = subst P (some-injective s t h) (v refl)
taken P true s t h v = absurd cc

worker-IsSafe :
    (w : Worker) (r : Bool) (c : Closer) (t : State)
    → IsSafe (record { compact_running = r; worker = w; closer = c })
    → worker_at w (record { compact_running = r; worker = w; closer = c }) ≡ some t
    → IsSafe t
unfolding worker_at
worker-IsSafe Worker.top true c t v h =
    taken IsSafe false _ t h (λ _. record { exclusive = refl; cleared = v.cleared })
worker-IsSafe Worker.top false c t v h =
    taken IsSafe false _ t h (λ _. record { exclusive = refl; cleared = v.cleared })
worker-IsSafe Worker.sleeping r c t v h =
    taken IsSafe false _ t h (λ _. record { exclusive = refl; cleared = v.cleared })
worker-IsSafe Worker.test true c t v h =
    taken IsSafe false _ t h (λ _. record { exclusive = refl; cleared = v.cleared })
worker-IsSafe Worker.test false c t v h =
    taken IsSafe false _ t h (λ _. record { exclusive = refl; cleared = v.cleared })
worker-IsSafe Worker.want r c t v h =
    taken IsSafe (closer_table c) _ t h (λ e. record { exclusive = e; cleared = v.cleared })
worker-IsSafe Worker.has_table r c t v h =
    taken IsSafe _ _ t h (λ _. record { exclusive = v.exclusive; cleared = v.cleared })
worker-IsSafe Worker.has_lsm r c t v h =
    taken IsSafe _ _ t h (λ _. record { exclusive = v.exclusive; cleared = v.cleared })
worker-IsSafe Worker.working r c t v h =
    taken IsSafe false _ t h (λ _. record { exclusive = refl; cleared = v.cleared })
worker-IsSafe Worker.ended r c t v h = absurd cc

and_false : (b : Bool) → (b && false) ≡ false
and_false true = refl
and_false false = refl

and_true : (b : Bool) → (b && true) ≡ b
and_true true = refl
and_true false = refl

closer-IsSafe :
    (c : Closer) (r : Bool) (w : Worker) (t : State)
    → IsSafe (record { compact_running = r; worker = w; closer = c })
    → closer_at c (record { compact_running = r; worker = w; closer = c }) ≡ some t
    → IsSafe t
unfolding closer_at
closer-IsSafe Closer.begin r w t v h =
    taken IsSafe (worker_table w) _ t h
      (λ e. record { exclusive = and_true (worker_table w) ∙ e; cleared = λ e. absurd cc })
closer-IsSafe Closer.has_table r w t v h =
    taken IsSafe false _ t h (λ _. record { exclusive = v.exclusive; cleared = λ e. absurd cc })
closer-IsSafe Closer.has_wal r w t v h =
    taken IsSafe _ _ t h (λ _. record { exclusive = v.exclusive; cleared = λ e. absurd cc })
closer-IsSafe Closer.has_lsm r w t v h =
    taken IsSafe _ _ t h (λ _. record { exclusive = v.exclusive; cleared = λ e. absurd cc })
closer-IsSafe Closer.has_all r w t v h =
    taken IsSafe false _ t h (λ _. record { exclusive = v.exclusive; cleared = λ _. refl })
closer-IsSafe Closer.joining r w t v h =
    taken IsSafe _ _ t h
      (λ _. record { exclusive = and_false (worker_table w); cleared = λ e. absurd cc })
closer-IsSafe Closer.closed r w t v h = absurd cc

Step-IsSafe : (s t : State) → IsSafe s → Step s t → IsSafe t
Step-IsSafe s t v (Step.by_worker h) = worker-IsSafe s.worker s.compact_running s.closer t v h
Step-IsSafe s t v (Step.by_closer h) = closer-IsSafe s.closer s.compact_running s.worker t v h

called-IsSafe : (s : State) → Leads called s → IsSafe s
called-IsSafe s Leads.here = record { exclusive = refl; cleared = λ e. absurd cc }
called-IsSafe s (Leads.later {t = t} r h) = Step-IsSafe t s (called-IsSafe t r) h

-- `db_close` in its `pthread_join`, with the thread there.
abbrev waits : Worker → State
waits w = record { compact_running = false; worker = w; closer = Closer.joining }

abbrev gone : State
gone = record { compact_running = false; worker = Worker.ended; closer = Closer.closed }

-- Either the two wait for each other, or both come to their end.
abbrev JoinEnds : State → Type 0
JoinEnds s =
    ((s.worker ≡ Worker.want) × (worker_step s ≡ none) × (closer_step s ≡ none))
    ⊎ ((t : State) × Leads s t × (t.closer ≡ Closer.closed))

waits-JoinEnds : (w : Worker) → IsSafe (waits w) → JoinEnds (waits w)
unfolding worker_at closer_at
waits-JoinEnds Worker.top v =
    inr
      (gone, Leads.later (Leads.later Leads.here (Step.by_worker refl)) (Step.by_closer refl), refl)
waits-JoinEnds Worker.sleeping v = inr (
  gone,
  Leads.later (Leads.later (Leads.later Leads.here (Step.by_worker refl)) (Step.by_worker refl))
      (Step.by_closer refl),
  refl,
)
waits-JoinEnds Worker.test v =
    inr
      (gone, Leads.later (Leads.later Leads.here (Step.by_worker refl)) (Step.by_closer refl), refl)
waits-JoinEnds Worker.want v = inl (refl, refl, refl)
waits-JoinEnds Worker.has_table v = let e : true ≡ false = v.exclusive in absurd cc
waits-JoinEnds Worker.has_lsm v = let e : true ≡ false = v.exclusive in absurd cc
waits-JoinEnds Worker.working v = let e : true ≡ false = v.exclusive in absurd cc
waits-JoinEnds Worker.ended v = inr (gone, Leads.later Leads.here (Step.by_closer refl), refl)

-- Once `db_close` waits for the compaction thread in `pthread_join`, however the two took turns
-- before, there are two cases. The thread is about to take its first lock: then neither has a next
-- step, `db_close` never returns. Or there is a run in which `db_close` gets behind the join.
pub db_close_joins :
    (s : State)
    → Leads called s
    → s.closer ≡ Closer.joining
    → ((s.worker ≡ Worker.want) × (worker_step s ≡ none) × (closer_step s ≡ none))
      ⊎ ((t : State) × Leads s t × (t.closer ≡ Closer.closed))
db_close_joins s r j =
    let v = called-IsSafe s r in
    let at : waits s.worker ≡ s = sym (rw (j, v.cleared j) refl) in
    subst JoinEnds at (waits-JoinEnds s.worker (subst IsSafe (sym at) v))
