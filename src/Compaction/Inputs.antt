-- ===== src/Compaction/Inputs.antt =====
-- What the merged file of src/storage/compaction.c answers, by the entries of the input files.
use mathlib.Core.List.{append_assoc, append-nil}
use kanbudb.Prelude.{
  ℕ, suc, ◌≤◌, ◌<◌, ◌^◌, ◌≡◌, ◌≢◌, refl, sym, ap, subst, ◌∙◌, ◌⊎◌, inl, inr, true, false, Option,
  none, some, List, [], ◌∷◌, ◌++◌, map, arith, ltb, ◌==◌, Bool-cases, length, All, Bytes,
}
use kanbudb.Status.{Status, is_ok}
use kanbudb.Key.{key_cmp, is_eq, below}
use kanbudb.Key.Order.{is_eq_iff}
use kanbudb.Sstable.{
  SstEntry, Writer, sstable_writer_create, sstable_writer_add, sstable_writer_finish,
}
use kanbudb.Sstable.Reader.{
  Reader, Opened, Got, is_dead, sstable_reader_open, sstable_reader_scan, sstable_reader_get,
}
use kanbudb.Sstable.Data.{each}
use kanbudb.Sstable.Index.{add_all, add_all-Written}
use kanbudb.Sstable.Scan.{Storable, opened_table}
use kanbudb.Sstable.Lookup.{Sorted, lookup}
use kanbudb.Sstable.Point.{sstable_reader_get-sstable_writer_finish}
use kanbudb.Compaction.{MergeEntry, is_tombstone, same_key, merge_loop}
use kanbudb.Compaction.Merge.{
  IsSorted, newest, live, table_value, table_value-merge_loop, Ascending, merge_loop-Ascending,
}
use kanbudb.Compaction.Files.{
  merge_entry, merge_collect_cb, collect_entries, written_entry, write_entries, MergeEnv,
  compaction_merge_to_level,
}

abbrev pub Member : MergeEntry → List MergeEntry → Type 0
Member e [] = ⊥
Member e (x ∷ xs) = (e ≡ x) ⊎ Member e xs

-- What `qsort` promises on an array: the same entries, in ascending order.
pub record Sorts (qsort : List MergeEntry → List MergeEntry) (xs : List MergeEntry) : Type 0 where
  pub sorted : IsSorted (qsort xs)
  pub from : (e : MergeEntry) → Member e (qsort xs) → Member e xs
  pub to : (e : MergeEntry) → Member e xs → Member e (qsort xs)

-- The newest of the entries with a key, if there is any with it.
abbrev pub IsNewest : Bytes → Option MergeEntry → List MergeEntry → Type 0
IsNewest q none xs = All (λ (y : MergeEntry). y.key ≢ q) xs
IsNewest q (some e) xs =
    Member e xs × (e.key ≡ q) × All (λ (y : MergeEntry). y.key ≡ q → y.sequence ≤ e.sequence) xs

All-Member :
    (P : MergeEntry → Type 0) (xs : List MergeEntry) (e : MergeEntry) → All P xs → Member e xs → P e
All-Member P [] e a m = absurd m
All-Member P (x ∷ xs) e a (inl h) = subst P (sym h) a.0
All-Member P (x ∷ xs) e a (inr m) = All-Member P xs e a.1 m

Member-All :
    (P : MergeEntry → Type 0) (xs : List MergeEntry)
    → ((e : MergeEntry) → Member e xs → P e)
    → All P xs
Member-All P [] f = tt
Member-All P (x ∷ xs) f = (f x (inl refl), Member-All P xs (λ e m. f e (inr m)))

-- The newest entry depends only on which entries there are.
IsNewest-Sorts :
    (qsort : List MergeEntry → List MergeEntry) (q : Bytes) (o : Option MergeEntry)
    (xs : List MergeEntry)
    → Sorts qsort xs
    → IsNewest q o (qsort xs)
    → IsNewest q o xs
IsNewest-Sorts qsort q none xs s n =
    Member-All (λ y. y.key ≢ q) xs (λ e m. All-Member (λ y. y.key ≢ q) (qsort xs) e n (s.to e m))
IsNewest-Sorts qsort q (some x) xs s n = (
  s.from x n.0,
  n.1,
  Member-All (λ y. y.key ≡ q → y.sequence ≤ x.sequence) xs
      (λ e m. All-Member (λ y. y.key ≡ q → y.sequence ≤ x.sequence) (qsort xs) e n.2 (s.to e m)),
)

All-weaken :
    (P Q : MergeEntry → Type 0) (xs : List MergeEntry)
    → ((e : MergeEntry) → P e → Q e)
    → All P xs
    → All Q xs
All-weaken P Q xs f a = Member-All Q xs (λ e m. f e (All-Member P xs e a m))

-- One entry more, before those of which the newest is known.
newest_round :
    (q : Bytes) (x : MergeEntry) (xs : List MergeEntry) (o : Option MergeEntry)
    → newest q xs ≡ o
    → IsNewest q o xs
    → IsNewest q (newest q (x ∷ xs)) (x ∷ xs)
newest_round q x xs none e n = elim (Bool-cases (is_eq (key_cmp q x.key))) [
  | inr d ↦
      let same : newest q (x ∷ xs) ≡ none = rw (d, newest) e in
      subst (λ o. IsNewest q o (x ∷ xs)) (sym same)
        (λ h. ground (arith, d, (is_eq_iff q x.key).1 (sym h)), n)
  | inl k ↦
      let same : newest q (x ∷ xs) ≡ some x = rw (k, newest) (rw e refl) in
      subst (λ o. IsNewest q o (x ∷ xs)) (sym same)
        (
          inl refl,
          sym ((is_eq_iff q x.key).0 k),
          (
            λ h. omega arith,
            All-weaken (λ y. y.key ≢ q) (λ y. y.key ≡ q → y.sequence ≤ x.sequence) xs
                (λ y d h. absurd (d h)) n,
          ),
        )
]
newest_round q x xs (some y) e n = elim (Bool-cases (is_eq (key_cmp q x.key))) [
  | inr d ↦
      let same : newest q (x ∷ xs) ≡ some y = rw (d, newest) e in
      let other : x.key ≡ q → x.sequence ≤ y.sequence =
        λ h. ground (arith, d, (is_eq_iff q x.key).1 (sym h)) in
      subst (λ o. IsNewest q o (x ∷ xs)) (sym same) (inr n.0, n.1, (other, n.2))
  | inl k ↦ elim (Bool-cases (ltb x.sequence y.sequence)) [
    | inl l ↦
        let same : newest q (x ∷ xs) ≡ some y = rw (k, newest) (rw e (rw l refl)) in
        subst (λ o. IsNewest q o (x ∷ xs)) (sym same) (inr n.0, n.1, (λ h. ground (arith, l), n.2))
    | inr l ↦
        let same : newest q (x ∷ xs) ≡ some x = rw (k, newest) (rw e (rw l refl)) in
        subst (λ o. IsNewest q o (x ∷ xs)) (sym same)
          (
            inl refl,
            sym ((is_eq_iff q x.key).0 k),
            (
              λ h. omega arith,
              All-weaken (λ z. z.key ≡ q → z.sequence ≤ y.sequence)
                  (λ z. z.key ≡ q → z.sequence ≤ x.sequence) xs
                  (λ z b h. let c = b h in ground (arith, l, c)) n.2,
            ),
          )
  ]
]

newest-IsNewest : (q : Bytes) (xs : List MergeEntry) → IsNewest q (newest q xs) xs
newest-IsNewest q [] = tt
newest-IsNewest q (x ∷ xs) = newest_round q x xs (newest q xs) refl (newest-IsNewest q xs)

-- The value in an answer of a table.
abbrev pub got_value : Got → Option Bytes
got_value (Got.found flag v) = some v
got_value Got.fault = none
got_value Got.not_found = none
got_value (Got.tombstone flag) = none

lookup-written_entry :
    (q : Bytes) (xs : List MergeEntry)
    → All (λ (e : MergeEntry). is_tombstone e ≡ false) xs
    → got_value (lookup q (map written_entry xs)) ≡ table_value q xs
unfolding is_tombstone
lookup-written_entry q [] a = refl
lookup-written_entry q (x ∷ xs) a = elim (Bool-cases (is_eq (key_cmp q x.key))) [
  | inl k ↦
      let alive : is_dead x.flag ≡ false = a.0 in
      let here : lookup q (map written_entry (x ∷ xs)) ≡ Got.found x.flag x.value =
        rw (k, lookup) (rw alive refl) in
      let value : table_value q (x ∷ xs) ≡ some x.value = rw k refl in ap got_value here ∙ sym value
  | inr d ↦
      let later : lookup q (map written_entry (x ∷ xs)) ≡ lookup q (map written_entry xs) =
        rw (d, lookup) refl in
      let value : table_value q (x ∷ xs) ≡ table_value q xs = rw d refl in
      ap got_value later ∙ (lookup-written_entry q xs a.1 ∙ sym value)
]

merge_loop-alive :
    (prev : Option Bytes) (xs : List MergeEntry)
    → All (λ (e : MergeEntry). is_tombstone e ≡ false) (merge_loop prev xs)
unfolding merge_loop
merge_loop-alive prev [] = tt
merge_loop-alive prev (x ∷ xs) =
    ground (arith, merge_loop-alive prev xs, merge_loop-alive (some x.key) xs)

above-written_entry :
    (k : Bytes) (xs : List MergeEntry)
    → All (λ (y : MergeEntry). below k y.key ≡ true) xs
    → All (λ (y : SstEntry). below k y.key ≡ true) (map written_entry xs)
above-written_entry k [] a = tt
above-written_entry k (x ∷ xs) a = (a.0, above-written_entry k xs a.1)

Sorted-written_entry : (xs : List MergeEntry) → Ascending xs → Sorted (map written_entry xs)
Sorted-written_entry [] a = tt
Sorted-written_entry (x ∷ xs) a = (above-written_entry x.key xs a.0, Sorted-written_entry xs a.1)

-- The loop writes the entries that stay, in their order.
write_entries-merge_loop :
    (optimal_k : ℕ → ℕ → ℕ) (prev : Option Bytes) (xs : List MergeEntry) (w : Writer)
    → write_entries optimal_k prev xs w
      ≡ add_all optimal_k w (map written_entry (merge_loop prev xs))
unfolding write_entries merge_loop
write_entries-merge_loop optimal_k prev [] w = refl
write_entries-merge_loop optimal_k prev (x ∷ xs) w = elim (Bool-cases (same_key prev x.key)) [
  | inl s ↦ rw (s, write_entries) (write_entries-merge_loop optimal_k prev xs w)
  | inr s ↦
      rw (s, write_entries)
        (elim (Bool-cases (is_tombstone x)) [
          | inl t ↦ rw (t, write_entries) (write_entries-merge_loop optimal_k (some x.key) xs w)
          | inr t ↦
              let r = sstable_writer_add optimal_k (written_entry x) w in
              rw (t, write_entries)
                (ap (λ u. elim (is_ok r.1) [ true ↦ u | false ↦ r ])
                  (write_entries-merge_loop optimal_k (some x.key) xs r.0))
        ])
]

-- An input file: the table of these entries.
pub record Input : Type 0 where
  pub sequence : ℕ
  pub created_at : ℕ
  pub entries : List SstEntry

pub record IsInput (i : Input) : Type 0 where
  pub storable : Storable i.entries
  pub sequence_word : i.sequence < 2 ^ 64
  pub created_word : i.created_at < 2 ^ 64

abbrev pub file_of : (ℕ → ℕ → ℕ) → Input → Bytes
file_of optimal_k i =
    sstable_writer_finish i.created_at
      (add_all optimal_k (sstable_writer_create i.sequence) i.entries).0

-- All entries of the inputs, each with its file's sequence number.
abbrev pub entries_of : List Input → List MergeEntry
entries_of [] = []
entries_of (i ∷ inputs) = map (merge_entry i.sequence) i.entries ++ entries_of inputs

each-merge_collect_cb :
    (sequence : ℕ) (before : List MergeEntry) (es : List SstEntry)
    → each (merge_collect_cb sequence) before es
      ≡ (before ++ map (merge_entry sequence) es, Status.ok)
unfolding merge_collect_cb
each-merge_collect_cb sequence before [] = ap (λ l. (l, Status.ok)) (sym (append-nil before))
each-merge_collect_cb sequence before (e ∷ es) =
    each-merge_collect_cb sequence (before ++ merge_entry sequence e ∷ []) es
    ∙ ap (λ l. (l, Status.ok))
        (append_assoc before (merge_entry sequence e ∷ []) (map (merge_entry sequence) es))

collect_entries-file_of :
    (optimal_k : ℕ → ℕ → ℕ) (inputs : List Input) (before : List MergeEntry)
    → All IsInput inputs
    → collect_entries (map (file_of optimal_k) inputs) before
      ≡ some (before ++ entries_of inputs, Status.ok)
unfolding collect_entries
collect_entries-file_of optimal_k [] before v =
    ap (λ l. some (l, Status.ok)) (sym (append-nil before))
collect_entries-file_of optimal_k (i ∷ inputs) before v =
    let (r, opens, scans, same) =
      opened_table {S = List MergeEntry} optimal_k i.sequence i.created_at i.entries v.0.storable
        v.0.sequence_word v.0.created_word in
    let scanned : sstable_reader_scan (merge_collect_cb i.sequence) before r
        ≡ some (before ++ map (merge_entry i.sequence) i.entries, Status.ok) =
      scans (merge_collect_cb i.sequence) before
      ∙ ap (λ p. some p) (each-merge_collect_cb i.sequence before i.entries) in
    rw (opens, collect_entries)
      (rw (same, collect_entries)
        (rw (scanned, collect_entries)
          (collect_entries-file_of optimal_k inputs
              (before ++ map (merge_entry i.sequence) i.entries) v.1
            ∙ ap (λ l. some (l, Status.ok))
                (append_assoc before (map (merge_entry i.sequence) i.entries)
                  (entries_of inputs)))))

-- What the merge needs of the system, and what the inputs must be.
pub record MergesWell (env : MergeEnv) (inputs : List Input) : Type 0 where
  pub sorts : Sorts env.qsort (entries_of inputs)
  pub filter : (m n : ℕ) → env.optimal_k m n < 2 ^ 32
  pub created : env.writer_created ≡ true
  pub finished : env.writer_finished ≡ Status.ok
  pub created_word : env.created_at < 2 ^ 64
  pub some_input : 0 < length inputs
  pub some_entry : 0 < length (entries_of inputs)
  pub valid : All IsInput inputs
  pub storable : Storable (map written_entry (merge_loop none (env.qsort (entries_of inputs))))

length-map-file_of :
    (optimal_k : ℕ → ℕ → ℕ) (inputs : List Input)
    → length (map (file_of optimal_k) inputs) ≡ length inputs
length-map-file_of optimal_k [] = refl
length-map-file_of optimal_k (i ∷ inputs) = ap suc (length-map-file_of optimal_k inputs)

-- No step of the merge gives up.
merge_runs :
    (env : MergeEnv) (inputs : List Input) (output_sequence : ℕ)
    → MergesWell env inputs
    → compaction_merge_to_level env (map (file_of env.optimal_k) inputs) output_sequence
      ≡ some (
        some (
            sstable_writer_finish env.created_at
              (add_all env.optimal_k
                (sstable_writer_create output_sequence)
                (map written_entry (merge_loop none (env.qsort (entries_of inputs))))).0),
        Status.ok,
      )
unfolding compaction_merge_to_level
merge_runs env inputs output_sequence m =
    let es = entries_of inputs in
    let w : Writer = sstable_writer_create output_sequence in
    let kept = map written_entry (merge_loop none (env.qsort es)) in
    let given : (length (map (file_of env.optimal_k) inputs) == 0) ≡ false =
      ground (arith, length-map-file_of env.optimal_k inputs, m.some_input) in
    let full : (length es == 0) ≡ false = ground (arith, m.some_entry) in
    let taken : (add_all env.optimal_k w kept).1 ≡ Status.ok =
      (add_all-Written env.optimal_k kept w m.storable.fits).0 in
    rw (given, collect_entries-file_of env.optimal_k inputs [] m.valid)
      (rw (m.created) (
        rw (full) (
          rw (write_entries-merge_loop env.optimal_k none (env.qsort es) w)
            (rw taken (rw m.finished refl)))))

-- The merge of valid tables, at least one of which has an entry, where the output can be created and
-- finished, `qsort` sorts, the sequence number, the time and the filter's hash counts are machine
-- words, and what the merge keeps fits into one table: it returns OK with a file in its place, which is
-- opened, and whose lookup finds for every key the value of the newest of the inputs' entries
-- with the key: none, if this is a tombstone or if no input has the key.
pub compaction_merge_to_level-IsNewest :
    (q : Bytes) (env : MergeEnv) (inputs : List Input) (output_sequence : ℕ)
    → MergesWell env inputs
    → output_sequence < 2 ^ 64
    → (file : Bytes) × (r : Reader) × (o : Option MergeEntry) × (g : Got)
      × (compaction_merge_to_level env (map (file_of env.optimal_k) inputs) output_sequence
          ≡ some (some file, Status.ok))
      × (sstable_reader_open file ≡ Opened.opened r)
      × (sstable_reader_get r q ≡ some g)
      × (got_value g ≡ live o)
      × IsNewest q o (entries_of inputs)
unfolding compaction_merge_to_level
compaction_merge_to_level-IsNewest q env inputs output_sequence m fresh =
    let es = entries_of inputs in
    let kept = merge_loop none (env.qsort es) in
    let collected = collect_entries-file_of env.optimal_k inputs [] m.valid in
    let (r, opens, gets) =
      sstable_reader_get-sstable_writer_finish q env.optimal_k output_sequence env.created_at
        (map written_entry kept) m.filter m.storable
        (Sorted-written_entry kept (merge_loop-Ascending none (env.qsort es) m.sorts.sorted)) fresh
        m.created_word in
    (
      sstable_writer_finish env.created_at
          (add_all env.optimal_k (sstable_writer_create output_sequence)
            (map written_entry kept)).0,
      r,
      newest q (env.qsort es),
      lookup q (map written_entry kept),
      merge_runs env inputs output_sequence m,
      opens,
      gets,
      lookup-written_entry q kept (merge_loop-alive none (env.qsort es))
          ∙ table_value-merge_loop q (env.qsort es) m.sorts.sorted,
      IsNewest-Sorts env.qsort q (newest q (env.qsort es)) es m.sorts
          (newest-IsNewest q (env.qsort es)),
    )
