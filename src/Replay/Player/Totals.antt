-- ===== src/Replay/Player/Totals.antt =====
-- What a run of replay/player.py submits and counts.
use mathlib.Core.List.{Perm}
use flight_pulse.Base.{
  ℕ, suc, ◌+◌, ◌*◌, ◌<◌, String, ◌≡◌, refl, sym, ap, ◌∙◌, inl, inr, true, false, some, List, [],
  ◌∷◌, arith, Bool-cases, All, length, length-append, ◌==◌, string_eq, nat_eq, option_eq, list_eq,
}
use flight_pulse.Base.Sums.{sum, sum_perm}
use flight_pulse.Base.Result.{Result, ok}
use flight_pulse.Base.Chunks.{chunk, concat, Fits, concat-chunk, chunk-Fits, chunk_count}
use flight_pulse.Ingestion.Schemas.{TelemetryEvent}
use flight_pulse.Replay.Player.{
  Uuids, FixtureError, load_fixture, freshened, prepare_batch, Summary, SendResult, returned,
  raised, collect, Replayed, exited, unreadable, finished, Environment, salt_of_run, submitted,
  futures_of, run_replay,
}

abbrev pub Future : Type 0
Future = ℕ × SendResult

-- The events of a future that was sent, and of one that was not; 1 if it was not sent.
abbrev sent_of : Future → ℕ
sent_of (n, returned true) = n
sent_of (n, _) = 0

abbrev unsent_of : Future → ℕ
unsent_of (n, returned true) = 0
unsent_of (n, _) = n

abbrev failure_of : Future → ℕ
failure_of (n, returned true) = 0
failure_of (n, _) = 1

abbrev pub delivered : List Future → ℕ
delivered = sum sent_of

abbrev pub undelivered : List Future → ℕ
undelivered = sum unsent_of

abbrev pub failures : List Future → ℕ
failures = sum failure_of

abbrev Collected : List Future → Summary → Summary → Type 0
Collected futures s s' =
    (s'.batches_sent ≡ s.batches_sent + length futures)
    × (s'.events_sent ≡ s.events_sent + delivered futures)
    × (s'.failed_batches ≡ s.failed_batches + failures futures)

collect_counts : (futures : List Future) (s : Summary) → Collected futures s (collect futures s)
unfolding collect
collect_counts [] s = (omega arith, omega arith, omega arith)
collect_counts ((n, returned true) ∷ futures) s =
    let next : Summary = record s {
      batches_sent = s.batches_sent + 1;
      events_sent = s.events_sent + n;
    } in
    let (b, e, f) = collect_counts futures next in (omega arith, omega arith, omega arith)
collect_counts ((n, returned false) ∷ futures) s =
    let next : Summary = record s {
      batches_sent = s.batches_sent + 1;
      failed_batches = s.failed_batches + 1;
    } in
    let (b, e, f) = collect_counts futures next in (omega arith, omega arith, omega arith)
collect_counts ((n, raised) ∷ futures) s =
    let next : Summary = record s {
      batches_sent = s.batches_sent + 1;
      failed_batches = s.failed_batches + 1;
    } in
    let (b, e, f) = collect_counts futures next in (omega arith, omega arith, omega arith)

length_sum : (xs : List Future) → length xs ≡ sum (λ _. 1) xs
length_sum [] = refl
length_sum (x ∷ xs) = omega (arith, length_sum xs)

sent_or_not : (xs : List Future) → delivered xs + undelivered xs ≡ sum (λ x. x.0) xs
sent_or_not [] = refl
sent_or_not ((n, returned true) ∷ xs) = omega (arith, sent_or_not xs)
sent_or_not ((n, returned false) ∷ xs) = omega (arith, sent_or_not xs)
sent_or_not ((n, raised) ∷ xs) = omega (arith, sent_or_not xs)

length-freshened :
    {F : Type 0} (uuids : Uuids) (now_iso run_salt : String) (i : ℕ) (es : List (TelemetryEvent F))
    → length (freshened uuids now_iso run_salt i es) ≡ length es
unfolding freshened
length-freshened uuids now_iso run_salt i [] = refl
length-freshened uuids now_iso run_salt i (e ∷ es) =
    ap suc (length-freshened uuids now_iso run_salt (i + 1) es)

length-prepare_batch :
    {F : Type 0} (uuids : Uuids) (mode now_iso run_salt : String) (es : List (TelemetryEvent F))
    → length (prepare_batch uuids mode now_iso run_salt es) ≡ length es
unfolding prepare_batch
length-prepare_batch uuids mode now_iso run_salt es = elim (Bool-cases (mode == "replay")) [
  | inl replay ↦ rw replay refl
  | inr fresh ↦ rw fresh (length-freshened uuids now_iso run_salt 0 es)
]

module _ {F : Type 0} (env : Environment) (mode : String) where
  length-submitted :
      (n : ℕ) (bs : List (List (TelemetryEvent F))) → length (submitted env mode n bs) ≡ length bs
  unfolding submitted
  length-submitted n [] = refl
  length-submitted n (b ∷ bs) = ap suc (length-submitted (n + 1) bs)

  submitted_fit :
      (size n : ℕ) (bs : List (List (TelemetryEvent F)))
      → All (Fits size) bs
      → All (Fits size) (submitted env mode n bs)
  unfolding submitted
  submitted_fit size n [] all = tt
  submitted_fit size n (b ∷ bs) ((low, high), all) =
      let same = length-prepare_batch (env.uuids n) mode (env.now_iso n) (salt_of_run env mode) b in
      ((omega (arith, same), omega (arith, same)), submitted_fit size (n + 1) bs all)

  submitted_events :
      (n : ℕ) (bs : List (List (TelemetryEvent F)))
      → length (concat (submitted env mode n bs)) ≡ length (concat bs)
  unfolding submitted
  submitted_events n [] = refl
  submitted_events n (b ∷ bs) =
      let b' = prepare_batch (env.uuids n) mode (env.now_iso n) (salt_of_run env mode) b in
      omega (
        arith,
        length-prepare_batch (env.uuids n) mode (env.now_iso n) (salt_of_run env mode) b,
        length-append b' (concat (submitted env mode (n + 1) bs)),
        length-append b (concat bs),
        submitted_events (n + 1) bs,
      )

  submitted_unchanged :
      (n : ℕ) (bs : List (List (TelemetryEvent F)))
      → (mode == "replay") ≡ true
      → submitted env mode n bs ≡ bs
  unfolding submitted prepare_batch
  submitted_unchanged n [] replay = refl
  submitted_unchanged n (b ∷ bs) replay =
      rw replay (ap (◌∷◌ b) (submitted_unchanged (n + 1) bs replay))

  futures_length :
      (n : ℕ) (bs : List (List (TelemetryEvent F)))
      → (length (futures_of env mode n bs) ≡ length bs)
        × (sum (λ x. x.0) (futures_of env mode n bs) ≡ length (concat bs))
  unfolding futures_of
  futures_length n [] = (refl, refl)
  futures_length n (b ∷ bs) =
      let (count, events) = futures_length (n + 1) bs in
      (ap suc count, omega (arith, length-append b (concat bs)))

  -- What the summary of a run says of the events and of what was submitted.
  abbrev pub Accounts :
      List (TelemetryEvent F) → ℕ → List (List (TelemetryEvent F)) × Replayed → Type 0
  Accounts events size (batches, exited) = (batches ≡ []) × (events ≡ [])
  Accounts events size (batches, unreadable e) = ⊥
  Accounts events size (batches, finished s) =
      let futures = futures_of env mode 0 batches in
      (s.batches_sent ≡ length batches)
      × (s.failed_batches ≡ failures futures)
      × (s.events_sent + undelivered futures ≡ length events)
      × All (Fits size) batches
      × (size * s.batches_sent < length events + size)
      × ((mode == "replay") ≡ true → concat batches ≡ events)

  accounts :
      (as_completed : List Future → List Future) (size : ℕ) (events : List (TelemetryEvent F))
      → ((l : List Future) → Perm (as_completed l) l)
      → 0 < size
      → let batches = submitted env mode 0 (chunk events size) in
        let futures = as_completed (futures_of env mode 0 batches) in
        let start : Summary = record { batches_sent = 0; events_sent = 0; failed_batches = 0 } in
        Accounts events size (batches, finished (collect futures start))
  accounts as_completed size events reordered p =
      let chunks = chunk events size in
      let batches = submitted env mode 0 chunks in
      let futures = futures_of env mode 0 batches in
      let done = as_completed futures in
      let start : Summary = record { batches_sent = 0; events_sent = 0; failed_batches = 0 } in
      let (b, e, f) = collect_counts done start in
      let perm = reordered futures in
      let (count, total) = futures_length 0 batches in
      let same_count = length_sum done ∙ sum_perm (λ _. 1) perm ∙ sym (length_sum futures) in
      let whole = ap length (concat-chunk events size p) in
      let sent : length batches ≡ length chunks = length-submitted 0 chunks in
      let all_sent : (collect done start).batches_sent ≡ length chunks = omega arith in
      (
        omega arith,
        omega (arith, sum_perm failure_of perm),
        omega (arith, sum_perm sent_of perm, sent_or_not futures, submitted_events 0 chunks),
        submitted_fit size 0 chunks (chunk-Fits events size p),
        omega (arith, chunk_count events size p, ap (λ (k : ℕ). size * k) all_sent),
        λ replay. ap concat (submitted_unchanged 0 chunks replay) ∙ concat-chunk events size p,
      )

  -- A run on a fixture whose lines are read as `events`, for a positive batch size, whatever each
  -- POST comes to and in whatever order the futures complete: without events it exits and submits
  -- nothing. Otherwise it finishes, and its summary counts every submitted batch as sent, those
  -- that failed as failed, and as sent the events of the others, so that with those of the failed
  -- batches they are all events. No batch is empty or above the batch size, there are no more than
  -- the events need, and in the mode replay the batches are the events in their order.
  pub run_replay-Accounts :
      (payload : String → Result FixtureError (TelemetryEvent F))
      (as_completed : List Future → List Future) (size : ℕ) (lines : List String)
      (events : List (TelemetryEvent F))
      → ((l : List Future) → Perm (as_completed l) l)
      → 0 < size
      → load_fixture payload lines ≡ ok events
      → Accounts events size (run_replay env mode payload as_completed size (some lines))
  unfolding run_replay
  run_replay-Accounts payload as_completed size lines [] reordered p loaded =
      rw (loaded, run_replay) (refl, refl)
  run_replay-Accounts payload as_completed size lines (e ∷ es) reordered p loaded =
      rw (loaded, run_replay) (accounts as_completed size (e ∷ es) reordered p)
