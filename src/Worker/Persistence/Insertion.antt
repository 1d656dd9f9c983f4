-- ===== src/Worker/Persistence/Insertion.antt =====
-- `persist_batch` of worker/persistence.py against one insertion of the whole batch.
use mathlib.Core.Path.{fun_ext, subst}
use flight_pulse.Base.{
  ℕ, suc, ◌+◌, ◌≤◌, String, ◌≡◌, refl, sym, ap, ◌∙◌, inl, inr, Bool, true, ◌||◌, none, List, [],
  ◌∷◌, ◌++◌, map, arith, Bool-cases, All, length, length-append, length-map, ◌==◌, contains,
  string_eq, nat_eq, option_eq, list_eq,
}
use flight_pulse.Base.Result.{Result, ok}
use flight_pulse.Base.Chunks.{chunk, concat, concat-chunk}
use flight_pulse.Base.Sorting.{insert_sorted, sort_by, length-sort_by}
use flight_pulse.Base.Text.{string_ord}
use flight_pulse.Ingestion.Schemas.{TelemetryEvent}
use flight_pulse.Worker.Database.{Row, ids, new_ids, Database}
use flight_pulse.Worker.Persistence.{
  PersistError, committed, pushed, Faults, insert_chunk_size, event_to_row, sorted_rows,
  insert_chunks, persist_batch,
}

abbrev pub no_faults : Faults
no_faults = record { raises = λ _. none; commit = committed; push = pushed }

abbrev pub event_ids : {F : Type 0} → List (TelemetryEvent F) → List String
event_ids [] = []
event_ids (e ∷ events) = e.ingestion_id ∷ event_ids events

new_ids-append :
    (xs ys : List String) (held : String → Bool)
    → new_ids (xs ++ ys) held ≡ new_ids xs held ++ new_ids ys (λ i. held i || contains xs i)
unfolding new_ids
new_ids-append [] ys held = ap (new_ids ys) (fun_ext (λ i. ground arith))
new_ids-append (x ∷ xs) ys held = elim (Bool-cases (held x)) [
  | inl old ↦ rw old (
      new_ids-append xs ys held
      ∙ ap (λ h. new_ids xs held ++ new_ids ys h)
          (fun_ext (λ i. ground (arith, string_eq.beq_iff i x))))
  | inr new ↦ rw new (
      ap (◌∷◌ x) (
        new_ids-append xs ys (λ j. j == x || held j)
        ∙ ap (λ h. new_ids xs (λ j. j == x || held j) ++ new_ids ys h)
            (fun_ext (λ i. ground arith))))
]

length-new_ids : (xs : List String) (held : String → Bool) → length (new_ids xs held) ≤ length xs
unfolding new_ids
length-new_ids [] held = omega arith
length-new_ids (x ∷ xs) held =
    ground (arith, length-new_ids xs held, length-new_ids xs (λ j. j == x || held j))

pub new_ids_held :
    (xs : List String) (held : String → Bool) → All (λ i. held i ≡ true) xs → new_ids xs held ≡ []
unfolding new_ids
new_ids_held [] held all = refl
new_ids_held (x ∷ xs) held all = rw all.0 (new_ids_held xs held all.1)

module _ {F : Type 0} where
  ids-append : (xs ys : List (Row F)) → ids (xs ++ ys) ≡ ids xs ++ ids ys
  ids-append [] ys = refl
  ids-append (x ∷ xs) ys = ap (◌∷◌ x.ingestion_id) (ids-append xs ys)

  length-ids : (rows : List (Row F)) → length (ids rows) ≡ length rows
  length-ids [] = refl
  length-ids (r ∷ rows) = ap suc (length-ids rows)

  contains-insert_sorted :
      (r : Row F) (rows : List (Row F)) (i : String)
      → contains (ids (insert_sorted (λ (x : Row F). x.ingestion_id) r rows)) i
        ≡ (i == r.ingestion_id || contains (ids rows) i)
  unfolding insert_sorted
  contains-insert_sorted r [] i = refl
  contains-insert_sorted r (x ∷ rows) i = ground (arith, contains-insert_sorted r rows i)

  -- Sorting keeps which ids there are.
  pub contains-sorted_rows :
      (events : List (TelemetryEvent F)) (i : String)
      → contains (ids (sorted_rows events)) i ≡ contains (event_ids events) i
  unfolding sorted_rows sort_by
  contains-sorted_rows [] i = refl
  contains-sorted_rows (e ∷ events) i =
      contains-insert_sorted (event_to_row e) (sorted_rows events) i
      ∙ ap (λ b. i == e.ingestion_id || b) (contains-sorted_rows events i)

  length-sorted_rows :
      (events : List (TelemetryEvent F)) → length (sorted_rows events) ≡ length events
  unfolding sorted_rows
  length-sorted_rows events =
      length-sort_by (λ (r : Row F). r.ingestion_id) (map event_to_row events)
      ∙ length-map event_to_row events

module _ {F : Type 0} (db : Database F) where
  -- One insertion of rows with these ids into a table: how many are new, and what is held then.
  record Inserts (is : List String) (t t' : db.Table) (n : ℕ) : Type 0 where
    counted : n ≡ length (new_ids is (db.holds t))
    grown : db.size t' ≡ db.size t + n
    held : (i : String) → db.holds t' i ≡ (db.holds t i || contains is i)

  contains-append :
      (xs ys : List String) (i : String) → contains (xs ++ ys) i ≡ (contains xs i || contains ys i)
  contains-append [] ys i = refl
  contains-append (x ∷ xs) ys i = ground (arith, contains-append xs ys i)

  insert-Inserts :
      (rows : List (Row F)) (t : db.Table)
      → Inserts (ids rows) t (db.insert rows t).0 (length (db.insert rows t).1)
  insert-Inserts rows t = record {
    counted = ap length (db.insert_returns rows t);
    grown = db.insert_size rows t;
    held = db.insert_holds rows t;
  }

  Inserts-append :
      (xs ys : List String) (t u v : db.Table) (m n : ℕ)
      → Inserts xs t u m
      → Inserts ys u v n
      → Inserts (xs ++ ys) t v (m + n)
  Inserts-append xs ys t u v m n a b = record {
    counted =
        let same : db.holds u ≡ (λ i. db.holds t i || contains xs i) = fun_ext a.held in
        omega (
          arith,
          a.counted,
          b.counted,
          ap (λ h. length (new_ids ys h)) same,
          ap length (new_ids-append xs ys (db.holds t)),
          length-append (new_ids xs (db.holds t)) (new_ids ys (λ i. db.holds t i || contains xs i)),
        );
    grown = omega (arith, a.grown, b.grown);
    held = λ i. ground (arith, a.held i, b.held i, contains-append xs ys i);
  }

  Inserts-nil : (t : db.Table) → Inserts [] t t 0
  Inserts-nil t = record {
    counted = unfold new_ids in refl;
    grown = omega arith;
    held = λ i. ground arith;
  }

  insert_chunks_fine :
      (chunks : List (List (Row F))) (call n : ℕ) (before working : db.Table)
      → (t : db.Table) × (k : ℕ) × (insert_chunks db no_faults chunks call n before working
          ≡ (ok (n + k), t))
        × Inserts (ids (concat chunks)) working t k
  unfolding insert_chunks
  insert_chunks_fine [] call n before working =
      let same : n ≡ n + 0 = omega arith in
      (
        working,
        0,
        ap (λ k. let r : Result PersistError ℕ × db.Table = (ok k, working) in r) same,
        Inserts-nil working,
      )
  insert_chunks_fine (rows ∷ chunks) call n before working =
      let (u, returned) = db.insert rows working in
      let (t, k, ran, ins) = insert_chunks_fine chunks (call + 1) (n + length returned) before u in
      let same : n + length returned + k ≡ n + (length returned + k) = omega arith in
      (
        t,
        length returned + k,
        ran ∙ ap (λ m. let r : Result PersistError ℕ × db.Table = (ok m, t) in r) same,
        subst (λ is. Inserts is working t (length returned + k))
            (sym (ids-append rows (concat chunks)))
            (Inserts-append (ids rows) (ids (concat chunks)) working u t (length returned) k
              (insert-Inserts rows working) ins),
      )

  -- What a fault-free call has done with a table.
  pub record Persists (events : List (TelemetryEvent F)) (t t' : db.Table) (n : ℕ) : Type 0 where
    pub counted : n ≡ length (new_ids (ids (sorted_rows events)) (db.holds t))
    pub at_most : n ≤ length events
    pub grown : db.size t' ≡ db.size t + n
    pub held : (i : String) → db.holds t' i ≡ (db.holds t i || contains (event_ids events) i)

  Persists-of_Inserts :
      (events : List (TelemetryEvent F)) (t t' : db.Table) (n : ℕ) (is : List String)
      → is ≡ ids (sorted_rows events)
      → Inserts is t t' n
      → Persists events t t' n
  Persists-of_Inserts events t t' n is same ins = record {
    counted = rw same at ins.counted;
    at_most = omega (
      arith,
      ins.counted,
      ap length same,
      length-new_ids is (db.holds t),
      length-ids (sorted_rows events),
      length-sorted_rows events,
    );
    grown = ins.grown;
    held =
        λ i. ground (arith, ins.held i, contains-sorted_rows events i, ap (λ l. contains l i) same);
  }

  -- Without a fault a batch of any size is written as if by one insertion: afterwards exactly the
  -- ids held before and those of the batch are held, the table has grown by the number that is
  -- returned, and that is the number of new ids, each counted once.
  pub persist_batch_fine :
      (events : List (TelemetryEvent F)) (t : db.Table)
      → (n : ℕ) × (t' : db.Table) × (persist_batch db no_faults events t ≡ (ok n, t'))
        × Persists events t t' n
  unfolding persist_batch
  persist_batch_fine [] t = (
    0,
    t,
    refl,
    unfold sorted_rows sort_by in Persists-of_Inserts [] t t 0 [] refl (Inserts-nil t),
  )
  persist_batch_fine (event ∷ events) t =
      let rows = sorted_rows (event ∷ events) in
      let chunks = chunk rows insert_chunk_size in
      let (t', n, ran, ins) = insert_chunks_fine chunks 1 0 t t in
      let same : 0 + n ≡ n = omega arith in
      (
        n,
        t',
        ran ∙ ap (λ m. let r : Result PersistError ℕ × db.Table = (ok m, t') in r) same,
        Persists-of_Inserts (event ∷ events) t t' n (ids (concat chunks))
            (ap ids (concat-chunk rows insert_chunk_size (omega arith))) ins,
      )
