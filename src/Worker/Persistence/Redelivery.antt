-- ===== src/Worker/Persistence/Redelivery.antt =====
-- `persist_batch` of worker/persistence.py under faults and under arq's at-least-once delivery.
use mathlib.Core.Path.{subst}
use flight_pulse.Base.{
  ℕ, ◌+◌, ◌≤◌, String, ◌≡◌, refl, sym, ap, ◌∙◌, ◌⊎◌, inl, inr, Bool, true, false, ◌||◌, List, [],
  ◌∷◌, arith, Option-cases, All, length, beq_refl, contains, string_eq, nat_eq, option_eq, list_eq,
}
use flight_pulse.Base.Result.{Result, ok, err}
use flight_pulse.Base.Chunks.{chunk}
use flight_pulse.Ingestion.Schemas.{TelemetryEvent}
use flight_pulse.Worker.Database.{Row, ids, new_ids, Database}
use flight_pulse.Worker.Persistence.{
  PersistError, Commit, committed, commit_raised, Faults, insert_chunk_size, sorted_rows, finish,
  insert_chunks, persist_batch,
}
use flight_pulse.Worker.Persistence.Insertion.{
  no_faults, event_ids, new_ids_held, contains-sorted_rows, Persists, persist_batch_fine,
}

module _ {F : Type 0} (db : Database F) where
  -- All or nothing: a result is that of the call without faults, and an exception leaves the table
  -- as it was, or as that call leaves it.
  abbrev pub Atomic :
      db.Table → Result PersistError ℕ × db.Table → Result PersistError ℕ × db.Table → Type 0
  Atomic before fine (ok n, t) = ◌≡◌ {A = Result PersistError ℕ × db.Table} (ok n, t) fine
  Atomic before fine (err e, t) = (t ≡ before) ⊎ (t ≡ fine.1)

  finish-Atomic :
      (faults : Faults) (commit : Commit) (n : ℕ) (before working : db.Table)
      → faults.commit ≡ commit
      → Atomic before (ok n, working) (finish db faults n before working)
  unfolding finish
  finish-Atomic faults committed n before working e = rw (e, finish, Atomic) refl
  finish-Atomic faults (commit_raised raised true) n before working e =
      rw (e, finish, Atomic) (inr refl)
  finish-Atomic faults (commit_raised raised false) n before working e =
      rw (e, finish, Atomic) (inl refl)

  insert_chunks-Atomic :
      (faults : Faults) (chunks : List (List (Row F))) (call n : ℕ) (before working : db.Table)
      → Atomic before
          (insert_chunks db no_faults chunks call n before working)
          (insert_chunks db faults chunks call n before working)
  unfolding insert_chunks
  insert_chunks-Atomic faults [] call n before working =
      finish-Atomic faults faults.commit n before working refl
  insert_chunks-Atomic faults (rows ∷ chunks) call n before working =
      let rest =
        insert_chunks-Atomic faults chunks (call + 1) (n + length (db.insert rows working).1) before
          (db.insert rows working).0 in
      elim (Option-cases (faults.raises call)) [
        | inl fine ↦ rw (fine, insert_chunks, Atomic) rest
        | inr (e, raises) ↦ rw (raises, insert_chunks, Atomic) (inl refl)
      ]

  -- Whatever database call raises, and whether or not a commit that raised has taken effect: if the
  -- call returns, its result and the table are those of a call without faults; if it raises, the
  -- table is as before, or as a call without faults leaves it.
  pub persist_batch-Atomic :
      (faults : Faults) (events : List (TelemetryEvent F)) (t : db.Table)
      → Atomic t (persist_batch db no_faults events t) (persist_batch db faults events t)
  unfolding persist_batch
  persist_batch-Atomic faults [] t = refl
  persist_batch-Atomic faults (event ∷ events) t = elim (Option-cases (faults.raises 0)) [
    | inl fine ↦
        rw (fine, persist_batch, Atomic)
          (insert_chunks-Atomic faults (chunk (sorted_rows (event ∷ events)) insert_chunk_size) 1 0
            t t)
    | inr (e, raises) ↦ rw (raises, persist_batch, Atomic) (inl refl)
  ]

  -- Deliveries of one batch, each with its faults: the results, and the last table.
  unfoldable pub deliver :
      List Faults → List (TelemetryEvent F) → db.Table → List (Result PersistError ℕ) × db.Table
  deliver [] events t = ([], t)
  deliver (faults ∷ more) events t =
      let (result, t') = persist_batch db faults events t in
      let (results, t'') = deliver more events t' in (result ∷ results, t'')

  -- The rows that a result reports, and whether any delivery returned.
  abbrev pub reported : Result PersistError ℕ → ℕ
  reported (ok n) = n
  reported (err e) = 0

  abbrev pub all_reported : List (Result PersistError ℕ) → ℕ
  all_reported [] = 0
  all_reported (r ∷ rs) = reported r + all_reported rs

  abbrev pub returned : Result PersistError ℕ → Bool
  returned (ok n) = true
  returned (err e) = false

  abbrev pub any_returned : List (Result PersistError ℕ) → Bool
  any_returned [] = false
  any_returned (r ∷ rs) = returned r || any_returned rs

  module _ (events : List (TelemetryEvent F)) (t₀ : db.Table) where
    -- How many ids of the batch are new to the first table.
    abbrev pub fresh : ℕ
    fresh = length (new_ids (ids (sorted_rows events)) (db.holds t₀))

    -- The batch is in the table, once.
    pub record IsStored (t : db.Table) : Type 0 where
      pub held : (i : String) → db.holds t i ≡ (db.holds t₀ i || contains (event_ids events) i)
      pub size : db.size t ≡ db.size t₀ + fresh

    IsStored-of_Persists : (t : db.Table) (n : ℕ) → Persists db events t₀ t n → IsStored t
    IsStored-of_Persists t n p = record { held = p.held; size = omega (arith, p.grown, p.counted) }

    All-held :
        (t : db.Table) (rows : List (Row F))
        → ((i : String) → contains (ids rows) i ≡ true → db.holds t i ≡ true)
        → All (λ i. db.holds t i ≡ true) (ids rows)
    All-held t [] h = tt
    All-held t (r ∷ rows) h = (
      h r.ingestion_id (ground (arith, beq_refl r.ingestion_id)),
      All-held t rows (λ i is_in. h i (ground (arith, is_in))),
    )

    -- A delivery to a table that has the batch returns 0, if it returns, and changes nothing.
    IsStored-again :
        (t : db.Table)
        → IsStored t
        → (t' : db.Table) × (persist_batch db no_faults events t ≡ (ok 0, t')) × IsStored t'
    IsStored-again t st =
        let (n, t', ran, p) = persist_batch_fine db events t in
        let everything =
          All-held t (sorted_rows events)
            (λ i is_in. ground (arith, is_in, st.held i, contains-sorted_rows events i)) in
        let none_new : n ≡ 0 =
          p.counted ∙ ap length (new_ids_held (ids (sorted_rows events)) (db.holds t) everything) in
        (
          t',
          ran ∙ ap (λ m. let r : Result PersistError ℕ × db.Table = (ok m, t') in r) none_new,
          record {
            held = λ i. ground (arith, p.held i, st.held i);
            size = omega (arith, p.grown, st.size);
          },
        )

    IsStored-outcome :
        (t u : db.Table) (fine out : Result PersistError ℕ × db.Table)
        → fine ≡ (ok 0, u)
        → IsStored t
        → IsStored u
        → Atomic t fine out
        → IsStored out.1 × (reported out.0 ≡ 0)
    IsStored-outcome t u fine (ok n, t') e st su same =
        let q : ◌≡◌ {A = Result PersistError ℕ × db.Table} (ok n, t') (ok 0, u) = same ∙ e in
        (
          subst IsStored (sym (ap (λ (x : Result PersistError ℕ × db.Table). x.1) q)) su,
          ap (λ (x : Result PersistError ℕ × db.Table). reported x.0) q,
        )
    IsStored-outcome t u fine (err x, t') e st su (inl same) = (subst IsStored (sym same) st, refl)
    IsStored-outcome t u fine (err x, t') e st su (inr same) =
        let q = ap (λ (y : Result PersistError ℕ × db.Table). y.1) e in
        (subst IsStored (sym (same ∙ q)) su, refl)

    -- A first delivery has done nothing and raised, or has stored the batch.
    abbrev FirstDelivery : Result PersistError ℕ × db.Table → Type 0
    FirstDelivery out =
        (out.1 ≡ t₀) × (returned out.0 ≡ false) × (reported out.0 ≡ 0)
        ⊎ IsStored out.1 × (reported out.0 ≤ fresh)

    fresh_outcome :
        (u : db.Table) (n : ℕ) (fine out : Result PersistError ℕ × db.Table)
        → fine ≡ (ok n, u)
        → n ≡ fresh
        → IsStored u
        → Atomic t₀ fine out
        → FirstDelivery out
    fresh_outcome u n fine (ok m, t') e counted su same =
        let q : ◌≡◌ {A = Result PersistError ℕ × db.Table} (ok m, t') (ok n, u) = same ∙ e in
        let m_is_n = ap (λ (x : Result PersistError ℕ × db.Table). reported x.0) q in
        inr (
          subst IsStored (sym (ap (λ (x : Result PersistError ℕ × db.Table). x.1) q)) su,
          omega (arith, m_is_n),
        )
    fresh_outcome u n fine (err x, t') e counted su (inl same) = inl (same, refl, refl)
    fresh_outcome u n fine (err x, t') e counted su (inr same) =
        let q = ap (λ (y : Result PersistError ℕ × db.Table). y.1) e in
        inr (subst IsStored (sym (same ∙ q)) su, omega arith)

    deliver-IsStored :
        (more : List Faults) (t : db.Table)
        → IsStored t
        → let (results, t') = deliver more events t in IsStored t' × (all_reported results ≡ 0)
    unfolding deliver
    deliver-IsStored [] t st = (st, refl)
    deliver-IsStored (faults ∷ more) t st =
        let (u, again, su) = IsStored-again t st in
        let (st', none_new) =
          IsStored-outcome t u (persist_batch db no_faults events t)
            (persist_batch db faults events t) again st su (persist_batch-Atomic faults events t) in
        let (last, none_more) = deliver-IsStored more (persist_batch db faults events t).1 st' in
        (last, omega arith)

    abbrev pub Delivered : List (Result PersistError ℕ) → db.Table → Type 0
    Delivered results t =
        ((t ≡ t₀) × (any_returned results ≡ false) × (all_reported results ≡ 0))
        ⊎ (IsStored t × (all_reported results ≤ fresh))

    prepend :
        (r : Result PersistError ℕ) (results : List (Result PersistError ℕ)) (t : db.Table)
        → returned r ≡ false
        → reported r ≡ 0
        → Delivered results t
        → Delivered (r ∷ results) t
    prepend r results t failed none_reported (inl (same, none_yet, zero_yet)) =
        inl (same, rw failed none_yet, omega arith)
    prepend r results t failed none_reported (inr (st, few)) = inr (st, omega arith)

    -- Any number of deliveries of one batch, whatever calls raise in each: the batch is stored
    -- once, or nothing was written and no delivery returned; and the deliveries that returned
    -- report together no more rows than were inserted.
    pub deliver_once :
        (attempts : List Faults)
        → let (results, t) = deliver attempts events t₀ in Delivered results t
    unfolding deliver
    deliver_once [] = inl (refl, refl, refl)
    deliver_once (faults ∷ more) =
        let (n, u, ran, p) = persist_batch_fine db events t₀ in
        let first =
          fresh_outcome u n (persist_batch db no_faults events t₀)
            (persist_batch db faults events t₀) ran p.counted (IsStored-of_Persists u n p)
            (persist_batch-Atomic faults events t₀) in
        elim first [
          | inl (same, failed, none_reported) ↦
              let rest =
                subst (λ x. Delivered (deliver more events x).0 (deliver more events x).1)
                  (sym same) (deliver_once more) in
              prepend (persist_batch db faults events t₀).0
                (deliver more events (persist_batch db faults events t₀).1).0
                (deliver more events (persist_batch db faults events t₀).1).1 failed none_reported
                rest
          | inr (st, few) ↦
              let (last, none_more) =
                deliver-IsStored more (persist_batch db faults events t₀).1 st in
              inr (last, omega arith)
        ]
