-- ===== src/Worker/Database/Rows.antt =====
-- A table as the list of its rows: the assumptions of `Database` can be met.
use mathlib.Core.Path.{fun_ext}
use flight_pulse.Base.{
  ◌+◌, String, ◌≡◌, refl, ap, ◌∙◌, inl, inr, ◌||◌, List, [], ◌∷◌, ◌++◌, arith, if◌then◌else◌,
  Bool-cases, length, length-append, ◌==◌, contains, string_eq, nat_eq, option_eq, list_eq,
}
use flight_pulse.Worker.Database.{Row, ids, new_ids, Database}

module _ {F : Type 0} where
  unfoldable pub insert_rows : List (Row F) → List (Row F) → List (Row F) × List String
  insert_rows [] t = (t, [])
  insert_rows (r ∷ rows) t =
      let skipped = insert_rows rows t in
      let (t', returned) = insert_rows rows (t ++ r ∷ []) in
      if contains (ids t) r.ingestion_id then skipped else (t', r.ingestion_id ∷ returned)

  contains-snoc :
      (t : List (Row F)) (r : Row F) (i : String)
      → contains (ids (t ++ r ∷ [])) i ≡ (i == r.ingestion_id || contains (ids t) i)
  contains-snoc [] r i = ground arith
  contains-snoc (x ∷ t) r i = ground (arith, contains-snoc t r i)

  pub insert_rows_returns :
      (rows t : List (Row F)) → (insert_rows rows t).1 ≡ new_ids (ids rows) (contains (ids t))
  unfolding insert_rows new_ids
  insert_rows_returns [] t = refl
  insert_rows_returns (r ∷ rows) t = elim (Bool-cases (contains (ids t) r.ingestion_id)) [
    | inl held ↦ rw held (insert_rows_returns rows t)
    | inr new ↦ rw new (
        ap (◌∷◌ r.ingestion_id) (
          insert_rows_returns rows (t ++ r ∷ [])
          ∙ ap (new_ids (ids rows)) (fun_ext (contains-snoc t r))))
  ]

  pub insert_rows_holds :
      (rows t : List (Row F)) (i : String)
      → contains (ids (insert_rows rows t).0) i ≡ (contains (ids t) i || contains (ids rows) i)
  unfolding insert_rows
  insert_rows_holds [] t i = ground arith
  insert_rows_holds (r ∷ rows) t i = ground (
    arith,
    insert_rows_holds rows t i,
    insert_rows_holds rows (t ++ r ∷ []) i,
    contains-snoc t r i,
    string_eq.beq_iff i r.ingestion_id,
  )

  pub insert_rows_size :
      (rows t : List (Row F))
      → length (insert_rows rows t).0 ≡ length t + length (insert_rows rows t).1
  unfolding insert_rows
  insert_rows_size [] t = omega arith
  insert_rows_size (r ∷ rows) t = ground (
    arith,
    insert_rows_size rows t,
    insert_rows_size rows (t ++ r ∷ []),
    length-append t (r ∷ []),
  )

abbrev pub row_database : {F : Type 0} → Database F
row_database {F} = record {
  Table = List (Row F);
  holds = λ t. contains (ids t);
  size = length;
  insert = insert_rows;
  insert_returns = insert_rows_returns;
  insert_holds = insert_rows_holds;
  insert_size = insert_rows_size;
}
