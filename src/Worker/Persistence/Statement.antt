-- ===== src/Worker/Persistence/Statement.antt =====
-- The statements of worker/persistence.py and their parameters.
use flight_pulse.Base.{
  ℕ, zero, suc, ◌+◌, ◌*◌, ◌≤◌, ◌<◌, String, ◌≡◌, refl, ap, Option, none, some, List, [], ◌∷◌, ◌++◌,
  arith, All, length, string_eq, nat_eq, option_eq, list_eq,
}
use flight_pulse.Base.Chunks.{chunk, chunk-Fits, Fits}
use flight_pulse.Worker.Database.{Row}
use flight_pulse.Worker.Persistence.{insert_chunk_size}
use flight_pulse.Ingestion.Schemas.{TelemetryEvent}

-- `_INSERT_COLUMNS`
abbrev pub insert_columns : List String
insert_columns =
    "ingestion_id" ∷ "source" ∷ "icao24" ∷ "collector_id" ∷ "payload" ∷ "ingested_at" ∷ []

-- `_build_multi_row_insert`: the columns, and for each row its placeholders, before `now()`.
pub record Statement : Type 0 where
  pub columns : List String
  pub value_groups : List ℕ

abbrev pub replicate {ℓ} : {A : Type ℓ} → ℕ → A → List A
replicate zero a = []
replicate (suc n) a = a ∷ replicate n a

unfoldable pub build_multi_row_insert : ℕ → Statement
build_multi_row_insert num_rows = record {
  columns = insert_columns;
  value_groups = replicate num_rows (length insert_columns);
}

abbrev pub placeholders : List ℕ → ℕ
placeholders [] = 0
placeholders (n ∷ groups) = n + placeholders groups

-- A value that is bound to a placeholder: a text or NULL, or the encoded event.
pub data Value (F : Type 0) : Type 0 where
  text : String → Value F
  null : Value F
  json : TelemetryEvent F → Value F

-- PostgreSQL's limit on the parameters of a statement.
abbrev pub max_parameters : ℕ
max_parameters = 65535

length-replicate {ℓ} : {A : Type ℓ} (n : ℕ) (a : A) → length (replicate n a) ≡ n
length-replicate zero a = refl
length-replicate (suc n) a = ap suc (length-replicate n a)

module _ {F : Type 0} where
  abbrev pub text_or_null : Option String → Value F
  text_or_null none = null
  text_or_null (some s) = text s

  abbrev pub row_values : Row F → List (Value F)
  row_values r =
      text r.ingestion_id
      ∷ text r.source
      ∷ text r.icao24
      ∷ text_or_null r.collector_id
      ∷ json r.payload
      ∷ text r.ingested_at
      ∷ []

  -- `[value for row in chunk_rows for value in row]`
  unfoldable pub flat_params : List (Row F) → List (Value F)
  flat_params [] = []
  flat_params (r ∷ rows) = row_values r ++ flat_params rows

  params_match :
      (rows : List (Row F))
      → (placeholders (replicate (length rows) (length insert_columns)) ≡ length (flat_params rows))
        × (length (flat_params rows) ≡ 6 * length rows)
  unfolding flat_params
  params_match [] = (refl, refl)
  params_match (r ∷ rows) = let (same, six) = params_match rows in (omega arith, omega arith)

  -- The statement for some rows has as many placeholders as values are bound, and no more than
  -- PostgreSQL takes.
  abbrev pub IsExecutable : List (Row F) → Type 0
  IsExecutable rows =
      (placeholders (build_multi_row_insert (length rows)).value_groups ≡ length (flat_params rows))
      × (length (flat_params rows) ≤ max_parameters)
      × (0 < length (build_multi_row_insert (length rows)).value_groups)

  Fits-IsExecutable : (rows : List (Row F)) → Fits insert_chunk_size rows → IsExecutable rows
  unfolding build_multi_row_insert
  Fits-IsExecutable rows (pos, fits) =
      let (same, six) = params_match rows in
      (same, omega arith, omega (arith, length-replicate (length rows) (length insert_columns)))

  All-IsExecutable :
      (chunks : List (List (Row F))) → All (Fits insert_chunk_size) chunks → All IsExecutable chunks
  All-IsExecutable [] h = tt
  All-IsExecutable (rows ∷ chunks) h = (Fits-IsExecutable rows h.0, All-IsExecutable chunks h.1)

  -- For a batch of any size every statement that is sent has rows, as many placeholders as bound
  -- values, and at most 65535 of them.
  pub chunks-IsExecutable : (rows : List (Row F)) → All IsExecutable (chunk rows insert_chunk_size)
  chunks-IsExecutable rows =
      All-IsExecutable (chunk rows insert_chunk_size)
        (chunk-Fits rows insert_chunk_size (omega arith))
