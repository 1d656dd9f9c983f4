-- ===== src/Worker/Processor/Delays.antt =====
-- `compute_backoff_seconds` of worker/processor.py as a recurrence.
use flight_pulse.Base.{string_eq, nat_eq, option_eq, list_eq}
