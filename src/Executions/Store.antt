-- ===== src/Executions/Store.antt =====
-- The append-only table of backend/app/execution_store.py. JSON texts stand for the parameters and
-- the results; the clock and the random identifiers are arguments. A row's id is its place.
use ap2web.Prelude.{
  Bool, List, Option, Result, Text, [], codes, err, false, if◌then◌else◌, is_empty, none, ok, some,
  text_eq, true, ℕ, ◌++◌, ◌||◌, ◌∷◌,
}

pub data EventType : Type 0 where
  started : EventType
  finished : EventType

-- A row of `execution_events`.
pub record ExecutionEvent : Type 0 where
  pub execution_id : Text
  pub execution_type : Text
  pub event_type : EventType
  pub status : Text
  pub ts : ℕ
  pub snapshot_hash : Text
  pub parameters : Text
  pub artifact_content_hash : Option Text
  pub results : Option Text

-- The reasons for a ValueError.
pub data StoreError : Type 0 where
  start_incomplete : StoreError
  finish_incomplete : StoreError
  not_started : StoreError
  already_finished : StoreError

abbrev pub of_execution : Text → ExecutionEvent → Bool
of_execution eid e = text_eq e.execution_id eid

abbrev pub is_finished : EventType → Bool
is_finished started = false
is_finished finished = true

-- The last row of a list with the given test, `ORDER BY id DESC LIMIT 1`.
unfoldable pub latest : (ExecutionEvent → Bool) → List ExecutionEvent → Option ExecutionEvent
latest p [] = none
latest p (e ∷ es) =
    let later = latest p es in elim later [ some l ↦ some l | none ↦ if p e then some e else none ]

-- `get`
unfoldable pub get : Text → List ExecutionEvent → Option ExecutionEvent
unfolding latest
get eid es = latest (of_execution eid) es

-- `execution_id or str(uuid.uuid4())`
abbrev pub id_or : Option Text → Text → Text
id_or none fresh = fresh
id_or (some t) fresh = if is_empty t then fresh else t

-- The row of a start.
abbrev pub starting : ℕ → Text → Text → Text → Text → ExecutionEvent
starting now eid execution_type snapshot_hash parameters = record {
  execution_id = eid;
  execution_type = execution_type;
  event_type = started;
  status = codes "started";
  ts = now;
  snapshot_hash = snapshot_hash;
  parameters = parameters;
  artifact_content_hash = none;
  results = none;
}

-- `start`: the record that is read back, and the table.
unfoldable pub start :
    Text
    → ℕ
    → Text
    → Text
    → Text
    → Option Text
    → List ExecutionEvent
    → Result StoreError (Option ExecutionEvent) × List ExecutionEvent
unfolding get
start fresh now execution_type snapshot_hash parameters given es =
    if is_empty execution_type || is_empty snapshot_hash
    then (err start_incomplete, es)
    else (let eid = id_or given fresh in
        let row = starting now eid execution_type snapshot_hash parameters in
        let es' = es ++ (row ∷ []) in (ok (get eid es'), es'))

-- The terminal row behind a row.
abbrev pub finishing : ℕ → Text → Text → Text → Text → ExecutionEvent → ExecutionEvent
finishing now eid status artifact results previous = record {
  execution_id = eid;
  execution_type = previous.execution_type;
  event_type = finished;
  status = status;
  ts = now;
  snapshot_hash = previous.snapshot_hash;
  parameters = previous.parameters;
  artifact_content_hash = some artifact;
  results = some results;
}

-- `finish`
unfoldable pub finish :
    ℕ
    → Text
    → Text
    → Text
    → Text
    → List ExecutionEvent
    → Result StoreError (Option ExecutionEvent) × List ExecutionEvent
unfolding get
finish now eid status artifact results es =
    if is_empty eid || (is_empty status || is_empty artifact)
    then (err finish_incomplete, es)
    else elim (get eid es) [
      | none ↦ (err not_started, es)
      | some previous ↦
          if is_finished previous.event_type
          then (err already_finished, es)
          else (let es' = es ++ (finishing now eid status artifact results previous ∷ []) in
              (ok (get eid es'), es'))
    ]
