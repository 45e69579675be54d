-- ===== src/Store/Samples.antt =====
-- Stores to run the definitions on.
use pi_mob.Prelude.{true, false, none, some, [], ◌∷◌}
use pi_mob.Tables.{host, Stream, StoredEvent, other, CanonicalRecord}
use pi_mob.Store.{Store}

abbrev pub empty_store : Store
empty_store = record {
  now = 100;
  writable = true;
  maintenance = false;
  sessions = [];
  streams = [];
  events = [];
  commands = [];
  leases = [];
  queue = [];
  dialogs = [];
  secrets = [];
  credentials = [];
  devices = [];
  dedup = [];
  sequences = [];
  canonical = [];
  collecting = [];
  published = [];
}

abbrev pub host_stream : Stream
host_stream = record { stream_id = host; session_id = none; current = 2; floor = 1 }

abbrev pub host_event : StoredEvent
host_event = record {
  event_id = 7;
  stream_id = host;
  cursor = 2;
  content = other 1 1;
  created_at = 90;
}

-- A host stream at cursor 2 whose first event is no longer there.
abbrev pub host_store : Store
host_store = record empty_store { streams = host_stream ∷ []; events = host_event ∷ [] }

abbrev pub first_record : CanonicalRecord
first_record = record {
  session_id = 5;
  sequence = 1;
  event_id = 50;
  source_event_id = some 9;
  event_type = 3;
  occurred_at = 80;
  payload = 1;
  created_at = 80;
}

abbrev pub second_record : CanonicalRecord
second_record = record {
  session_id = 5;
  sequence = 2;
  event_id = 51;
  source_event_id = none;
  event_type = 3;
  occurred_at = 81;
  payload = 1;
  created_at = 81;
}

-- Two canonical events of session 5.
abbrev pub logged_store : Store
logged_store = record empty_store {
  sessions = 5 ∷ [];
  sequences = (5, 2) ∷ [];
  canonical = first_record ∷ second_record ∷ [];
}
