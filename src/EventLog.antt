-- ===== src/EventLog.antt =====
-- The simulation's event log (src-tauri/engine/network/event_log.go): a list of entries that drops
-- its oldest ones at a capacity. The `details` of an entry, a map of any values that is only passed
-- on, is the parameter `D`. `int` is signed, so a limit of 0 or less is told by the sign bit.
pub mod Latest
use netforge.Prelude.{
  ℕ, ◌-◌, ◌/◌, ◌%◌, ◌^◌, String, Bool, ◌||◌, List, [], ◌∷◌, ◌++◌, ◌==◌, string_eq, if◌then◌else◌,
  length, drop, keep, ltb,
}
use netforge.Prelude.Int64.{Int64, le64, lt64}

pub record EventLogEntry (D : Type 0) : Type 0 where
  pub sim_time : Int64
  pub category : String
  pub node_id : String
  pub port_id : String
  pub message : String
  pub details : D

pub record EventLog (D : Type 0) : Type 0 where
  pub entries : List (EventLogEntry D)
  pub max_size : Int64

-- Go's Duration.Milliseconds, a division that rounds to 0.
abbrev pub milliseconds : Int64 → Int64
milliseconds d = if ltb d (2 ^ 63) then d / 1000000 else (2 ^ 64 - (2 ^ 64 - d) / 1000000) % 2 ^ 64

module _ {D : Type 0} where
  unfoldable pub new_event_log : Int64 → EventLog D
  new_event_log max_size = record {
    entries = [];
    max_size = if le64 max_size 0 then 10000 else max_size;
  }

  -- `entries[len(entries)-maxSize:]` when there are more than maxSize.
  unfoldable pub cut : Int64 → List (EventLogEntry D) → List (EventLogEntry D)
  cut max_size entries =
      if lt64 max_size (length entries) then drop (length entries - max_size) entries else entries

  unfoldable pub record_event :
      EventLog D → Int64 → String → String → String → String → D → EventLog D
  unfolding cut
  record_event l sim_time category node_id port_id message details =
      let entry : EventLogEntry D = record {
        sim_time = milliseconds sim_time;
        category = category;
        node_id = node_id;
        port_id = port_id;
        message = message;
        details = details;
      } in
      record l { entries = cut l.max_size (l.entries ++ entry ∷ []) }

  unfoldable pub latest : Int64 → List (EventLogEntry D) → List (EventLogEntry D)
  latest limit entries =
      let limit = if le64 limit 0 || lt64 (length entries) limit then length entries else limit in
      drop (length entries - limit) entries

  unfoldable pub get_entries : EventLog D → Int64 → String → List (EventLogEntry D)
  unfolding latest
  get_entries l limit category =
      if category == ""
      then latest limit l.entries
      else keep (λ e. e.category == category) (latest limit l.entries)

  unfoldable pub clear : EventLog D → EventLog D
  clear l = record l { entries = [] }
