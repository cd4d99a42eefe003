-- ===== src/ToDisk/Export.antt =====
-- DiskExporter of pysubunit/_to_disk.py.
pub mod Kept
use pysubunit.Prelude.{ℕ, Bool, true, false, Option, none, some, List, [], ◌∷◌, ◌++◌, map}
use pysubunit.Std.Format.{codes}
use pysubunit.Std.Json.{print_text, print_optional, print_list}
use pysubunit.Std.Utf8
use pysubunit.V2.Types.{Text, Bytes}
use pysubunit.V1.Stats.{sort_tags}
use pysubunit.ToDisk.{allocate_path}
use pysubunit.ToDisk.Disk.{Disk, Made, made, already_there, refused}

-- The dict of a test, with what iter_bytes gives for each content.
pub record TestDict (Time : Type 0) : Type 0 where
  pub id : Text
  pub tags : List Text
  pub details : List (Text × List Bytes)
  pub status : Text
  pub start : Option Time
  pub stop : Option Time

pub data Outcome : Type 0 where
  exported os_error unicode_encode_error out_of_fuel : Outcome

pub record Export (State : Type 0) : Type 0 where
  pub disk : State
  pub outcome : Outcome

abbrev name_of : Text × List Bytes → Text
name_of item = item.0

-- `str_time` is str of a time.
module _ {Time : Type 0} (str_time : Time → Text) where
  -- _json_time
  abbrev pub json_time : Option Time → Option Text
  json_time none = none
  json_time (some t) = some (str_time t)

  -- json.dumps of test_summary with its keys in order.
  abbrev pub print_summary : TestDict Time → Text
  print_summary test =
      codes "{\"details\": "
      ++ (print_list (sort_tags (map name_of test.details))
          ++ (codes ", \"id\": "
              ++ (print_text test.id
                  ++ (codes ", \"start\": "
                      ++ (print_optional (json_time test.start)
                          ++ (codes ", \"status\": "
                              ++ (print_text test.status
                                  ++ (codes ", \"stop\": "
                                      ++ (print_optional (json_time test.stop)
                                          ++ (codes ", \"tags\": "
                                              ++ (print_list (sort_tags test.tags)
                                                  ++ codes "}")))))))))))

module _ {State : Type 0} where
  -- What goes on if there is no exception.
  abbrev pub and_then : Export State → (State → Export State) → Export State
  and_then e next = elim e.outcome [
    | exported ↦ next e.disk
    | os_error ↦ e
    | unicode_encode_error ↦ e
    | out_of_fuel ↦ e
  ]

  abbrev pub stopped : State → Outcome → Export State
  stopped d o = record { disk = d; outcome = o }

  abbrev pub saved : State × Bool → Export State
  saved (d, true) = stopped d exported
  saved (d, false) = stopped d os_error

  abbrev pub encode_failed : State → Export State
  encode_failed d = stopped d unicode_encode_error

module _ {State : Type 0} (disk : Disk State) (fuel probes : ℕ) where
  abbrev pub made_dirs : Text → List Bytes → State × Made → Export State
  made_dirs path chunks (d, made) = saved (disk.save d path chunks)
  made_dirs path chunks (d, already_there) = saved (disk.save d path chunks)
  made_dirs path chunks (d, refused) = stopped d os_error

  abbrev pub at_path : State → List Bytes → Option Text → Export State
  at_path d chunks none = stopped d out_of_fuel
  at_path d chunks (some path) = made_dirs path chunks (disk.makedirs d (disk.dirname path))

  abbrev pub allocate : State → Text → Text → Option Text
  allocate d root sub = allocate_path (disk.realpath d) (disk.exists d) fuel probes root sub

  -- _open_path, with the writes to what it opens.
  unfoldable pub write_path : State → Text → Text → List Bytes → Export State
  write_path d root sub chunks = at_path d chunks (allocate d root sub)

  unfoldable pub export_details : Text → List (Text × List Bytes) → State → Export State
  export_details root [] d = stopped d exported
  export_details root ((name, chunks) ∷ details) d =
      and_then (write_path d root name chunks) (export_details root details)

  -- The file for the summary is open when it is encoded.
  abbrev pub export_summary : State → Text → Option Bytes → Export State
  export_summary d root none = and_then (write_path d root (codes "test.json") []) encode_failed
  export_summary d root (some bytes) = write_path d root (codes "test.json") (bytes ∷ [])

  abbrev pub export_at :
      State → Option Bytes → List (Text × List Bytes) → Option Text → Export State
  export_at d summary details none = stopped d out_of_fuel
  export_at d summary details (some root) =
      and_then (export_summary d root summary) (export_details root details)

  -- DiskExporter(directory).export(test)
  unfoldable pub export :
      {Time : Type 0} → (Time → Text) → State → Text → TestDict Time → Export State
  unfolding write_path export_details
  export str_time d directory test =
      export_at d (Utf8.encode (print_summary str_time test)) test.details
        (allocate d (disk.realpath d directory) test.id)
