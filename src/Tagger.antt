-- ===== src/Tagger.antt =====
-- pysubunit/__init__.py: tag_stream, which reads a stream of version 2 and writes it with other tags.
pub mod Streams
use pysubunit.Prelude.{Bool, true, false, Option, none, some, List, [], ◌∷◌, map}
use pysubunit.Std.Format.{codes}
use pysubunit.V2.Types.{Text, Bytes, StatusEvent, Result, ok, err, Error}
use pysubunit.V2.Writer.{write_all}
use pysubunit.V2.Run.{run, Trace, End, end_of_file, raised, out_of_fuel}
use pysubunit.Results.Tags.{update, difference}
use pysubunit.V1.Server.{tags_to_new_gone}

-- `tags = kwargs.get('test_tags')`, or an empty set.
abbrev pub given_tags : Option (List Text) → List Text
given_tags none = []
given_tags (some tags) = tags

abbrev pub if_any : List Text → Option (List Text)
if_any [] = none
if_any (tag ∷ tags) = some (tag ∷ tags)

-- Tagger.status
unfoldable pub retag : List Text → List Text → StatusEvent → StatusEvent
retag new_tags gone_tags s = record s {
  test_tags = if_any (difference (update (given_tags s.test_tags) new_tags) gone_tags);
}

-- An exception of the writer comes before one of the reader. What was written before either is not
-- kept here.
pub data Tagged : Type 0 where
  filtered : Bytes → Tagged
  raises : Error → Tagged
  index_error unfinished : Tagged

abbrev pub ended : Bytes → End → Tagged
ended bs end_of_file = filtered bs
ended bs (raised e) = raises e
ended bs out_of_fuel = unfinished

abbrev pub written : Result Bytes → End → Tagged
written (ok bs) end = ended bs end
written (err e) end = raises e

abbrev pub with_tags : Option (List Text × List Text) → Trace → Tagged
with_tags none t = index_error
with_tags (some (new_tags, gone_tags)) t =
    written (write_all (map (retag new_tags gone_tags) t.events)) t.end

unfoldable pub tag_stream : Bytes → Option (List Bool) → List Text → Tagged
tag_stream original polls tags =
    with_tags (tags_to_new_gone tags) (run (some (codes "stdout")) polls original)
