-- ===== src/Tests/Tagger.antt =====
-- tag_stream on the packet of README.rst, twice.
use pysubunit.Prelude.{List, [], ◌∷◌, map}
use pysubunit.Std.Format.{codes}
use pysubunit.V2.Types.{Text, StatusEvent}
use pysubunit.V2.Fields.RoundTrip.{delivered}
use pysubunit.Tagger.{given_tags, retag}
use pysubunit.Tests.Packets.{foo}

abbrev tags : List Text
tags = codes "new" ∷ codes "-old" ∷ []

abbrev retagged : List StatusEvent
retagged = map (retag (codes "new" ∷ []) (codes "old" ∷ [])) (delivered foo ∷ delivered foo ∷ [])
