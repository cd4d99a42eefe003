-- ===== src/Tagger/Streams.antt =====
-- What the calls of a stream are after tag_stream.
use pysubunit.Prelude.{◌≡◌, not, ◌&&◌, ◌||◌, List, [], ◌∷◌}
use pysubunit.V2.Types.{Text, StatusEvent, contains}
use pysubunit.Tagger.{given_tags}

-- `t` is `s` with other tags: those of `s` and the new ones, without those that are gone.
pub record IsTagged (new_tags gone_tags : List Text) (s t : StatusEvent) : Type 0 where
  pub same : t ≡ record s { test_tags = t.test_tags }
  pub retagged :
      (x : Text)
      → contains (given_tags t.test_tags) x ≡ (
          (contains (given_tags s.test_tags) x || contains new_tags x)
          && not (contains gone_tags x))

-- One call for each, in the same order.
abbrev pub AreTagged : List Text → List Text → List StatusEvent → List StatusEvent → Type 0
AreTagged new_tags gone_tags [] [] = Unit
AreTagged new_tags gone_tags [] (t ∷ ts) = ⊥
AreTagged new_tags gone_tags (s ∷ ss) [] = ⊥
AreTagged new_tags gone_tags (s ∷ ss) (t ∷ ts) =
    IsTagged new_tags gone_tags s t × AreTagged new_tags gone_tags ss ts
