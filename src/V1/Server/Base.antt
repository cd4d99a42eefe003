-- ===== src/V1/Server/Base.antt =====
-- The state of TestProtocolServer, what a line does to it, and the tags and names in a line.
use pysubunit.Prelude.{ℕ, Option, none, some, List, [], ◌∷◌, if◌then◌else◌, Bool}
use pysubunit.Prelude.{◌==◌, ◌||◌}
use pysubunit.Std.Format.{codes}
use pysubunit.V2.Types.{Text, Bytes, add_tag}
use pysubunit.V1.Calls.{Outcome, error, failure, skip, success, xfail, uxsuccess, Call, Error}
use pysubunit.V1.Details.{Parser, Style, no_style, skip_style, success_style}

pub data State : Type 0 where
  outside_test in_test : State
  reading : Outcome → Parser → State

-- current_test_description: an attribute that __init__ does not set, None behind an outcome, or a text.
pub data Description : Type 0 where
  unset cleared : Description
  describes : Text → Description

-- `current_test` is _current_test, which is set together with the description; `description` is
-- current_test_description.
pub record Server : Type 0 where
  pub state : State
  pub current_test : Option Text
  pub description : Description

abbrev pub new : Server
new = record { state = outside_test; current_test = none; description = unset }

pub data Effect (Time : Type 0) : Type 0 where
  client : Call Time → Effect Time
  passed : Bytes → Effect Time
  forwarded : Bytes → Effect Time

-- What a line or the end of the connection does, and the exception if one ends it.
pub record Step (Time : Type 0) : Type 0 where
  pub effects : List (Effect Time)
  pub server : Server
  pub exception : Option Error

-- tags_to_new_gone: none is IndexError, on a tag that is empty.
abbrev pub sort_tag : Text → List Text → List Text → Option (List Text × List Text)
sort_tag [] new_tags gone_tags = none
sort_tag (c ∷ cs) new_tags gone_tags =
    if c == b'-'
    then some (new_tags, add_tag gone_tags cs)
    else some (add_tag new_tags (c ∷ cs), gone_tags)

unfoldable pub sort_tags : List Text → List Text → List Text → Option (List Text × List Text)
sort_tags [] new_tags gone_tags = some (new_tags, gone_tags)
sort_tags (tag ∷ rest) new_tags gone_tags = elim (sort_tag tag new_tags gone_tags) [
  | none ↦ none
  | some (new_tags', gone_tags') ↦ sort_tags rest new_tags' gone_tags'
]

unfoldable pub tags_to_new_gone : List Text → Option (List Text × List Text)
unfolding sort_tags
tags_to_new_gone tag_list = sort_tags tag_list [] []

abbrev pub label : Outcome → Text
label error = codes "error"
label failure = codes "failure"
label skip = codes "skip"
label success = codes "success"
label xfail = codes "xfail"
label uxsuccess = codes "uxsuccess"

abbrev pub is_sign : ℕ → Bool
is_sign c = c == b'+' || c == b'-'

abbrev pub style_of : Outcome → Style
style_of skip = skip_style
style_of success = success_style
style_of _ = no_style
