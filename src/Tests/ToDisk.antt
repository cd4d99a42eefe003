-- ===== src/Tests/ToDisk.antt =====
-- Paths for test ids.
use pysubunit.Prelude.{◌≡◌, refl, Bool, some, none, false, if◌then◌else◌, eq_bytes}
use pysubunit.Std.Format.{codes, decimal}
use pysubunit.Std.Words.{starts_with}
use pysubunit.V2.Types.{Text}
use pysubunit.ToDisk.{allocate_path, probe_loop, join_path, squash, candidate_of, is_inside}
use pysubunit.ToDisk.Paths.{allocate_path-endless}

-- A disk with `/r/a` on it and no links; `/r/..` is `/`, and `/r/../rs` is `/rs`.
abbrev realpath : Text → Text
realpath path =
    if eq_bytes path (codes "/r/..")
    then codes "/"
    else if eq_bytes path (codes "/r/../rs")
    then codes "/rs"
    else path

abbrev exists : Text → Bool
exists path = eq_bytes path (codes "/r/a")

allocated_beside :
    allocate_path realpath exists 2 2 (codes "/r") (codes "a") ≡ some (codes "/r/a-1")
unfolding allocate_path probe_loop join_path starts_with eq_bytes decimal
allocated_beside = refl

-- A name that only begins like the root is taken to be in it.
allocated_outside :
    allocate_path realpath exists 2 2 (codes "/r") (codes "../rs") ≡ some (codes "/rs")
unfolding allocate_path probe_loop join_path starts_with eq_bytes decimal
allocated_outside = refl

squash_parent : squash (codes "..") ≡ codes ".."
unfolding squash
squash_parent = refl

parent_outside :
    is_inside realpath exists (codes "/r") (candidate_of realpath exists (codes "/r") (codes ".."))
    ≡ false
unfolding join_path starts_with eq_bytes
parent_outside = refl

allocate_path-endless_example :
    allocate_path realpath exists 1000 9 (codes "/r") (codes "..") ≡ none
allocate_path-endless_example =
    allocate_path-endless realpath exists 1000 9 (codes "/r") (codes "..") squash_parent
      parent_outside
