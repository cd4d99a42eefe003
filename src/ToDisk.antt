-- ===== src/ToDisk.antt =====
-- pysubunit/_to_disk.py: _allocate_path. `realpath` and `exists` are those of os.path on the disk.
pub mod Paths
pub mod Disk
pub mod Export
use pysubunit.Prelude.{
  ℕ, zero, suc, ◌+◌, ◌-◌, Bool, true, false, not, ◌||◌, ◌==◌, if◌then◌else◌, Option, none, some,
  List, [], ◌∷◌, ◌++◌, map, length, drop, eq_bytes,
}
use pysubunit.Std.Format.{codes, decimal}
use pysubunit.Std.Words.{starts_with}
use pysubunit.V2.Types.{Text}

abbrev ends_with_slash : Text → Bool
ends_with_slash t = eq_bytes (drop (length t - 1) t) (codes "/")

-- os.path.join on Posix.
unfoldable pub join_path : Text → Text → Text
join_path root sub =
    if starts_with (codes "/") sub
    then sub
    else if eq_bytes root [] || ends_with_slash root
    then root ++ sub
    else root ++ (codes "/" ++ sub)

-- sub.replace('/', '_').replace('\\', '_')
abbrev squash_char : ℕ → ℕ
squash_char c = if c == b'/' || c == 0x5c then b'_' else c

unfoldable pub squash : Text → Text
squash sub = map squash_char sub

-- '%s-%s' % (candidate, attempt)
abbrev pub suffixed : Text → ℕ → Text
suffixed candidate attempt = candidate ++ (codes "-" ++ decimal attempt)

module _ (realpath : Text → Text) (exists : Text → Bool) where
  -- `while os.path.exists(probe)`. None: out of fuel.
  unfoldable pub probe_loop : ℕ → ℕ → Text → Text → Option Text
  probe_loop zero attempt candidate probe = none
  probe_loop (suc fuel) attempt candidate probe =
      let more = probe_loop fuel (attempt + 1) candidate (suffixed candidate (attempt + 1)) in
      if exists probe then more else some probe

  abbrev pub candidate_of : Text → Text → Text
  candidate_of root sub = realpath (join_path root sub)

  abbrev pub is_inside : Text → Text → Bool
  is_inside root path = starts_with (realpath root) path

  -- _allocate_path, with fuel for its calls of itself and for the probes.
  unfoldable pub allocate_path : ℕ → ℕ → Text → Text → Option Text
  allocate_path zero probes root sub = none
  allocate_path (suc fuel) probes root sub =
      let again = allocate_path fuel probes root (squash sub) in
      let candidate = candidate_of root sub in
      if not (is_inside root candidate) then again else probe_loop probes 0 candidate candidate
