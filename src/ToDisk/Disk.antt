-- ===== src/ToDisk/Disk.antt =====
-- What pysubunit/_to_disk.py uses of a disk.
use pysubunit.Prelude.{◌≡◌, Bool, true, false, Option, none, some, List, ℕ}
use pysubunit.V2.Types.{Text, Bytes}
use pysubunit.Chunked.Encoder.{join}
use pysubunit.ToDisk.{suffixed}

-- os.makedirs: directories are made, or the path is there (EEXIST), or another OSError.
pub data Made : Type 0 where
  made already_there refused : Made

-- os.path.realpath, os.path.exists and os.makedirs. `dirname` is os.path.dirname. `save` opens a path
-- for writing, writes the chunks and closes it: false for an exception.
pub record Disk (State : Type 0) : Type 0 where
  pub realpath : State → Text → Text
  pub exists : State → Text → Bool
  pub dirname : Text → Text
  pub makedirs : State → Text → State × Made
  pub save : State → Text → List Bytes → State × Bool

-- What they are relied on for. `read` is the content of a file. A path that realpath gives, or such a
-- path with a suffix, is not made by making its parents.
pub record IsDisk {State : Type 0} (disk : Disk State) : Type 0 where
  pub read : State → Text → Option Bytes
  pub read_none : (d : State) (path : Text) → disk.exists d path ≡ false → read d path ≡ none
  pub makedirs_keeps :
      (d : State) (dir path : Text) (bytes : Bytes)
      → read d path ≡ some bytes
      → read (disk.makedirs d dir).0 path ≡ some bytes
  pub makedirs_beside :
      (d : State) (sub : Text)
      → disk.exists d (disk.realpath d sub) ≡ false
      → disk.exists (disk.makedirs d (disk.dirname (disk.realpath d sub))).0 (disk.realpath d sub)
        ≡ false
  pub makedirs_beside_suffixed :
      (d : State) (sub : Text) (attempt : ℕ)
      → disk.exists d (suffixed (disk.realpath d sub) attempt) ≡ false
      → disk.exists
          (disk.makedirs d (disk.dirname (suffixed (disk.realpath d sub) attempt))).0
          (suffixed (disk.realpath d sub) attempt)
        ≡ false
  pub save_keeps :
      (d : State) (new path : Text) (chunks : List Bytes) (bytes : Bytes)
      → disk.exists d new ≡ false
      → read d path ≡ some bytes
      → read (disk.save d new chunks).0 path ≡ some bytes
  pub save_holds :
      (d : State) (new : Text) (chunks : List Bytes)
      → (disk.save d new chunks).1 ≡ true
      → read (disk.save d new chunks).0 new ≡ some (join chunks)
