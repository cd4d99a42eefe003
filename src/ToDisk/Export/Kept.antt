-- ===== src/ToDisk/Export/Kept.antt =====
-- What an export leaves as it was, and what it writes.
use pysubunit.Prelude.{
  ℕ, zero, suc, ◌+◌, ◌≡◌, ◌≢◌, refl, sym, subst, ◌∙◌, Bool, true, false, not, Option, none, some,
  List, [], ◌∷◌, All, if◌then◌else◌,
}
use pysubunit.Std.Format.{codes}
use pysubunit.Std.Utf8
use pysubunit.V2.Types.{Text, Bytes}
use pysubunit.Chunked.Encoder.{join}
use pysubunit.ToDisk.{
  suffixed, probe_loop, candidate_of, is_inside, allocate_path, join_path, squash,
}
use pysubunit.ToDisk.Disk.{Disk, IsDisk, Made, made, already_there, refused}
use pysubunit.ToDisk.Export.{
  Outcome, TestDict, Export, exported, os_error, unicode_encode_error, out_of_fuel, and_then, saved,
  encode_failed, made_dirs, at_path, allocate, write_path, export_details, export_summary,
  export_at, export, print_summary,
}

module _ (realpath : Text → Text) (exists : Text → Bool) where
  -- A path of realpath, or such a path with a suffix, at which there is nothing.
  pub data IsAllocated (path : Text) : Type 0 where
    real : (sub : Text) → path ≡ realpath sub → exists path ≡ false → IsAllocated path
    with_suffix :
        (sub : Text) (attempt : ℕ)
        → path ≡ suffixed (realpath sub) attempt
        → exists path ≡ false
        → IsAllocated path

  probe_loop-IsAllocated :
      (fuel attempt : ℕ) (sub probe path : Text)
      → (exists probe ≡ false → IsAllocated probe)
      → probe_loop realpath exists fuel attempt (realpath sub) probe ≡ some path
      → IsAllocated path
  unfolding probe_loop
  probe_loop-IsAllocated zero attempt sub probe path f e = cc
  probe_loop-IsAllocated (suc fuel) attempt sub probe path f e =
      elim (exists probe)
          as (λ b.
            (exists probe ≡ b)
            → (if b
                then probe_loop realpath exists fuel (attempt + 1) (realpath sub)
                    (suffixed (realpath sub) (attempt + 1))
                else some probe)
              ≡ some path
            → IsAllocated path) [
              | true ↦ λ h k.
                  probe_loop-IsAllocated fuel (attempt + 1) sub
                    (suffixed (realpath sub) (attempt + 1)) path
                    (with_suffix sub (attempt + 1) refl) k
              | false ↦ λ h k. let same : probe ≡ path = cc in subst IsAllocated same (f h)
            ]
        refl e

  allocate_path-IsAllocated :
      (fuel probes : ℕ) (root sub path : Text)
      → allocate_path realpath exists fuel probes root sub ≡ some path
      → IsAllocated path
  unfolding allocate_path
  allocate_path-IsAllocated zero probes root sub path e = cc
  allocate_path-IsAllocated (suc fuel) probes root sub path e =
      elim (is_inside realpath exists root (candidate_of realpath exists root sub))
          as (λ b.
            (if not b
                then allocate_path realpath exists fuel probes root (squash sub)
                else probe_loop realpath exists probes 0 (realpath (join_path root sub))
                    (realpath (join_path root sub)))
              ≡ some path
            → IsAllocated path) [
              | false ↦ λ k. allocate_path-IsAllocated fuel probes root (squash sub) path k
              | true ↦ λ k.
                  probe_loop-IsAllocated probes 0 (join_path root sub) _ path
                    (real (join_path root sub) refl) k
            ]
        e

module _ {State : Type 0} (disk : Disk State) (laws : IsDisk disk) (fuel probes : ℕ) where
  -- Every file of `d` is in `e` with its content.
  abbrev pub Keeps : State → State → Type 0
  Keeps d e =
      (path : Text) (bytes : Bytes) → laws.read d path ≡ some bytes → laws.read e path ≡ some bytes

  -- A file of `e` that was not in `d`.
  abbrev pub IsNewFile : State → State → List Bytes → Type 0
  IsNewFile d e chunks =
      (path : Text) × (laws.read d path ≡ none) × (laws.read e path ≡ some (join chunks))

  beside :
      (d : State) (path : Text)
      → IsAllocated (disk.realpath d) (disk.exists d) path
      → disk.exists (disk.makedirs d (disk.dirname path)).0 path ≡ false
  beside d path (real sub e h) =
      subst (λ p. disk.exists (disk.makedirs d (disk.dirname p)).0 p ≡ false) (sym e)
        (laws.makedirs_beside d sub (subst (λ p. disk.exists d p ≡ false) e h))
  beside d path (with_suffix sub n e h) =
      subst (λ p. disk.exists (disk.makedirs d (disk.dirname p)).0 p ≡ false) (sym e)
        (laws.makedirs_beside_suffixed d sub n (subst (λ p. disk.exists d p ≡ false) e h))

  -- A part of the export keeps the files, and has made `P` if there was no exception.
  abbrev Makes : State → (State → Type 0) → Export State → Type 0
  Makes d P e = Keeps d e.disk × (e.outcome ≡ exported → P e.disk)

  abbrev Writes : State → List Bytes → Export State → Type 0
  Writes d chunks e = Makes d (λ f. IsNewFile d f chunks) e

  -- One part and then another.
  abbrev Both : State → (State → Type 0) → (State → State → Type 0) → State → Type 0
  Both d P Q f = (e : State) × P e × Keeps d e × Keeps e f × Q e f

  and_then-Makes :
      (d : State) (P : State → Type 0) (Q : State → State → Type 0) (first : Export State)
      (next : State → Export State)
      → Makes d P first
      → ((e : State) → Makes e (Q e) (next e))
      → Makes d (Both d P Q) (and_then first next)
  and_then-Makes d P Q first next (k, p) f = by_outcome first.outcome refl
    where
      stops : (o : Outcome) → first.outcome ≡ o → o ≢ exported → Makes d (Both d P Q) first
      stops o e n = (k, λ x. absurd (n (sym e ∙ x)))

      by_outcome :
          (o : Outcome)
          → first.outcome ≡ o
          → Makes d (Both d P Q) (elim o [
            | exported ↦ next first.disk
            | os_error ↦ first
            | unicode_encode_error ↦ first
            | out_of_fuel ↦ first
          ])
      by_outcome exported e =
          let (l, q) = f first.disk in
          (λ path bytes r. l path bytes (k path bytes r), λ x. (first.disk, p e, k, l, q x))
      by_outcome os_error e = stops os_error e (λ h. cc)
      by_outcome unicode_encode_error e = stops unicode_encode_error e (λ h. cc)
      by_outcome out_of_fuel e = stops out_of_fuel e (λ h. cc)

  save-Writes :
      (d : State) (path : Text) (chunks : List Bytes)
      → disk.exists d path ≡ false
      → Writes d chunks (saved (disk.save d path chunks))
  save-Writes d path chunks h = by_result (disk.save d path chunks).1 refl
    where
      by_result :
          (b : Bool)
          → (disk.save d path chunks).1 ≡ b
          → Writes d chunks (saved ((disk.save d path chunks).0, b))
      by_result true e = (
        λ q bytes r. laws.save_keeps d path q chunks bytes h r,
        λ x. (path, laws.read_none d path h, laws.save_holds d path chunks e),
      )
      by_result false e = (λ q bytes r. laws.save_keeps d path q chunks bytes h r, λ x. cc)

  -- A file that was made since is new.
  new_since :
      (d e f : State) (chunks : List Bytes)
      → Keeps d e
      → IsNewFile e f chunks
      → IsNewFile d f chunks
  new_since d e f chunks k (path, none_there, there) =
      (path, by_content (laws.read d path) refl, there)
    where
      by_content : (o : Option Bytes) → laws.read d path ≡ o → laws.read d path ≡ none
      by_content none h = h
      by_content (some bytes) h = absurd (differ (sym none_there ∙ k path bytes h))
        where
          differ : {b : Bytes} → none ≡ some b → ⊥
          differ h = cc

  made_dirs-Writes :
      (d : State) (path : Text) (chunks : List Bytes)
      → disk.exists (disk.makedirs d (disk.dirname path)).0 path ≡ false
      → Writes d chunks
          (made_dirs disk fuel probes path chunks (disk.makedirs d (disk.dirname path)))
  made_dirs-Writes d path chunks h = by_result (disk.makedirs d (disk.dirname path)).1
    where
      dirs : State
      dirs = (disk.makedirs d (disk.dirname path)).0

      keeps : Keeps d dirs
      keeps q bytes r = laws.makedirs_keeps d (disk.dirname path) q bytes r

      there : Writes d chunks (saved (disk.save dirs path chunks))
      there =
          let (k, n) = save-Writes dirs path chunks h in
          (λ q bytes r. k q bytes (keeps q bytes r), λ x. new_since d dirs _ chunks keeps (n x))

      by_result : (m : Made) → Writes d chunks (made_dirs disk fuel probes path chunks (dirs, m))
      by_result made = there
      by_result already_there = there
      by_result refused = (keeps, λ x. cc)

  write_path-Writes :
      (d : State) (root sub : Text) (chunks : List Bytes)
      → Writes d chunks (write_path disk fuel probes d root sub chunks)
  unfolding write_path
  write_path-Writes d root sub chunks = by_path (allocate disk fuel probes d root sub) refl
    where
      by_path :
          (o : Option Text)
          → allocate disk fuel probes d root sub ≡ o
          → Writes d chunks (at_path disk fuel probes d chunks o)
      by_path none e = (λ q bytes r. r, λ x. cc)
      by_path (some path) e = made_dirs-Writes d path chunks (
          beside d path (
            allocate_path-IsAllocated (disk.realpath d) (disk.exists d) fuel probes root sub path
              e))

  -- New files stay.
  still_new :
      (d e f : State) (chunks : List Bytes)
      → Keeps e f
      → IsNewFile d e chunks
      → IsNewFile d f chunks
  still_new d e f chunks k (path, none_there, there) =
      (path, none_there, k path (join chunks) there)

  -- The files of several contents.
  abbrev pub AllNewFiles : State → State → List (Text × List Bytes) → Type 0
  AllNewFiles d e details = All (λ item. IsNewFile d e item.1) details

  all_new_since :
      (d e f : State) (details : List (Text × List Bytes))
      → Keeps d e
      → AllNewFiles e f details
      → AllNewFiles d f details
  all_new_since d e f [] k a = tt
  all_new_since d e f (item ∷ details) k (n, a) =
      (new_since d e f item.1 k n, all_new_since d e f details k a)

  export_details-Makes :
      (root : Text) (details : List (Text × List Bytes)) (d : State)
      → Makes d (λ f. AllNewFiles d f details) (export_details disk fuel probes root details d)
  unfolding export_details
  export_details-Makes root [] d = (λ q bytes r. r, λ x. tt)
  export_details-Makes root ((name, chunks) ∷ details) d =
      let (k, p) =
        and_then-Makes d (λ e. IsNewFile d e chunks) (λ e f. AllNewFiles e f details)
          (write_path disk fuel probes d root name chunks)
          (export_details disk fuel probes root details) (write_path-Writes d root name chunks)
          (λ e. export_details-Makes root details e) in
      (k, λ x. both (p x))
    where
      both :
          {f : State}
          → Both d (λ e. IsNewFile d e chunks) (λ e f. AllNewFiles e f details) f
          → AllNewFiles d f ((name, chunks) ∷ details)
      both (e, n, k, l, a) = (still_new d e _ chunks l n, all_new_since d e _ details k a)

  export_summary-Makes :
      (d : State) (root : Text) (summary : Option Bytes)
      → Makes d
          (λ e. (bytes : Bytes) × (summary ≡ some bytes) × IsNewFile d e (bytes ∷ []))
          (export_summary disk fuel probes d root summary)
  export_summary-Makes d root none =
      let (k, p) =
        and_then-Makes d (λ e. IsNewFile d e []) (λ e f. ⊥)
          (write_path disk fuel probes d root (codes "test.json") []) encode_failed
          (write_path-Writes d root (codes "test.json") []) (λ e. (λ q bytes r. r, λ x. cc)) in
      (k, λ x. absurd (p x).4)
  export_summary-Makes d root (some bytes) =
      let (k, n) = write_path-Writes d root (codes "test.json") (bytes ∷ []) in
      (k, λ x. (bytes, refl, n x))

  -- The summary and all contents.
  abbrev pub Exported : State → Option Bytes → List (Text × List Bytes) → State → Type 0
  Exported d summary details f =
      ((bytes : Bytes) × (summary ≡ some bytes) × IsNewFile d f (bytes ∷ []))
      × AllNewFiles d f details

  export_at-Makes :
      (d : State) (summary : Option Bytes) (details : List (Text × List Bytes)) (root : Option Text)
      → Makes d (Exported d summary details) (export_at disk fuel probes d summary details root)
  export_at-Makes d summary details none = (λ q bytes r. r, λ x. cc)
  export_at-Makes d summary details (some root) =
      let (k, p) =
        and_then-Makes d
          (λ e. (bytes : Bytes) × (summary ≡ some bytes) × IsNewFile d e (bytes ∷ []))
          (λ e f. AllNewFiles e f details) (export_summary disk fuel probes d root summary)
          (export_details disk fuel probes root details) (export_summary-Makes d root summary)
          (λ e. export_details-Makes root details e) in
      (k, λ x. all (p x))
    where
      all :
          {f : State}
          → Both d
              (λ e. (bytes : Bytes) × (summary ≡ some bytes) × IsNewFile d e (bytes ∷ []))
              (λ e f. AllNewFiles e f details)
              f
          → Exported d summary details f
      all (e, (bytes, h, n), k, l, a) =
          ((bytes, h, still_new d e _ (bytes ∷ []) l n), all_new_since d e _ details k a)

  -- An export, however it ends, leaves each file that is on the disk as it is.
  pub export-read :
      {Time : Type 0} (str_time : Time → Text) (d : State) (directory : Text) (test : TestDict Time)
      (path : Text) (bytes : Bytes)
      → laws.read d path ≡ some bytes
      → laws.read (export disk fuel probes str_time d directory test).disk path ≡ some bytes
  unfolding export
  export-read str_time d directory test path bytes h =
      (export_at-Makes d (Utf8.encode (print_summary str_time test)) test.details
          (allocate disk fuel probes d (disk.realpath d directory) test.id)).0
        path bytes h

  -- An export without an exception has written, each to a file that was not there, the summary in
  -- UTF-8 and the bytes of each content.
  pub export-Exported :
      {Time : Type 0} (str_time : Time → Text) (d : State) (directory : Text) (test : TestDict Time)
      → (export disk fuel probes str_time d directory test).outcome ≡ exported
      → Exported d
          (Utf8.encode (print_summary str_time test))
          test.details
          (export disk fuel probes str_time d directory test).disk
  unfolding export
  export-Exported str_time d directory test h =
      (export_at-Makes d (Utf8.encode (print_summary str_time test)) test.details
          (allocate disk fuel probes d (disk.realpath d directory) test.id)).1
        h
