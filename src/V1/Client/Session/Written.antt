-- ===== src/V1/Client/Session/Written.antt =====
-- The lines that the client writes for a session.
use pysubunit.Prelude.{
  ◌≡◌, refl, sym, ap, ◌∙◌, Bool, true, false, Option, none, some, List, [], ◌∷◌, ◌++◌, All,
  All-append, append_assoc, append-nil, arith,
}
use pysubunit.Std.Format.{codes}
use pysubunit.V2.Types.{Text, Bytes}
use pysubunit.Chunked.Encoder.{join}
use pysubunit.V1.Calls.{Outcome, error, failure, skip, success, xfail, uxsuccess, Details}
use pysubunit.V1.Client.{Output, put, ◌>>◌, sort_items, add_outcome, put_encoded, with_id}
use pysubunit.V1.Client
use pysubunit.V1.Client.Session.{
  Test, IsLineName, encoding, IsReportable, session, may_report, IsPlain, ArePlain,
}
use pysubunit.V1.Client.Session.Lines.{word_of, line_of, OneLine, IsLine, join-append_lines}
use pysubunit.V1.Client.Session.Contents.{
  all_lines, all_lines-IsLine, sort_items-All, write_items-lines, KeepsAscii,
}

-- The lines of a test.
abbrev pub outcome_lines : Bytes → Outcome → Option Details → List Bytes
outcome_lines x o none = line_of (word_of o ++ (x ++ [])) ∷ []
outcome_lines x o (some ds) =
    line_of (word_of o ++ (x ++ codes " [ multipart"))
    ∷ (all_lines (sort_items ds) ++ line_of (codes "]") ∷ [])

abbrev pub test_lines : Bytes → Outcome → Option Details → List Bytes
test_lines x o details = line_of (codes "test: " ++ x) ∷ outcome_lines x o details

word_of-OneLine : (o : Outcome) → OneLine (word_of o)
word_of-OneLine error = omega arith
word_of-OneLine failure = omega arith
word_of-OneLine skip = omega arith
word_of-OneLine success = omega arith
word_of-OneLine xfail = omega arith
word_of-OneLine uxsuccess = omega arith

named-IsLine :
    (w x more : Bytes) → OneLine w → OneLine x → OneLine more → IsLine (line_of (w ++ (x ++ more)))
named-IsLine w x more a b c =
    (w ++ (x ++ more), refl, All-append _ w (x ++ more) a (All-append _ x more b c))

outcome_lines-IsLine :
    (x : Bytes) (o : Outcome) (details : Option Details)
    → OneLine x
    → ArePlain details
    → All IsLine (outcome_lines x o details)
outcome_lines-IsLine x o none a p = (named-IsLine (word_of o) x [] (word_of-OneLine o) a tt, tt)
outcome_lines-IsLine x o (some ds) a p = (
  named-IsLine (word_of o) x (codes " [ multipart") (word_of-OneLine o) a (omega arith),
  All-append IsLine (all_lines (sort_items ds)) (line_of (codes "]") ∷ [])
      (all_lines-IsLine (sort_items ds) (sort_items-All IsPlain ds p))
      ((codes "]", refl, omega arith), tt),
)

-- Three pieces of a multipart outcome, as the client writes them and line by line.
multipart_bytes :
    (w x items : Bytes)
    → (w ++ (x ++ [])) ++ (codes " [ multipart\n" ++ (items ++ codes "]\n"))
      ≡ line_of (w ++ (x ++ codes " [ multipart")) ++ (items ++ codes "]\n")
multipart_bytes w x items = simp (append_assoc, append-nil)

module _ {Err : Type 0} (latin : Text → Option Bytes) (traceback : Err → Text → List Bytes)
    (keeps : KeepsAscii latin) (id : Text) (n : IsLineName id) where
  start_test-line : Client.start_test id ≡ put (line_of (codes "test: " ++ encoding n))
  unfolding Client.start_test with_id
  start_test-line = rw n.encoded

  add_outcome-plain :
      (w : Text)
      → add_outcome latin traceback w id none none false
        ≡ put (((w ++ codes ": ") ++ (encoding n ++ [])) ++ 10 ∷ [])
  unfolding add_outcome with_id ◌>>◌
  add_outcome-plain w = rw n.encoded

  write_details-lines :
      (ds : Details)
      → All IsPlain ds
      → Client.write_details latin traceback ds >> put (codes "]\n")
        ≡ put (codes " [ multipart\n" ++ (join (all_lines (sort_items ds)) ++ codes "]\n"))
  unfolding Client.write_details ◌>>◌
  write_details-lines ds a =
      rw (write_items-lines latin traceback keeps (sort_items ds) (sort_items-All IsPlain ds a))
        refl

  add_outcome-multipart :
      (w : Text) (permitted : Bool) (ds : Details)
      → All IsPlain ds
      → add_outcome latin traceback w id none (some ds) permitted
        ≡ put (
            line_of ((w ++ codes ": ") ++ (encoding n ++ codes " [ multipart"))
            ++ (join (all_lines (sort_items ds)) ++ codes "]\n"))
  unfolding add_outcome with_id ◌>>◌
  add_outcome-multipart w true ds a =
      rw (n.encoded, write_details-lines ds a)
        (ap put (multipart_bytes (w ++ codes ": ") (encoding n) (join (all_lines (sort_items ds)))))
  add_outcome-multipart w false ds a =
      rw (n.encoded, write_details-lines ds a)
        (ap put (multipart_bytes (w ++ codes ": ") (encoding n) (join (all_lines (sort_items ds)))))

  add-plain :
      (o : Outcome) (w : Text)
      → w ++ codes ": " ≡ word_of o
      → add_outcome latin traceback w id none none false
        ≡ put (join (outcome_lines (encoding n) o none))
  unfolding join
  add-plain o w e =
      add_outcome-plain w
      ∙ ap (λ v. put ((v ++ (encoding n ++ [])) ++ 10 ∷ [])) e
      ∙ ap put (sym (append-nil (line_of (word_of o ++ (encoding n ++ [])))))

  add-multipart :
      (o : Outcome) (w : Text) (permitted : Bool) (ds : Details)
      → All IsPlain ds
      → w ++ codes ": " ≡ word_of o
      → add_outcome latin traceback w id none (some ds) permitted
        ≡ put (join (outcome_lines (encoding n) o (some ds)))
  unfolding join
  add-multipart o w permitted ds a e =
      let lines = all_lines (sort_items ds) in
      add_outcome-multipart w permitted ds a
      ∙ ap
          (λ v.
            put
              (line_of (v ++ (encoding n ++ codes " [ multipart")) ++ (join lines ++ codes "]\n")))
          e
      ∙ ap (λ bs. put (line_of (word_of o ++ (encoding n ++ codes " [ multipart")) ++ bs))
          (sym (join-append_lines lines (line_of (codes "]") ∷ [])))

  add-lines :
      (o : Outcome) (details : Option Details)
      → may_report o details ≡ true
      → ArePlain details
      → Client.add latin traceback o id none details
        ≡ put (join (outcome_lines (encoding n) o details))
  unfolding Client.add
  add-lines error (some ds) h a = add-multipart error (codes "error") true ds a refl
  add-lines failure (some ds) h a = add-multipart failure (codes "failure") true ds a refl
  add-lines skip (some ds) h a = add-multipart skip (codes "skip") true ds a refl
  add-lines success (some ds) h a = add-multipart success (codes "successful") false ds a refl
  add-lines xfail (some ds) h a = add-multipart xfail (codes "xfail") true ds a refl
  add-lines uxsuccess (some ds) h a = add-multipart uxsuccess (codes "uxsuccess") false ds a refl
  add-lines success none h a = add-plain success (codes "successful") refl
  add-lines uxsuccess none h a = add-plain uxsuccess (codes "uxsuccess") refl
  add-lines error none h a = cc
  add-lines failure none h a = cc
  add-lines skip none h a = cc
  add-lines xfail none h a = cc

abbrev pub session_lines : (ts : List Test) → All IsReportable ts → List Bytes
session_lines [] a = []
session_lines (t ∷ ts) (n, a) =
    test_lines (encoding n.named) t.outcome t.details ++ session_lines ts a

pub session_lines-IsLine :
    (ts : List Test) (a : All IsReportable ts) → All IsLine (session_lines ts a)
session_lines-IsLine [] a = tt
session_lines-IsLine (t ∷ ts) (n, a) =
    let x = encoding n.named in
    All-append IsLine (test_lines x t.outcome t.details) (session_lines ts a)
      (
        (codes "test: " ++ x, refl, All-append _ (codes "test: ") x (omega arith) n.named.one_line),
        outcome_lines-IsLine x t.outcome t.details n.named.one_line n.plain,
      )
      (session_lines-IsLine ts a)

module _ {Err : Type 0} (latin : Text → Option Bytes) (traceback : Err → Text → List Bytes)
    (keeps : KeepsAscii latin) where
  pub session-lines :
      (ts : List Test) (a : All IsReportable ts)
      → session latin traceback ts ≡ put (join (session_lines ts a))
  unfolding session join ◌>>◌
  session-lines [] a = refl
  session-lines (t ∷ ts) (n, a) =
      let x = encoding n.named in
      rw
        (
          start_test-line latin traceback keeps t.id n.named,
          add-lines latin traceback keeps t.id n.named t.outcome t.details n.allowed n.plain,
          session-lines ts a,
        )
        (ap (λ bs. put (line_of (codes "test: " ++ x) ++ bs))
          (sym (join-append_lines (outcome_lines x t.outcome t.details) (session_lines ts a))))
