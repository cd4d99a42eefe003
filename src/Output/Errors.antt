-- ===== src/Output/Errors.antt =====
-- When subunit-output fails on what its options have let through.
use pysubunit.Prelude.{
  ◌≡◌, ◌↔◌, ◌∙◌, refl, sym, ap, Bool, true, false, ◌&&◌, Option, none, some, if◌then◌else◌,
  eq_bytes,
}
use pysubunit.Std.Format.{codes}
use pysubunit.Std.Timedelta.{Timedelta}
use pysubunit.V2.Types.{Text, Bytes}
use pysubunit.V2.Writer.{truthy, present}
use pysubunit.Output.{
  Options, Args, Attachment, no_attachment, opened, left_as_text, Checked, checked, check_given,
  check_options, opened_as, of_stdin, attribute_error, calls_with, generate_stream_results,
}
use pysubunit.Output.Calls.{generate-calls}

-- The file to attach is `-`, and a name is given for it.
abbrev pub named_stdin : Option Text → Option Text → Bool
named_stdin none name = false
named_stdin (some path) name = eq_bytes path (codes "-") && present name

abbrev attachment_in : Checked → Attachment
attachment_in (checked args) = args.attachment
attachment_in _ = no_attachment

abbrev is_text : Attachment → Bool
is_text (left_as_text t) = true
is_text _ = false

raises-is_text :
    (args : Args) (now : Timedelta) (a : Attachment)
    → args.attachment ≡ a
    → generate_stream_results args now ≡ attribute_error
    → is_text a ≡ true
unfolding generate_stream_results
raises-is_text args now no_attachment e h = let went = ap (calls_with args now) (sym e) ∙ h in cc
raises-is_text args now (opened file) e h =
    let (hunks, went, _) = generate-calls args file now e in let both = sym went ∙ h in cc
raises-is_text args now (left_as_text t) e h = refl

is_text-raises :
    (args : Args) (now : Timedelta) (a : Attachment)
    → args.attachment ≡ a
    → is_text a ≡ true
    → generate_stream_results args now ≡ attribute_error
unfolding generate_stream_results
is_text-raises args now no_attachment e h = cc
is_text-raises args now (opened file) e h = cc
is_text-raises args now (left_as_text t) e h = ap (calls_with args now) e

module _ (open_file : Text → Option Bytes) (stdin : Bytes) (stdin_name : Text) (o : Options) where
  opened_as-is_text :
      (path : Text) (content : Option Bytes) (args : Args)
      → opened_as o path content ≡ checked args
      → is_text args.attachment ≡ false
  opened_as-is_text path none args h = cc
  opened_as-is_text path (some bs) args h = ap is_text (ap attachment_in (sym h))

  path-is_text :
      (path : Text) (name : Option Text) (b : Bool) (args : Args)
      → (if b then of_stdin o stdin stdin_name name else opened_as o path (open_file path))
        ≡ checked args
      → is_text args.attachment ≡ (b && present name)
  path-is_text path (some name) true args h = ap is_text (ap attachment_in (sym h))
  path-is_text path none true args h = ap is_text (ap attachment_in (sym h))
  path-is_text path name false args h = opened_as-is_text path (open_file path) args h

  check_given-is_text :
      (path name type : Option Text) (args : Args)
      → check_given open_file stdin stdin_name o path name type ≡ checked args
      → is_text args.attachment ≡ named_stdin path name
  check_given-is_text none name (some type) args h = cc
  check_given-is_text none (some name) none args h = cc
  check_given-is_text none none none args h = ap is_text (ap attachment_in (sym h))
  check_given-is_text (some path) name type args h =
      path-is_text path name (eq_bytes path (codes "-")) args h

  -- Options that pass the checks make generate_stream_results raise AttributeError if they attach `-`
  -- under a name of its own, and never otherwise: then the text `-` is not replaced by a stream.
  pub generate-attribute_error :
      (args : Args) (now : Timedelta)
      → check_options open_file stdin stdin_name o ≡ checked args
      → (generate_stream_results args now ≡ attribute_error)
        ↔ (named_stdin (truthy o.attach_file) (truthy o.file_name) ≡ true)
  unfolding check_options
  generate-attribute_error args now h =
      let same =
        check_given-is_text (truthy o.attach_file) (truthy o.file_name) (truthy o.mimetype) args
          h in
      (
        λ r. sym same ∙ raises-is_text args now args.attachment refl r,
        λ n. is_text-raises args now args.attachment refl (same ∙ n),
      )
