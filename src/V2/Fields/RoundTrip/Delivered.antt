-- ===== src/V2/Fields/RoundTrip/Delivered.antt =====
-- A call that was read can be sent again.
use pysubunit.Prelude.{◌≡◌, refl, ap, ◌∙◌, Option, none, some, List, [], ◌∷◌, All}
use pysubunit.V2.Types.{Text, Bytes, StatusEvent, add_tag}
use pysubunit.V2.Writer.{truthy}
use pysubunit.V2.Fields.Reads.{NoNul}
use pysubunit.V2.Fields.Parts.{collect}
use pysubunit.V2.Fields.RoundTrip.{
  Given, IsSendable, delivered, truthy-Given, as_set, file_of, name_of, content_of,
}
use pysubunit.Results.Tags.Members.{add_tag-All}

collect-NoNul :
    (held tags : List Text) → All NoNul held → All NoNul tags → All NoNul (collect held tags)
unfolding collect
collect-NoNul held [] a b = a
collect-NoNul held (t ∷ ts) a (p, b) =
    collect-NoNul (add_tag held t) ts (add_tag-All NoNul held t a p) b

as_set-Given :
    (o : Option (List Text)) → Given (All NoNul) o → Given (All NoNul) (as_set (truthy o))
as_set-Given none g = tt
as_set-Given (some []) g = tt
as_set-Given (some (t ∷ ts)) g = collect-NoNul [] (t ∷ ts) tt g

name_of-Given :
    (name : Option Text) (content : Option Bytes)
    → Given NoNul name
    → Given NoNul (name_of (file_of name content))
name_of-Given none content g = tt
name_of-Given (some t) none g = tt
name_of-Given (some t) (some bs) g = g

pub delivered-IsSendable : (s : StatusEvent) → IsSendable s → IsSendable (delivered s)
unfolding delivered
delivered-IsSendable s n = record {
  test_id = n.test_id;
  tags = as_set-Given s.test_tags n.tags;
  mime_type = truthy-Given s.mime_type n.mime_type;
  file_name = name_of-Given s.file_name s.file_bytes n.file_name;
  route_code = n.route_code;
  timestamp = n.timestamp;
}

truthy_again : (o : Option Text) → truthy (truthy o) ≡ truthy o
truthy_again none = refl
truthy_again (some []) = refl
truthy_again (some (c ∷ cs)) = refl

file_again : (f : Option (Text × Bytes)) → file_of (name_of f) (content_of f) ≡ f
file_again none = refl
file_again (some (name, content)) = refl

-- A call that was delivered arrives as it is, but for its tags.
pub delivered_again :
    (s : StatusEvent) (tags : Option (List Text))
    → delivered (record (delivered s) { test_tags = tags })
      ≡ record (delivered s) { test_tags = as_set (truthy tags) }
unfolding delivered
delivered_again s tags =
    let arrived : Option (Text × Bytes) = file_of s.file_name s.file_bytes in
    ap
      (λ mime_type. record (delivered s) {
        test_tags = as_set (truthy tags);
        mime_type = mime_type;
        file_name = name_of (file_of (name_of arrived) (content_of arrived));
        file_bytes = content_of (file_of (name_of arrived) (content_of arrived));
      })
      (truthy_again s.mime_type)
    ∙ ap
        (λ f. record (delivered s) {
          test_tags = as_set (truthy tags);
          file_name = name_of f;
          file_bytes = content_of f;
        })
        (file_again arrived)
