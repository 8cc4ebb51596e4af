-- ===== src/Exchange/Forms.antt =====
-- A form whose content comes in parts.
use anweb.Prelude.{
  ◌≡◌, refl, sym, ap, ◌∙◌, true, Option, none, some, List, [], ◌∷◌, ◌++◌, append_assoc, Bytes,
}
use anweb.Request.{RequestData, has_post_form}
use anweb.Query.{QueryNameValue, parse_query}
use anweb.Query.RoundTrip.{are_writable, print_query, parse_query-print_query}
use anweb.Exchange.{form, form_of, reads_content}

abbrev pub joined : List Bytes → Bytes
joined [] = []
joined (part ∷ parts) = part ++ joined parts

-- Parts without the request, and the last one with it.
abbrev pub in_parts : List Bytes → Bytes → RequestData → List (Bytes × Option RequestData)
in_parts [] last request = (last, some request) ∷ []
in_parts (part ∷ parts) last request = (part, none) ∷ in_parts parts last request

form_of-in_parts :
    (content : Bytes) (parts : List Bytes) (last : Bytes) (request : RequestData)
    → form_of content (in_parts parts last request)
      ≡ some (parse_query (content ++ (joined parts ++ last)))
unfolding form_of
form_of-in_parts content [] last request = refl
form_of-in_parts content (part ∷ parts) last request =
    form_of-in_parts (content ++ part) parts last request
    ∙ ap (λ b. some (parse_query b))
        (append_assoc content part (joined parts ++ last)
          ∙ ap (λ b. content ++ b) (sym (append_assoc part (joined parts) last)))

-- A request with a posted form is read and not refused; its content, fields written as "a=1&b=2" and
-- cut into parts anywhere, the last of which brings the request, is given to the callback as these
-- fields, if the names are not empty and have no `=` behind their first byte, and there is no `&` and
-- no `;` in a name or a value.
pub form-print_query :
    (request : RequestData) (parts : List Bytes) (last : Bytes) (fields : List QueryNameValue)
    → has_post_form request ≡ true
    → are_writable fields ≡ true
    → joined parts ++ last ≡ print_query fields
    → (form request ≡ reads_content) × (form_of [] (in_parts parts last request) ≡ some fields)
unfolding form
form-print_query request parts last fields posted writable cut = (
  rw (form, posted) refl,
  form_of-in_parts [] parts last request
      ∙ ap (λ b. some (parse_query b)) cut
      ∙ ap some (parse_query-print_query fields writable),
)
