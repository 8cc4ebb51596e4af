-- ===== src/Request/Tests.antt =====
-- Accessors at a request with a form.
use anweb.Prelude.{◌≡◌, refl, true, none, some, [], ◌∷◌, codes}
use anweb.Text.{is_utf8}
use anweb.Request.{
  RequestData, new_request, method, raw_path, header_value, content_len_or_zero, has_post_form,
}

abbrev form_request : RequestData
form_request = record new_request {
  raw = codes "POST /a HTTP/1.1\r\n\r\n";
  method_end_index = 4;
  path_indices = (5, 7);
  headers =
      record { name = codes "Content-Type"; value = codes "application/x-www-form-urlencoded" }
      ∷ [];
  content_len = some 12;
}

method_read : method form_request ≡ codes "POST"
unfolding method is_utf8
method_read = refl

path_read : raw_path form_request ≡ codes "/a"
unfolding raw_path
path_read = refl

missing_header : header_value form_request (codes "Cookie") ≡ none
unfolding header_value
missing_header = refl

form_found : has_post_form form_request ≡ true
unfolding has_post_form
form_found = refl

length_read : content_len_or_zero form_request ≡ 12
unfolding content_len_or_zero
length_read = refl
