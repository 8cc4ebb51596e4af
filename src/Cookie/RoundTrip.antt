-- ===== src/Cookie/RoundTrip.antt =====
-- The cookies of a request's header, written as RFC 6265 asks and read back.
use anweb.Prelude.{
  ℕ, suc, ◌+◌, ◌≡◌, refl, sym, ap, ◌∙◌, arith, Bool, true, false, ◌&&◌, not, some, List, [], ◌∷◌,
  ◌++◌, map, ◌==◌, Bytes, append_assoc, append-nil, length, drop, take-append-length,
  drop-append-length, length-append, ltb,
}
use anweb.Cookie.{
  CookieOfRequest, split_pieces, position, is_assignment, cookie_of, cookies_of, parse_cookie,
}

abbrev pub no_byte : ℕ → Bytes → Bool
no_byte b [] = true
no_byte b (c ∷ cs) = not (c == b) && no_byte b cs

-- A name that is not empty, does not start with a space and holds no `=` and no `;`, and a value
-- without `;`.
abbrev pub is_cookie : Bytes → Bytes → Bool
is_cookie [] value = false
is_cookie (c ∷ cs) value =
    not (c == b' ') && (no_byte b'=' (c ∷ cs) && (no_byte b';' (c ∷ cs) && no_byte b';' value))

abbrev pub are_cookies : List CookieOfRequest → Bool
are_cookies [] = true
are_cookies (cookie ∷ rest) = is_cookie cookie.name cookie.value && are_cookies rest

abbrev pub print_cookie : CookieOfRequest → Bytes
print_cookie cookie = cookie.name ++ b'=' ∷ cookie.value

-- "a=1; b=2"
abbrev pub print_cookies : CookieOfRequest → List CookieOfRequest → Bytes
print_cookies cookie [] = print_cookie cookie
print_cookies cookie (next ∷ rest) = print_cookie cookie ++ b';' ∷ b' ' ∷ print_cookies next rest

abbrev spaced : CookieOfRequest → Bytes
spaced cookie = b' ' ∷ print_cookie cookie

split_pieces-plain :
    (piece text rest : Bytes)
    → no_byte b';' text ≡ true
    → split_pieces piece (text ++ rest) ≡ split_pieces (piece ++ text) rest
unfolding split_pieces
split_pieces-plain piece [] rest h =
    ap (λ (v : Bytes). split_pieces v rest) (sym (append-nil piece))
split_pieces-plain piece (c ∷ text) rest h =
    let ih = split_pieces-plain (piece ++ c ∷ []) text rest (ground arith) in
    let moved = ap (λ (v : Bytes). split_pieces v rest) (append_assoc piece (c ∷ []) text) in
    ground (arith, ih, moved)

no_byte-append :
    (b : ℕ) (xs ys : Bytes)
    → no_byte b xs ≡ true
    → no_byte b ys ≡ true
    → no_byte b (xs ++ ys) ≡ true
no_byte-append b [] ys h k = k
no_byte-append b (x ∷ xs) ys h k = ground (arith, no_byte-append b xs ys)

no_semicolon :
    (name value : Bytes) → is_cookie name value ≡ true → no_byte b';' (name ++ b'=' ∷ value) ≡ true
no_semicolon [] value h = ground arith
no_semicolon (c ∷ name) value h =
    no_byte-append b';' (c ∷ name) (b'=' ∷ value) (ground arith) (ground arith)

split_pieces-print_cookies :
    (lead : Bytes) (cookie : CookieOfRequest) (rest : List CookieOfRequest)
    → are_cookies (cookie ∷ rest) ≡ true
    → split_pieces lead (print_cookies cookie rest)
      ≡ (lead ++ print_cookie cookie) ∷ map spaced rest
unfolding split_pieces
split_pieces-print_cookies lead cookie [] h =
    ap (split_pieces lead) (sym (append-nil (print_cookie cookie)))
    ∙ split_pieces-plain lead (print_cookie cookie) []
        (no_semicolon cookie.name cookie.value (ground arith))
split_pieces-print_cookies lead cookie (next ∷ rest) h =
    split_pieces-plain lead (print_cookie cookie) (b';' ∷ b' ' ∷ print_cookies next rest)
      (no_semicolon cookie.name cookie.value (ground arith))
    ∙ ap (λ (v : List Bytes). (lead ++ print_cookie cookie) ∷ v)
        (split_pieces-print_cookies (b' ' ∷ []) next rest (ground arith))

position-is_assignment :
    (name value : Bytes)
    → no_byte b'=' name ≡ true
    → position is_assignment (name ++ b'=' ∷ value) ≡ some (length name)
unfolding position
position-is_assignment [] value h = refl
position-is_assignment (c ∷ name) value h =
    let later = position-is_assignment name value (ground arith) in
    let next : length name + 1 ≡ suc (length name) = omega arith in
    ground (arith, later, ap (λ (n : ℕ). some n) next)

drop_behind : (xs ys : Bytes) (b : ℕ) → drop (length xs + 1) (xs ++ b ∷ ys) ≡ ys
drop_behind xs ys b = rw (sym (append_assoc xs (b ∷ []) ys)) (
    drop-append-length (xs ++ b ∷ []) ys (length xs + 1) (omega (arith, length-append xs (b ∷ []))))

cookie_of_found :
    (name value : Bytes) (rest : List CookieOfRequest)
    → no_byte b'=' name ≡ true
    → ltb 0 (length name) ≡ true
    → cookie_of (name ++ b'=' ∷ value) rest ≡ record { name = name; value = value } ∷ rest
unfolding cookie_of
cookie_of_found name value rest h some_name = rw (
  cookie_of,
  position-is_assignment name value h,
  some_name,
  take-append-length name (b'=' ∷ value) (length name) refl,
  drop_behind name value b'=',
)

cookies_of_spaced :
    (name value : Bytes) (pieces : List Bytes)
    → is_cookie name value ≡ true
    → cookies_of ((b' ' ∷ (name ++ b'=' ∷ value)) ∷ pieces)
      ≡ record { name = name; value = value } ∷ cookies_of pieces
unfolding cookies_of position
cookies_of_spaced [] value pieces h = ground arith
cookies_of_spaced (c ∷ name) value pieces h =
    let read = cookie_of_found (c ∷ name) value (cookies_of pieces) (ground arith) (ground arith) in
    ground (arith, read)

cookies_of_first :
    (name value : Bytes) (pieces : List Bytes)
    → is_cookie name value ≡ true
    → cookies_of ((name ++ b'=' ∷ value) ∷ pieces)
      ≡ record { name = name; value = value } ∷ cookies_of pieces
unfolding cookies_of position
cookies_of_first [] value pieces h = ground arith
cookies_of_first (c ∷ name) value pieces h =
    let read = cookie_of_found (c ∷ name) value (cookies_of pieces) (ground arith) (ground arith) in
    ground (arith, read)

cookies_of_rest :
    (cookies : List CookieOfRequest)
    → are_cookies cookies ≡ true
    → cookies_of (map spaced cookies) ≡ cookies
unfolding cookies_of
cookies_of_rest [] h = refl
cookies_of_rest (cookie ∷ rest) h =
    cookies_of_spaced cookie.name cookie.value (map spaced rest) (ground arith)
    ∙ ap (λ (v : List CookieOfRequest). cookie ∷ v) (cookies_of_rest rest (ground arith))

-- Cookies written as "a=1; b=2" are read back in their order, if the names are not empty, do not
-- start with a space and hold no `=` and no `;`, and the values hold no `;`.
pub parse_cookie-print_cookies :
    (cookie : CookieOfRequest) (rest : List CookieOfRequest)
    → are_cookies (cookie ∷ rest) ≡ true
    → parse_cookie (print_cookies cookie rest) ≡ cookie ∷ rest
unfolding parse_cookie
parse_cookie-print_cookies cookie rest h =
    ap cookies_of (split_pieces-print_cookies [] cookie rest h)
    ∙ cookies_of_first cookie.name cookie.value (map spaced rest) (ground arith)
    ∙ ap (λ (v : List CookieOfRequest). cookie ∷ v) (cookies_of_rest rest (ground arith))
