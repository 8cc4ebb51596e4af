-- ===== src/Cookie/Tests.antt =====
-- Parsed cookie headers, and the theorems at concrete ones.
use anweb.Prelude.{◌≡◌, refl, List, [], ◌∷◌, codes}
use anweb.Cookie.RoundTrip.{print_cookies, parse_cookie-print_cookies}
use anweb.Cookie.{CookieOfRequest, parse_cookie, remove, cookie_header_value}

abbrev two_cookies : List CookieOfRequest
two_cookies =
    record { name = codes "a"; value = codes "1" }
    ∷ record { name = codes "b"; value = codes "x=y" }
    ∷ []

two_cookies_read : parse_cookie (codes "a=1; b=x=y;  ; =3") ≡ two_cookies
unfolding parse_cookie
two_cookies_read = refl

removed : cookie_header_value (λ t. t) (remove (codes "a")) ≡ codes "a=; Max-Age=0; HttpOnly"
unfolding cookie_header_value
removed = refl

parse_cookie-print_cookies_example :
    parse_cookie (print_cookies (record { name = codes "a"; value = codes "1" }) two_cookies)
    ≡ record { name = codes "a"; value = codes "1" } ∷ two_cookies
parse_cookie-print_cookies_example =
    parse_cookie-print_cookies (record { name = codes "a"; value = codes "1" }) two_cookies refl
