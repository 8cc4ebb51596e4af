-- ===== src/Cookie.antt =====
-- src/cookie.rs: `Cookie`, its header, and `parse_cookie`. The quoted form of a text (`{:?}`) and the
-- digits of a number are parameters.
mod RoundTrip
mod Tests
use anweb.Prelude.{
  ℕ, suc, ◌+◌, Bool, true, false, Option, none, some, List, [], ◌∷◌, ◌++◌, ltb, ◌==◌, if◌then◌else◌,
  take, drop, codes, Bytes,
}

-- `max_age` is the text of the number of seconds.
pub record Cookie : Type 0 where
  pub name : Bytes
  pub value : Bytes
  pub path : Option Bytes
  pub domain : Option Bytes
  pub expires : Option Bytes
  pub max_age : Option Bytes
  pub http_only : Bool
  pub secure : Bool

-- `Cookie::remove`
abbrev pub remove : Bytes → Cookie
remove name = record {
  name = name;
  value = [];
  path = none;
  domain = none;
  expires = none;
  max_age = some (codes "0");
  http_only = true;
  secure = false;
}

abbrev pub flag : Bool → Bytes → Bytes
flag on text = if on then text else []

module _ (quoted : Bytes → Bytes) where
  abbrev pub cookie_path_str : Option Bytes → Bytes
  cookie_path_str none = []
  cookie_path_str (some path) = codes "; Path=" ++ quoted path

  abbrev pub cookie_domain_str : Option Bytes → Bytes
  cookie_domain_str none = []
  cookie_domain_str (some domain) = codes "; Domain=" ++ quoted domain

  abbrev pub cookie_expires_str : Option Bytes → Bytes
  cookie_expires_str none = []
  cookie_expires_str (some expires) = codes "; Expires=" ++ quoted expires

  abbrev pub cookie_max_age_str : Option Bytes → Bytes
  cookie_max_age_str none = []
  cookie_max_age_str (some max_age) = codes "; Max-Age=" ++ max_age

  -- `Cookie::header_value`
  unfoldable pub cookie_header_value : Cookie → Bytes
  cookie_header_value c =
      c.name
      ++ (codes "="
          ++ (c.value
              ++ (cookie_path_str c.path
                  ++ (cookie_domain_str c.domain
                      ++ (cookie_expires_str c.expires
                          ++ (cookie_max_age_str c.max_age
                              ++ (flag c.secure (codes "; Secure")
                                  ++ flag c.http_only (codes "; HttpOnly"))))))))

-- A cookie that a client sends.
pub record CookieOfRequest : Type 0 where
  pub name : Bytes
  pub value : Bytes

-- `split(|ch| ch == ';')`, behind the bytes of the present piece.
unfoldable pub split_pieces : Bytes → Bytes → List Bytes
split_pieces piece [] = piece ∷ []
split_pieces piece (c ∷ rest) =
    let next = split_pieces [] rest in
    let longer = split_pieces (piece ++ c ∷ []) rest in if c == b';' then piece ∷ next else longer

-- `bytes().position(test)`
unfoldable pub position : (ℕ → Bool) → Bytes → Option ℕ
position test [] = none
position test (c ∷ cs) =
    let later = position test cs in
    if test c then some 0 else elim later [ none ↦ none | some i ↦ some (i + 1) ]

abbrev pub is_not_space : ℕ → Bool
is_not_space c = if c == b' ' then false else true

abbrev pub is_assignment : ℕ → Bool
is_assignment c = c == b'='

-- What one piece, from its first byte that is no space, adds to the result.
pub cookie_of : Bytes → List CookieOfRequest → List CookieOfRequest
unfolding position
cookie_of cookie rest = elim (position is_assignment cookie) [
  | none ↦ record { name = cookie; value = [] } ∷ rest
  | some assignment_pos ↦
      if ltb 0 assignment_pos
      then record { name = take assignment_pos cookie; value = drop (assignment_pos + 1) cookie }
        ∷ rest
      else rest
]

pub cookies_of : List Bytes → List CookieOfRequest
unfolding position cookie_of
cookies_of [] = []
cookies_of (piece ∷ pieces) =
    let rest = cookies_of pieces in
    elim (position is_not_space piece) [
      | none ↦ rest
      | some begin_idx ↦ cookie_of (drop begin_idx piece) rest
    ]

unfoldable pub parse_cookie : Bytes → List CookieOfRequest
unfolding split_pieces cookies_of
parse_cookie cookies_header_value = cookies_of (split_pieces [] cookies_header_value)
