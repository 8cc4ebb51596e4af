-- ===== src/Query/Tests.antt =====
-- Parsed queries, and the theorems at concrete queries.
use anweb.Prelude.{◌≡◌, refl, some, List, [], ◌∷◌, codes, map}
use anweb.Query.{QueryNameValue, parse_query, value, value_at}
use anweb.Query.Fields.{fields, name_and_value, parse_query-eq-map}
use anweb.Query.RoundTrip.{print_query, parse_query-print_query}

abbrev two_parts : List QueryNameValue
two_parts =
    record { name = codes "a"; value = codes "1" }
    ∷ record { name = codes "b"; value = codes "x=y+z" }
    ∷ []

two_parts_read : parse_query (codes "a=1&;b=x=y+z") ≡ two_parts
unfolding parse_query
two_parts_read = refl

second_value : value_at some 1 two_parts ≡ some (codes "x=y z")
unfolding value_at
second_value = refl

value_of_b : value some (codes "b") two_parts ≡ some (codes "x=y+z")
unfolding value
value_of_b = refl

parse_query-eq-map_example :
    parse_query (codes "a=1&;=b") ≡ map (name_and_value []) (fields [] (codes "a=1&;=b"))
parse_query-eq-map_example = parse_query-eq-map (codes "a=1&;=b")

parse_query-print_query_example : parse_query (print_query two_parts) ≡ two_parts
parse_query-print_query_example = parse_query-print_query two_parts refl
