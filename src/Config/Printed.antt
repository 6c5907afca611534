-- ===== src/Config/Printed.antt =====
-- internal/config/config.go: MapLookup, the text of an error, and what String shows of the URLs.
use tick.Base.{
  ◌≡◌, refl, none, some, List, [], ◌∷◌, ◌++◌, Text, bytes, ◌=?◌, length, map, if◌then◌else◌,
}
use tick.Base.Int.{pos}
use tick.Config.{Config, Problem, GoText, Lookup}
use tick.Config.Load.{render, redacted}

-- A map as an association list, whose first entry for a key counts.
unfoldable pub map_lookup : List (Text × Text) → Lookup
map_lookup [] key = none
map_lookup ((k, v) ∷ env) key = let rest = map_lookup env key in if k =? key then some v else rest

-- FieldError.Error.
abbrev pub problem_text : Problem → Text
problem_text p = p.key ++ (bytes ": " ++ p.problem)

-- strings.Join with a newline.
abbrev pub join_lines : List Text → Text
join_lines [] = []
join_lines (t ∷ []) = t
join_lines (t ∷ u ∷ ts) = t ++ 10 ∷ join_lines (u ∷ ts)

-- ValidationError.Error.
unfoldable pub error_text : GoText → List Problem → Text
error_text go (p ∷ []) = bytes "invalid configuration, " ++ problem_text p
error_text go ps =
    bytes "invalid configuration, "
    ++ (go.print_int (pos (length ps))
        ++ (bytes " problems:" ++ 10 ∷ join_lines (map (λ p. bytes "  " ++ problem_text p) ps)))

-- The line that a command logs at its start does not depend on the two connection strings, but on
-- whether each is set: with any others that are set where these are, String prints the same.
pub render_redacts :
    (go : GoText) (c : Config) (database_url redis_url : Text)
    → (database_url =? []) ≡ (c.database_url =? [])
    → (redis_url =? []) ≡ (c.redis_url =? [])
    → render go (record c { database_url = database_url; redis_url = redis_url }) ≡ render go c
unfolding render redacted
render_redacts go c database_url redis_url e f = rw (e, f) refl
