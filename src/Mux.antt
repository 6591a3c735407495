-- ===== src/Mux.antt =====
-- `http.ServeMux` as the programs of this repository use it: a literal segment goes before a wildcard,
-- and a wildcard before a final slash, which matches what is left. A path is clean: it is its segments,
-- none of them empty, and whether it ends in a slash.
use grpc_example.Common.{
  String, Bool, true, false, Option, none, some, List, [], ◌∷◌, ◌==◌, string_eq, if◌then◌else◌, ◌≡◌,
  refl,
}

pub data Segment : Type 0 where
  literal : String → Segment
  wildcard : Segment

-- A pattern's path, whether it ends in a slash, and its function.
abbrev pub Pattern : Type 0 → Type 0
Pattern E = List Segment × Bool × E

abbrev pub RequestPath : Type 0
RequestPath = List String × Bool

unfoldable pub of_method : {E : Type 0} → String → List (String × Pattern E) → List (Pattern E)
of_method method [] = []
of_method method ((m, pattern) ∷ rest) =
    let others = of_method method rest in if m == method then pattern ∷ others else others

-- The patterns that go on after a literal segment, and after a wildcard.
abbrev pub starts_with : String → List Segment → Option (List Segment)
starts_with text [] = none
starts_with text (wildcard ∷ rest) = none
starts_with text (literal t ∷ rest) = if text == t then some rest else none

abbrev pub starts_wild : List Segment → Option (List Segment)
starts_wild [] = none
starts_wild (literal t ∷ rest) = none
starts_wild (wildcard ∷ rest) = some rest

abbrev pub advance :
    {E : Type 0} → (List Segment → Option (List Segment)) → List (Pattern E) → List (Pattern E)
advance step [] = []
advance step ((segments, slash, endpoint) ∷ rest) = elim (step segments) [
  | none ↦ advance step rest
  | some left ↦ (left, slash, endpoint) ∷ advance step rest
]

-- The pattern that ends here, with a slash or without.
abbrev pub ending : {E : Type 0} → Bool → List (Pattern E) → Option E
ending slash [] = none
ending true (([], true, endpoint) ∷ rest) = some endpoint
ending false (([], false, endpoint) ∷ rest) = some endpoint
ending slash (pattern ∷ rest) = ending slash rest

-- The function, and the segments that the wildcards matched.
abbrev pub Match : Type 0 → Type 0
Match E = Option (E × List String)

abbrev pub or_else : {E : Type 0} → Match E → Match E → Match E
or_else (some m) other = some m
or_else none other = other

abbrev pub matched_end : {E : Type 0} → Option E → Match E
matched_end none = none
matched_end (some endpoint) = some (endpoint, [])

abbrev pub with_segment : {E : Type 0} → String → Match E → Match E
with_segment text none = none
with_segment text (some (endpoint, values)) = some (endpoint, text ∷ values)

unfoldable pub mux_match : {E : Type 0} → List (Pattern E) → RequestPath → Match E
mux_match patterns ([], slash) = matched_end (ending slash patterns)
mux_match patterns (text ∷ rest, slash) =
    or_else (mux_match (advance (starts_with text) patterns) (rest, slash)) (
      or_else (with_segment text (mux_match (advance starts_wild patterns) (rest, slash)))
        (matched_end (ending true patterns)))

-- Where no pattern is left, none matches.
pub mux_match-empty :
    {E : Type 0} (path : List String) (slash : Bool) → mux_match {E = E} [] (path, slash) ≡ none
unfolding mux_match
mux_match-empty [] true = refl
mux_match-empty [] false = refl
mux_match-empty {E = E'} (text ∷ path) slash =
    rw (mux_match, mux_match-empty {E = E'} path slash) refl
