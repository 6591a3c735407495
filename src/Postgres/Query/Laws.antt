-- ===== src/Postgres/Query/Laws.antt =====
-- The listing query's placeholders and arguments, against an independent description of its parts.
use mathlib.Core.List.{append_assoc, append-nil as list_nil}
use mathlib.Core.Path.{subst}
use text.Mathlib.TextLemmas.{nil-append, append-nil, append_assoc as text_assoc}
use grpc_example.Common.{
  ℕ, suc, ◌+◌, ◌<>◌, decimal, String, ℤ, pos, ltb_ℤ, Option, none, some, List, [], ◌∷◌, ◌++◌, ◌≡◌,
  refl, sym, ap, arith, length, map, if◌then◌else◌, Bool-cases, inl, inr,
}
use grpc_example.Storage.{ListFilter}
use grpc_example.Memory.{unix}
use grpc_example.Postgres.Driver.{Arg, number, instant}
use grpc_example.Postgres.Texts.{list_query_base}
use grpc_example.Postgres.Query.{
  Building, begun, with_clause, with_since, with_older, with_status, with_limit, filtered,
  list_query, list_args,
}

-- A part of the query: its text before the placeholder, and the placeholder's argument.
abbrev pub Part : Type 0
Part = String × Arg

abbrev pub optional : String → (ℤ → Arg) → Option ℤ → List Part
optional clause arg none = []
optional clause arg (some v) = (clause, arg v) ∷ []

abbrev pub limit_part : ℤ → List Part
limit_part page_size = if ltb_ℤ (pos 0) page_size then (" LIMIT $", number page_size) ∷ [] else []

abbrev pub parts : Option ListFilter → List Part
parts none = []
parts (some f) =
    optional " AND create_date >= $" (λ s. instant (unix s)) f.created_since
    ++ optional " AND create_date < $" (λ o. instant (unix o)) f.older_than
    ++ optional " AND status = $" number f.status
    ++ limit_part f.page_size

-- The parts with their placeholders numbered from `i`.
abbrev pub numbered : ℕ → List Part → String
numbered i [] = ""
numbered i ((clause, arg) ∷ ps) = clause <> decimal i <> numbered (suc i) ps

-- The building that has the parts `ps` in it.
record IsBuilt (ps : List Part) (b : Building) : Type 0 where
  query : b.query ≡ list_query_base <> numbered 1 ps
  args : b.args ≡ map (λ p. p.1) ps
  arg_idx : b.arg_idx ≡ suc (length ps)

pub numbered-append :
    (i : ℕ) (ps : List Part) (clause : String) (arg : Arg)
    → numbered i (ps ++ (clause, arg) ∷ []) ≡ numbered i ps <> clause <> decimal (i + length ps)
numbered-append i [] clause arg =
    let e : i + 0 ≡ i = omega arith in rw (nil-append, e, append-nil) refl
numbered-append i ((first, v) ∷ ps) clause arg =
    let e : i + suc (length ps) ≡ suc i + length ps = omega arith in
    rw (numbered-append (suc i) ps clause arg, e, text_assoc first, text_assoc (decimal i)) refl

length-snoc : (ps : List Part) (p : Part) → length (ps ++ p ∷ []) ≡ suc (length ps)
length-snoc [] p = refl
length-snoc (q ∷ ps) p = ap suc (length-snoc ps p)

map-snoc :
    (ps : List Part) (p : Part) → map (λ q. q.1) (ps ++ p ∷ []) ≡ map (λ q. q.1) ps ++ p.1 ∷ []
map-snoc [] p = refl
map-snoc (q ∷ ps) p = ap (λ l. q.1 ∷ l) (map-snoc ps p)

with_clause-IsBuilt :
    (clause : String) (arg : Arg) {ps : List Part} {b : Building}
    → IsBuilt ps b
    → IsBuilt (ps ++ (clause, arg) ∷ []) (with_clause clause arg b)
with_clause-IsBuilt clause arg {ps = ps} h = record {
  query =
      let e : 1 + length ps ≡ suc (length ps) = omega arith in
      rw (h.query, h.arg_idx, numbered-append 1 ps clause arg, e, text_assoc list_query_base) refl;
  args = rw (h.args, map-snoc ps (clause, arg)) refl;
  arg_idx = rw (h.arg_idx, length-snoc ps (clause, arg)) (omega arith);
}

unchanged : {ps : List Part} {b : Building} → IsBuilt ps b → IsBuilt (ps ++ []) b
unchanged {ps = ps} h = rw (list_nil ps) h

with_since-IsBuilt :
    (o : Option ℤ) {ps : List Part} {b : Building}
    → IsBuilt ps b
    → IsBuilt (ps ++ optional " AND create_date >= $" (λ s. instant (unix s)) o) (with_since o b)
with_since-IsBuilt none h = unchanged h
with_since-IsBuilt (some s) h = with_clause-IsBuilt " AND create_date >= $" (instant (unix s)) h

with_older-IsBuilt :
    (o : Option ℤ) {ps : List Part} {b : Building}
    → IsBuilt ps b
    → IsBuilt (ps ++ optional " AND create_date < $" (λ s. instant (unix s)) o) (with_older o b)
with_older-IsBuilt none h = unchanged h
with_older-IsBuilt (some s) h = with_clause-IsBuilt " AND create_date < $" (instant (unix s)) h

with_status-IsBuilt :
    (o : Option ℤ) {ps : List Part} {b : Building}
    → IsBuilt ps b
    → IsBuilt (ps ++ optional " AND status = $" number o) (with_status o b)
with_status-IsBuilt none h = unchanged h
with_status-IsBuilt (some s) h = with_clause-IsBuilt " AND status = $" (number s) h

with_limit-IsBuilt :
    (n : ℤ) {ps : List Part} {b : Building}
    → IsBuilt ps b
    → IsBuilt (ps ++ limit_part n) (with_limit n b)
with_limit-IsBuilt n h = elim (Bool-cases (ltb_ℤ (pos 0) n)) [
  | inl limited ↦ rw limited (with_clause-IsBuilt " LIMIT $" (number n) h)
  | inr unlimited ↦ rw unlimited (unchanged h)
]

begun-IsBuilt : IsBuilt [] begun
begun-IsBuilt = record { query = sym (append-nil list_query_base); args = refl; arg_idx = refl }

regroup : (a b c d : List Part) → ((([] ++ a) ++ b) ++ c) ++ d ≡ a ++ b ++ c ++ d
regroup a b c d = rw (append_assoc, append_assoc) refl

filtered-IsBuilt : (filter : Option ListFilter) → IsBuilt (parts filter) (filtered filter)
unfolding filtered
filtered-IsBuilt none = begun-IsBuilt
filtered-IsBuilt (some f) =
    let since = with_since-IsBuilt f.created_since begun-IsBuilt in
    let older = with_older-IsBuilt f.older_than since in
    let status = with_status-IsBuilt f.status older in
    subst (λ ps. IsBuilt ps (filtered (some f)))
      (regroup (optional " AND create_date >= $" (λ s. instant (unix s)) f.created_since)
        (optional " AND create_date < $" (λ s. instant (unix s)) f.older_than)
        (optional " AND status = $" number f.status) (limit_part f.page_size))
      (with_limit-IsBuilt f.page_size status)

-- The listing's query is the base, then the clauses that the filter asks for with their
-- placeholders numbered from one on, then the order; and there is one argument for each
-- placeholder, in the same order.
pub list_query-numbered :
    (filter : Option ListFilter)
    → (list_query filter ≡ list_query_base <> numbered 1 (parts filter) <> " ORDER BY id")
      × (list_args filter ≡ map (λ p. p.1) (parts filter))
unfolding list_query list_args
list_query-numbered filter =
    let built = filtered-IsBuilt filter in
    (rw (built.query, text_assoc list_query_base) refl, built.args)
