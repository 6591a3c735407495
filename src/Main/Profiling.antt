-- ===== src/Main/Profiling.antt =====
-- main.go: the routes of `serverPProf`. The prefix is its segments; it ends in a slash, so that the mux
-- redirects the prefix without the slash to it, as the route of `/` does.
use grpc_example.Common.{String, true, false, List, [], ◌∷◌, ◌++◌, map, string_eq}
use grpc_example.Mux.{literal, Pattern}

-- What serves a path: the index with its profiles by name, a function of the package, a profile's handler,
-- or a redirection to the prefix.
pub data ProfileHandler : Type 0 where
  index : ProfileHandler
  function : String → ProfileHandler
  profile : String → ProfileHandler
  redirected : List String → ProfileHandler

module _ (prefix : List String) where
  abbrev below : String → ProfileHandler → Pattern ProfileHandler
  below name p = (map literal prefix ++ (literal name ∷ []), false, p)

  abbrev root_redirect : List String → List (Pattern ProfileHandler)
  root_redirect [] = []
  root_redirect (s ∷ ss) = ([], true, redirected (s ∷ ss)) ∷ []

  unfoldable pub pprof_routes : List (Pattern ProfileHandler)
  pprof_routes =
      (map literal prefix, true, index)
      ∷ below "cmdline" (function "cmdline")
      ∷ below "profile" (function "profile")
      ∷ below "symbol" (function "symbol")
      ∷ below "trace" (function "trace")
      ∷ below "heap" (profile "heap")
      ∷ below "goroutine" (profile "goroutine")
      ∷ below "threadcreate" (profile "threadcreate")
      ∷ below "block" (profile "block")
      ∷ below "mutex" (profile "mutex")
      ∷ below "allocs" (profile "allocs")
      ∷ root_redirect prefix

abbrev pub pprof_prefix : List String
pprof_prefix = "debug" ∷ "pprof" ∷ []
