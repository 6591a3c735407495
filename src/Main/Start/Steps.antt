-- ===== src/Main/Start/Steps.antt =====
-- main.go: what `main` does to the world, and its steps. What the program logs is left out, but for
-- the warnings before the release of the resources and the text of `log.Fatalf`.
use grpc_example.Common.{String, Bool, Option, List, [], ◌∷◌, if◌then◌else◌}
use grpc_example.Auth.{Claims}
use grpc_example.Main.{Interceptor, StorageBackend}
use grpc_example.Main.Tls.{Config}

-- What `main` defers the release of: the context's `cancel`, the telemetry's shutdown, the pool's and
-- the gateway connection's `Close`, and the `cancel` of the shutdown's context.
pub data Resource : Type 0 where
  context telemetry pool shutdown_context : Resource
  connection : String → Resource

pub data Effect (C P N : Type 0) : Type 0 where
  token_valid : Claims N → Effect C P N
  warned : String → Effect C P N
  acquired released : Resource → Effect C P N
  serving_grpc : String → C → List Interceptor → StorageBackend → Effect C P N
  serving_gateway : String → Config C → Option String → Effect C P N
  serving_pprof : String → String → Effect C P N
  metrics_printed gateway_stopped grpc_stopped : Effect C P N

-- `effects` and `deferred` have the newest first.
pub record World (C P N : Type 0) : Type 0 where
  pub effects : List (Effect C P N)
  pub deferred : List Resource

abbrev pub nothing_done : {C P N : Type 0} → World C P N
nothing_done = record { effects = []; deferred = [] }

pub data Exit (A : Type 0) : Type 0 where
  exited : String → Exit A
  went_on : A → Exit A

abbrev pub Step : Type 0 → Type 0 → Type 0 → Type 0 → Type 0
Step C P N A = World C P N → Exit A × World C P N

module _ {C P N : Type 0} where
  unfoldable pub pass : Step C P N (Unit {0})
  pass w = (went_on tt, w)

  unfoldable pub emit : Effect C P N → Step C P N (Unit {0})
  emit e w = (went_on tt, record { effects = e ∷ w.effects; deferred = w.deferred })

  -- A resource is made, and its release is deferred.
  unfoldable pub acquire : Resource → Step C P N (Unit {0})
  acquire r w = (went_on tt, record { effects = acquired r ∷ w.effects; deferred = r ∷ w.deferred })

  unfoldable pub when : Bool → Step C P N (Unit {0}) → Step C P N (Unit {0})
  unfolding pass
  when c step w = if c then step w else pass w

  -- The deferred calls run, the newest first.
  abbrev pub release_all : List Resource → List (Effect C P N) → List (Effect C P N)
  release_all [] effects = effects
  release_all (r ∷ rs) effects = release_all rs (released r ∷ effects)

  abbrev pub returned : Exit (Unit {0}) × World C P N → Exit (Unit {0}) × World C P N
  returned (exited message, w) = (exited message, w)
  returned (went_on _, w) =
      (went_on tt, record { effects = release_all w.deferred w.effects; deferred = [] })

infixl 5 ◌>>=◌ ◌>>◌
abbrev pub and_then :
    {C P N A B : Type 0} → (A → Step C P N B) → Exit A × World C P N → Exit B × World C P N
and_then next (exited message, w) = (exited message, w)
and_then next (went_on a, w) = next a w

unfoldable pub ◌>>=◌ : {C P N A B : Type 0} → Step C P N A → (A → Step C P N B) → Step C P N B
◌>>=◌ step next w = and_then next (step w)

unfoldable pub ◌>>◌ : {C P N B : Type 0} → Step C P N (Unit {0}) → Step C P N B → Step C P N B
unfolding ◌>>=◌
step >> next = step >>= λ _. next
