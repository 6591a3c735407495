-- ===== src/Main/Start/Release.antt =====
-- main.go: when `main` releases what it holds.
use grpc_example.Common.{
  String, Bool, true, false, not, Option, none, some, List, [], ◌∷◌, ◌≡◌, refl, ◌∙◌, ◌==◌,
  string_eq,
}
use grpc_example.Errors.{Error, Result, ok, err}
use grpc_example.Auth.{Claims, AuthError}
use grpc_example.Common.{◌⊎◌, inl, inr, Bool-cases}
use grpc_example.Main.{StorageBackend, postgres, memory}
use grpc_example.Main.Tls.{Credentials}
use grpc_example.Main.Start.{
  ServerFlags, Outside, fatal_if, warn_if, tls_warning, checked_token, validate, set_up_telemetry,
  open_storage, start_grpc, start_gateway, shut_down_servers, serve, run_main,
}
use grpc_example.Main.Start.Steps.{
  Resource, context, telemetry, pool, shutdown_context, connection, Effect, token_valid, warned,
  acquired, released, serving_grpc, serving_gateway, serving_pprof, metrics_printed,
  gateway_stopped, grpc_stopped, World, nothing_done, Exit, exited, went_on, Step, pass, emit, when,
  release_all, returned, and_then, ◌>>=◌, ◌>>◌,
}
use grpc_example.Main.Start.Steps

module _ {C P N : Type 0} where
  abbrev is_other : Effect C P N → Bool
  is_other (acquired r) = false
  is_other (released r) = false
  is_other grpc_stopped = false
  is_other e = true

  -- The effects, the newest first, leave the resources held, the newest first; the Boolean is whether
  -- the gRPC server has stopped. Only the newest resource is released, and only after that stop.
  pub data Held : List (Effect C P N) → List Resource → Bool → Type 0 where
    start : Held [] [] false
    acquire :
        {es : List (Effect C P N)} {rs : List Resource} {s : Bool} (r : Resource)
        → Held es rs s
        → Held (acquired r ∷ es) (r ∷ rs) s
    release :
        {es : List (Effect C P N)} {rs : List Resource} (r : Resource)
        → Held es (r ∷ rs) true
        → Held (released r ∷ es) rs true
    stop :
        {es : List (Effect C P N)} {rs : List Resource} {s : Bool}
        → Held es rs s
        → Held (grpc_stopped ∷ es) rs true
    other :
        {es : List (Effect C P N)} {rs : List Resource} {s : Bool} (e : Effect C P N)
        → is_other e ≡ true
        → Held es rs s
        → Held (e ∷ es) rs s

  abbrev pub releases : List (Effect C P N) → List Resource
  releases [] = []
  releases (released r ∷ es) = r ∷ releases es
  releases (e ∷ es) = releases es

  -- A fatal end has released nothing; a return has released everything.
  abbrev pub IsReleased : Exit (Unit {0}) × World C P N → Type 0
  IsReleased (exited message, w) = releases w.effects ≡ []
  IsReleased (went_on _, w) = (stopped : Bool) × Held w.effects [] stopped

  abbrev Fine : World C P N → Type 0
  Fine w = (s : Bool) × Held w.effects w.deferred s × (releases w.effects ≡ [])

  -- What holds where the steps may return.
  abbrev Final : World C P N → Type 0
  Final w = Held w.effects w.deferred true

  abbrev Post : (World C P N → Type 0) → Exit (Unit {0}) × World C P N → Type 0
  Post Q (exited message, w) = releases w.effects ≡ []
  Post Q (went_on _, w) = Q w

  record Leads (Q : World C P N → Type 0) (step : Step C P N (Unit {0})) : Type 0 where
    lead : (w : World C P N) → Fine w → Post Q (step w)

  abbrev Keeps : Step C P N (Unit {0}) → Type 0
  Keeps = Leads Fine

  and_then-Post :
      (Q : World C P N → Type 0) (next : Step C P N (Unit {0})) (o : Exit (Unit {0}) × World C P N)
      → Leads Q next
      → Post Fine o
      → Post Q (and_then (λ _. next) o)
  and_then-Post Q next (exited message, w) k h = h
  and_then-Post Q next (went_on _, w) k h = k.lead w h

  >>-Leads :
      {Q : World C P N → Type 0} {a b : Step C P N (Unit {0})}
      → Keeps a
      → Leads Q b
      → Leads Q (a >> b)
  unfolding ◌>>◌ ◌>>=◌
  >>-Leads {Q = Q} {a = a} {b = b} ha hb = record {
    lead = λ w h. and_then-Post Q b (a w) hb (ha.lead w h);
  }

  stopped-Leads : Leads Final (emit grpc_stopped)
  unfolding emit
  stopped-Leads = record { lead = λ w (s, held, none_released). stop held }

  releases-other :
      (e : Effect C P N) (es : List (Effect C P N))
      → is_other e ≡ true
      → releases (e ∷ es) ≡ releases es
  releases-other (acquired r) es h = refl
  releases-other (released r) es h = cc
  releases-other grpc_stopped es h = refl
  releases-other (token_valid c) es h = refl
  releases-other (warned m) es h = refl
  releases-other (serving_grpc a c i s) es h = refl
  releases-other (serving_gateway a c i) es h = refl
  releases-other (serving_pprof a p) es h = refl
  releases-other metrics_printed es h = refl
  releases-other gateway_stopped es h = refl

  emit-Keeps : (e : Effect C P N) → is_other e ≡ true → Keeps (emit e)
  unfolding emit
  emit-Keeps e h = record {
    lead = λ w (s, held, none_released).
        (s, other e h held, releases-other e w.effects h ∙ none_released);
  }

  acquire-Keeps : (r : Resource) → Keeps (Steps.acquire r)
  unfolding Steps.acquire
  acquire-Keeps r = record {
    lead = λ w (s, held, none_released). (s, acquire r held, none_released);
  }

  when-Keeps : (c : Bool) (step : Step C P N (Unit {0})) → Keeps step → Keeps (when c step)
  unfolding when pass
  when-Keeps true step h = record { lead = h.lead }
  when-Keeps false step h = record { lead = λ w fine. fine }

  release_all-Held :
      (rs : List Resource) (es : List (Effect C P N))
      → Held es rs true
      → Held (release_all rs es) [] true
  release_all-Held [] es h = h
  release_all-Held (r ∷ rs) es h = release_all-Held rs (released r ∷ es) (release r h)

  returned-IsReleased : (o : Exit (Unit {0}) × World C P N) → Post Final o → IsReleased (returned o)
  returned-IsReleased (exited message, w) h = h
  returned-IsReleased (went_on _, w) h = (true, release_all-Held w.deferred w.effects h)

module _ {C P L R D N : Type 0} (out : Outside C P L R D N) (flags : ServerFlags) where
  fatal_if-Keeps : (message : String) (o : Option Error) → Keeps (fatal_if out flags message o)
  unfolding fatal_if
  fatal_if-Keeps message none = record { lead = λ w fine. fine }
  fatal_if-Keeps message (some e) = record { lead = λ w (s, held, none_released). none_released }

  warn_if-Keeps : (message : String) (o : Option Error) → Keeps (warn_if out flags message o)
  unfolding warn_if
  warn_if-Keeps message none = record { lead = λ w fine. fine }
  warn_if-Keeps message (some e) = record { lead = (emit-Keeps (warned _) refl).lead }

  tls_warning-Keeps : (r : Result (Credentials C P)) → Keeps (tls_warning out flags r)
  unfolding tls_warning pass
  tls_warning-Keeps (ok credentials) = record { lead = λ w fine. fine }
  tls_warning-Keeps (err e) = emit-Keeps (warned _) refl

  set_up_telemetry-Keeps : Keeps (set_up_telemetry out flags)
  unfolding set_up_telemetry
  set_up_telemetry-Keeps =
      >>-Leads (fatal_if-Keeps _ _) (>>-Leads (acquire-Keeps telemetry) (fatal_if-Keeps _ _))

  open_storage-Keeps : (b : StorageBackend) → Keeps (open_storage out flags b)
  unfolding open_storage pass
  open_storage-Keeps memory = record { lead = λ w fine. fine }
  open_storage-Keeps (postgres conn_string) = >>-Leads (fatal_if-Keeps _ _) (acquire-Keeps pool)

  start_grpc-Keeps : (c : Credentials C P) → Keeps (start_grpc out flags c)
  unfolding start_grpc
  start_grpc-Keeps c =
      >>-Leads (fatal_if-Keeps _ _) (>>-Leads (open_storage-Keeps _) (emit-Keeps _ refl))

  start_gateway-Keeps : (c : Credentials C P) → Keeps (start_gateway out flags c)
  unfolding start_gateway
  start_gateway-Keeps c = >>-Leads (fatal_if-Keeps _ _) (
      >>-Leads (acquire-Keeps _) (
        >>-Leads (fatal_if-Keeps _ _) (
          >>-Leads (warn_if-Keeps _ _)
            (>>-Leads (emit-Keeps _ refl) (when-Keeps _ _ (emit-Keeps _ refl))))))

  shut_down_servers-Leads : Leads Final (shut_down_servers out flags)
  unfolding shut_down_servers
  shut_down_servers-Leads = >>-Leads (when-Keeps _ _ (emit-Keeps _ refl)) (
      >>-Leads (acquire-Keeps _)
        (>>-Leads (emit-Keeps _ refl) (>>-Leads (warn_if-Keeps _ _) stopped-Leads)))

  serve-Leads : (fallback : C × P) → Leads Final (serve out flags fallback)
  unfolding serve
  serve-Leads fallback = >>-Leads (tls_warning-Keeps _) (
      >>-Leads (acquire-Keeps _) (
        >>-Leads (when-Keeps _ _ set_up_telemetry-Keeps) (
          >>-Leads (start_grpc-Keeps _) (
            >>-Leads (start_gateway-Keeps _)
              (>>-Leads (fatal_if-Keeps _ _) shut_down_servers-Leads)))))

  validate-IsReleased :
      (r : AuthError ⊎ Claims N) → IsReleased (returned (checked_token out flags r nothing_done))
  unfolding checked_token emit
  validate-IsReleased (inl e) = refl
  validate-IsReleased (inr claims) = (false, other (token_valid claims) refl start)

  -- However `main` ends, it has released nothing if it ended by `log.Fatalf`, and if it returned it
  -- released all that it had acquired, the newest first, each after the gRPC server had stopped.
  pub run_main-IsReleased :
      (secret issuer : String) (fallback : C × P)
      → IsReleased (run_main out flags secret issuer fallback)
  unfolding run_main validate
  run_main-IsReleased secret issuer fallback =
      elim (Bool-cases (not (flags.validate_token_text == ""))) [
        | inl asked ↦ rw (run_main, asked) (validate-IsReleased _)
        | inr serving ↦
            rw (run_main, serving)
              (returned-IsReleased _
                ((serve-Leads fallback).lead nothing_done (false, start, refl)))
      ]
