-- ===== src/Main/Start/Failures.antt =====
-- main.go: with which message `main` ends, against the list of what may fail.
use grpc_example.Common.{
  String, ◌<>◌, Bool, true, false, not, Option, none, some, List, [], ◌∷◌, ◌++◌, ◌≡◌, refl, ◌∙◌, ap,
  ◌==◌, string_eq,
}
use mathlib.Core.Path.{subst}
use mathlib.Core.List.{append-nil}
use grpc_example.Errors.{Error, Result, ok, err}
use grpc_example.Main.{StorageBackend, postgres, memory, storage_backend, grpc_dial_host}
use grpc_example.Main.Tls.{Credentials, load_tls_credentials, chosen}
use grpc_example.Interceptors.Otel.{initialize_otel_metrics}
use grpc_example.Postgres.Connect.{new_postgres_storage}
use grpc_example.Main.Start.{
  ServerFlags, Outside, fatal_if, warn_if, tls_warning, failure, addr, otel_result,
  set_up_telemetry, open_storage, start_grpc, start_gateway, shut_down_servers, serve, run_main,
}
use grpc_example.Main.Start.Steps.{
  Resource, Effect, World, nothing_done, Exit, exited, went_on, Step, pass, emit, acquire, when,
  returned, and_then, ◌>>=◌, ◌>>◌,
}

abbrev pub exit_text : {A : Type 0} → Exit A → Option String
exit_text (exited message) = some message
exit_text (went_on _) = none

module _ {C P L R D N : Type 0} (out : Outside C P L R D N) (flags : ServerFlags) where
  -- The message of the first failure of the list.
  abbrev pub first_failure : List (String × Option Error) → Option String
  first_failure [] = none
  first_failure ((message, none) ∷ rest) = first_failure rest
  first_failure ((message, some e) ∷ rest) = some (message <> out.error_text e)

  abbrev storage_failures : StorageBackend → List (String × Option Error)
  storage_failures memory = []
  storage_failures (postgres conn_string) =
      (
        "Failed to initialize PostgreSQL storage: ",
        failure out flags
            (new_postgres_storage out.connector out.pool out.error_text conn_string).storage,
      )
      ∷ []

  abbrev telemetry_failures : Bool → List (String × Option Error)
  telemetry_failures false = []
  telemetry_failures true =
      ("Failed to initialize OpenTelemetry: ", failure out flags (otel_result out flags))
      ∷ (
        "Failed to initialize OpenTelemetry metrics: ",
        (initialize_otel_metrics out.create_instrument false).0,
      )
      ∷ []

  -- What may end the server, in the order in which it is met.
  abbrev grpc_failures : List (String × Option Error)
  grpc_failures =
      ("Failed to listen: ", out.listen (addr out flags flags.hostname flags.grpc_port))
      ∷ storage_failures (storage_backend flags.db_conn_string)

  abbrev gateway_failures : Credentials C P → List (String × Option Error)
  gateway_failures c =
      (
        "Failed to dial server: ",
        out.new_client (addr out flags (grpc_dial_host flags.hostname) flags.grpc_port) c.pool,
      )
      ∷ ("Failed to register gateway: ", out.register_handler)
      ∷ []

  abbrev pub failures : C × P → List (String × Option Error)
  failures fallback =
      telemetry_failures flags.otel_enabled
      ++ (grpc_failures
          ++ (gateway_failures (
                chosen out.tls fallback
                  (load_tls_credentials out.tls flags.cert_file flags.key_file))
              ++ (("", out.goroutine) ∷ [])))

  record Ends (fs : List (String × Option Error)) (step : Step C P N (Unit {0})) : Type 0 where
    end : (w : World C P N) → exit_text (step w).0 ≡ first_failure fs

  and_then-Ends :
      (fs gs : List (String × Option Error)) (next : Step C P N (Unit {0}))
      (o : Exit (Unit {0}) × World C P N)
      → exit_text o.0 ≡ first_failure fs
      → Ends gs next
      → exit_text (and_then (λ _. next) o).0 ≡ first_failure (fs ++ gs)
  and_then-Ends [] gs next (exited message, w) h k = cc
  and_then-Ends [] gs next (went_on _, w) h k = k.end w
  and_then-Ends ((message, none) ∷ fs) gs next o h k = and_then-Ends fs gs next o h k
  and_then-Ends ((message, some e) ∷ fs) gs next (exited m, w) h k = h
  and_then-Ends ((message, some e) ∷ fs) gs next (went_on _, w) h k = cc

  >>-Ends :
      {fs gs : List (String × Option Error)} {a b : Step C P N (Unit {0})}
      → Ends fs a
      → Ends gs b
      → Ends (fs ++ gs) (a >> b)
  unfolding ◌>>◌ ◌>>=◌
  >>-Ends {fs = fs} {gs = gs} {a = a} {b = b} ha hb = record {
    end = λ w. and_then-Ends fs gs b (a w) (ha.end w) hb;
  }

  append-nil-Ends :
      {fs : List (String × Option Error)} {a : Step C P N (Unit {0})}
      → Ends (fs ++ []) a
      → Ends fs a
  append-nil-Ends {fs = fs} {a = a} h = subst (λ gs. Ends gs a) (append-nil fs) h

  fatal_if-Ends :
      (message : String) (o : Option Error)
      → Ends ((message, o) ∷ []) (fatal_if out flags message o)
  unfolding fatal_if
  fatal_if-Ends message none = record { end = λ w. refl }
  fatal_if-Ends message (some e) = record { end = λ w. refl }

  emit-Ends : (e : Effect C P N) → Ends [] (emit e)
  unfolding emit
  emit-Ends e = record { end = λ w. refl }

  acquire-Ends : (r : Resource) → Ends [] (acquire r)
  unfolding acquire
  acquire-Ends r = record { end = λ w. refl }

  warn_if-Ends : (message : String) (o : Option Error) → Ends [] (warn_if out flags message o)
  unfolding warn_if
  warn_if-Ends message none = record { end = λ w. refl }
  warn_if-Ends message (some e) = record { end = λ w. refl }

  tls_warning-Ends : (r : Result (Credentials C P)) → Ends [] (tls_warning out flags r)
  unfolding tls_warning pass
  tls_warning-Ends (ok credentials) = record { end = λ w. refl }
  tls_warning-Ends (err e) = emit-Ends _

  when-Ends : (c : Bool) (step : Step C P N (Unit {0})) → Ends [] step → Ends [] (when c step)
  unfolding when pass
  when-Ends true step h = record { end = h.end }
  when-Ends false step h = record { end = λ w. refl }

  telemetry-Ends : (c : Bool) → Ends (telemetry_failures c) (when c (set_up_telemetry out flags))
  unfolding when pass set_up_telemetry
  telemetry-Ends false = record { end = λ w. refl }
  telemetry-Ends true = record {
    end = (>>-Ends (fatal_if-Ends _ _) (>>-Ends (acquire-Ends _) (fatal_if-Ends _ _))).end;
  }

  open_storage-Ends : (b : StorageBackend) → Ends (storage_failures b) (open_storage out flags b)
  unfolding open_storage pass
  open_storage-Ends memory = record { end = λ w. refl }
  open_storage-Ends (postgres conn_string) = >>-Ends (fatal_if-Ends _ _) (acquire-Ends _)

  shut_down_servers-Ends : Ends [] (shut_down_servers out flags)
  unfolding shut_down_servers
  shut_down_servers-Ends =
      >>-Ends (when-Ends _ _ (emit-Ends _)) (
        >>-Ends (acquire-Ends _) (>>-Ends (emit-Ends _) (>>-Ends (warn_if-Ends _ _) (emit-Ends _))))

  start_grpc-Ends : (c : Credentials C P) → Ends grpc_failures (start_grpc out flags c)
  unfolding start_grpc
  start_grpc-Ends c =
      >>-Ends (fatal_if-Ends _ _) (append-nil-Ends (>>-Ends (open_storage-Ends _) (emit-Ends _)))

  start_gateway-Ends : (c : Credentials C P) → Ends (gateway_failures c) (start_gateway out flags c)
  unfolding start_gateway
  start_gateway-Ends c = >>-Ends (fatal_if-Ends _ _) (
      >>-Ends (acquire-Ends _) (
        >>-Ends (fatal_if-Ends _ _)
          (>>-Ends (warn_if-Ends _ _) (>>-Ends (emit-Ends _) (when-Ends _ _ (emit-Ends _))))))

  serve-Ends : (fallback : C × P) → Ends (failures fallback) (serve out flags fallback)
  unfolding serve
  serve-Ends fallback = >>-Ends (tls_warning-Ends _) (
      >>-Ends (acquire-Ends _) (
        >>-Ends (telemetry-Ends _) (
          >>-Ends (start_grpc-Ends _)
            (>>-Ends (start_gateway-Ends _) (>>-Ends (fatal_if-Ends _ _) shut_down_servers-Ends)))))

  returned-exit : (o : Exit (Unit {0}) × World C P N) → exit_text (returned o).0 ≡ exit_text o.0
  returned-exit (exited message, w) = refl
  returned-exit (went_on _, w) = refl

  -- A server that is not asked to validate a token ends with the message of the first failure of the
  -- list, in its order, and returns if there is none, whatever the warnings.
  pub run_main-failures :
      (secret issuer : String) (fallback : C × P)
      → flags.validate_token_text ≡ ""
      → exit_text (run_main out flags secret issuer fallback).0 ≡ first_failure (failures fallback)
  unfolding run_main
  run_main-failures secret issuer fallback h =
      rw (run_main, ap (λ t. not (t == "")) h)
        (returned-exit _ ∙ (serve-Ends fallback).end nothing_done)
