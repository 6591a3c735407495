-- ===== src/ControlPlane.antt =====
-- control-plane/server.go: what is answered to a path, and how the program ends. `file` is the reading of
-- the embedded dashboard.
use grpc_example.Common.{
  String, ◌<>◌, Bool, true, false, Option, none, some, List, [], ◌∷◌, ◌≡◌, arith, ◌==◌, string_eq,
  if◌then◌else◌, ℕ,
}
use grpc_example.Errors.{Error, Result, ok, err}
use grpc_example.Main.{getenv}
use grpc_example.Mux.{literal, Pattern, RequestPath, Match, mux_match, mux_match-empty}

pub data Reply : Type 0 where
  http_error : String → ℕ → Reply
  page : String → String → Reply

pub data Handler : Type 0 where
  dashboard health : Handler

abbrev patterns : List (Pattern Handler)
patterns = ([], true, dashboard) ∷ (literal "health" ∷ [], false, health) ∷ []

unfoldable pub handler_reply : Result String → Handler → Reply
handler_reply (err e) dashboard = http_error "Dashboard not found" 500
handler_reply (ok text) dashboard = page "text/html; charset=utf-8" text
handler_reply file health =
    page "application/json" "{\"status\":\"healthy\",\"service\":\"control-plane\"}"

abbrev match_reply : Result String → Match Handler → Reply
match_reply file none = http_error "404 page not found" 404
match_reply file (some (handler, values)) = handler_reply file handler

unfoldable pub control_plane_reply : Result String → RequestPath → Reply
control_plane_reply file path = match_reply file (mux_match patterns path)

-- The path `/health` is answered by the check, and any other by the dashboard.
abbrev handler_of : RequestPath → Handler
handler_of (a ∷ [], false) = if a == "health" then health else dashboard
handler_of path = dashboard

control_plane_reply-handler_of :
    (file : Result String) (a : String) (rest : List String) (slash : Bool)
    → control_plane_reply file (a ∷ rest, slash) ≡ handler_reply file (handler_of (a ∷ rest, slash))
unfolding control_plane_reply mux_match
control_plane_reply-handler_of file a [] true = ground arith
control_plane_reply-handler_of file a [] false = ground arith
control_plane_reply-handler_of file a (b ∷ rest) slash =
    ground (arith, mux_match-empty {E = Handler} rest slash)

-- `log.Fatal` of what `ListenAndServe` returns on the port of the environment.
unfoldable pub run_control_plane : (String → Option String) → (String → Error) → Error
run_control_plane env listen =
    listen (":" <> (if getenv env "PORT" == "" then "8080" else getenv env "PORT"))
