-- ===== src/Respawn.antt =====
-- cmd/respawn/main.go: the server that hands its listener on to a new process. `env` is `os.Getenv`.
-- What the process does is a list of events; the server's own goroutine is left out.
use grpc_example.Common.{
  ℕ, suc, String, Bool, true, false, not, Option, none, some, List, [], ◌∷◌, ◌++◌, ◌≡◌, ◌⊎◌, refl,
  inl, inr, if◌then◌else◌, ◌==◌, string_eq, Bool-cases, Option-cases, ◌&&◌, ap, All,
}
use grpc_example.Errors.{Error}

pub data Signal : Type 0 where
  sigint sigterm sigusr2 : Signal

-- A child starts with the environment in which it looks for a listener.
pub data Event : Type 0 where
  inherited listening serving shut_down : Event
  spawned : (String → String) → Event

-- The errors of the calls of the operating system: `net.FileListener`, `net.Listen`, and the two steps
-- of `spawnChild`.
pub record System : Type 0 where
  pub file_listener : Option Error
  pub listen : Option Error
  pub file : Option Error
  pub start : Option Error

-- `append(os.Environ(), "LISTENER_FD=3")`: the last setting of a variable counts.
abbrev pub child_env : (String → String) → String → String
child_env env name = if name == "LISTENER_FD" then "3" else env name

module _ (sys : System) (env : String → String) where
  unfoldable pub spawn_child : List Event
  spawn_child = elim sys.file [
    | some e ↦ []
    | none ↦ elim sys.start [ some e ↦ [] | none ↦ spawned (child_env env) ∷ [] ]
  ]

  -- The loop, over the signals in the order in which they come: each of its cases returns.
  unfoldable pub handle_signals : List Signal → List Event
  handle_signals [] = []
  handle_signals (sigusr2 ∷ signals) = spawn_child ++ shut_down ∷ []
  handle_signals (sigint ∷ signals) = shut_down ∷ []
  handle_signals (sigterm ∷ signals) = shut_down ∷ []

  abbrev pub started : Event → Option Error → List Signal → List Event
  started how (some e) signals = []
  started how none signals = how ∷ serving ∷ handle_signals signals

  unfoldable pub main : List Signal → List Event
  main signals =
      if not (env "LISTENER_FD" == "")
      then started inherited sys.file_listener signals
      else started listening sys.listen signals

abbrev pub is_none : Option Error → Bool
is_none none = true
is_none (some e) = false

abbrev pub count_of : (Event → Bool) → List Event → ℕ
count_of p [] = 0
count_of p (e ∷ events) = let rest = count_of p events in if p e then suc rest else rest

abbrev pub is_shut_down : Event → Bool
is_shut_down shut_down = true
is_shut_down _ = false

abbrev pub is_spawned : Event → Bool
is_spawned (spawned e) = true
is_spawned _ = false

abbrev pub is_listening : Event → Bool
is_listening listening = true
is_listening _ = false

abbrev pub is_inherited : Event → Bool
is_inherited inherited = true
is_inherited _ = false

-- The error of the call that gives the process its listener: with LISTENER_FD set it takes one over.
abbrev pub listener_error : System → (String → String) → Option Error
listener_error sys env = if env "LISTENER_FD" == "" then sys.listen else sys.file_listener

-- Whether the signal asks for a child and a child can be started.
abbrev pub spawns : System → Signal → Bool
spawns sys sigint = false
spawns sys sigterm = false
spawns sys sigusr2 = is_none sys.file && is_none sys.start

-- What the process does up to its end: nothing if it has no listener; else its last event is the one
-- time that it shuts its server down, and before it has started one child if `spawns` says so, and
-- else none.
abbrev pub IsEnded : System → Option Error → Signal → List Event → Type 0
IsEnded sys failure signal events =
    ((e : Error) × (failure ≡ some e) × (events ≡ []))
    ⊎ ((before : List Event) × (failure ≡ none)
        × (events ≡ before ++ (shut_down ∷ []))
        × (count_of is_shut_down before ≡ 0)
        × (count_of is_spawned before ≡ (if spawns sys signal then 1 else 0)))

abbrev pub IsOver : System → (String → String) → Signal → List Event → Type 0
IsOver sys env = IsEnded sys (listener_error sys env)

-- What a child that was started with this environment does about its listener.
abbrev pub IsHeir : System → List Signal → Event → Type 0
IsHeir child others (spawned e) =
    (count_of is_listening (main child e others) ≡ 0)
    × (count_of is_inherited (main child e others) ≡ (if is_none child.file_listener then 1 else 0))
IsHeir child others inherited = Unit
IsHeir child others listening = Unit
IsHeir child others serving = Unit
IsHeir child others shut_down = Unit

module _ (sys : System) (env : String → String) where
  spawn_child_lem :
      spawn_child sys env
      ≡ (if is_none sys.file && is_none sys.start then spawned (child_env env) ∷ [] else [])
  unfolding spawn_child
  spawn_child_lem = elim (Option-cases sys.file) [
    | inr (e, failed) ↦ rw (spawn_child, failed) refl
    | inl fine ↦ elim (Option-cases sys.start) [
      | inr (e, failed) ↦ rw (spawn_child, fine, failed) refl
      | inl begun ↦ rw (spawn_child, fine, begun) refl
    ]
  ]

  -- The events from the signal on.
  handle_signals_lem :
      (signal : Signal) (signals : List Signal)
      → handle_signals sys env (signal ∷ signals)
        ≡ (if spawns sys signal then spawned (child_env env) ∷ shut_down ∷ [] else shut_down ∷ [])
  unfolding handle_signals
  handle_signals_lem sigint signals = refl
  handle_signals_lem sigterm signals = refl
  handle_signals_lem sigusr2 signals = elim (Bool-cases (is_none sys.file && is_none sys.start)) [
    | inl can ↦ rw (spawn_child_lem, can) refl
    | inr cannot ↦ rw (spawn_child_lem, cannot) refl
  ]

  quiet_handler :
      (signals : List Signal)
      → (count_of is_listening (handle_signals sys env signals) ≡ 0)
        × (count_of is_inherited (handle_signals sys env signals) ≡ 0)
  unfolding handle_signals
  quiet_handler [] = (refl, refl)
  quiet_handler (signal ∷ signals) = elim (Bool-cases (spawns sys signal)) [
    | inl can ↦ rw (handle_signals_lem, can) (refl, refl)
    | inr cannot ↦ rw (handle_signals_lem, cannot) (refl, refl)
  ]

  heir_started :
      (failure : Option Error) (signals : List Signal)
      → (count_of is_listening (started sys env inherited failure signals) ≡ 0)
        × (count_of is_inherited (started sys env inherited failure signals)
            ≡ (if is_none failure then 1 else 0))
  heir_started (some e) signals = (refl, refl)
  heir_started none signals =
      let (quiet, none_taken) = quiet_handler signals in (quiet, ap suc none_taken)

  started-IsEnded :
      (how : Event) (failure : Option Error) (signal : Signal) (signals : List Signal)
      → is_shut_down how ≡ false
      → is_spawned how ≡ false
      → IsEnded sys failure signal (started sys env how failure (signal ∷ signals))
  started-IsEnded how (some e) signal signals no_stop no_child = inl (e, refl, refl)
  started-IsEnded how none signal signals no_stop no_child = elim (Bool-cases (spawns sys signal)) [
    | inl can ↦ inr (
      how ∷ serving ∷ spawned (child_env env) ∷ [],
      refl,
      rw (handle_signals_lem, can) refl,
      rw no_stop refl,
      rw (no_child, can) refl,
    )
    | inr cannot ↦ inr (
      how ∷ serving ∷ [],
      refl,
      rw (handle_signals_lem, cannot) refl,
      rw no_stop refl,
      rw (no_child, cannot) refl,
    )
  ]

heir_lem :
    (child : System) (env : String → String) (others : List Signal)
    → IsHeir child others (spawned (child_env env))
unfolding main
heir_lem child env others = heir_started child (child_env env) child.file_listener others

started-IsHeir :
    (sys child : System) (env : String → String) (how : Event) (failure : Option Error)
    (signal : Signal) (signals others : List Signal)
    → IsHeir child others how
    → All (IsHeir child others) (started sys env how failure (signal ∷ signals))
started-IsHeir sys child env how (some e) signal signals others h = tt
started-IsHeir sys child env how none signal signals others h =
    elim (Bool-cases (spawns sys signal)) [
      | inl can ↦ rw (handle_signals_lem, can) (h, (tt, (heir_lem child env others, (tt, tt))))
      | inr cannot ↦ rw (handle_signals_lem, cannot) (h, (tt, (tt, tt)))
    ]

-- If the call that gives the process its listener fails, it does nothing. Else it ends at the first
-- signal with shutting its server down, which it does once, and before that it has started one child
-- if the signal is SIGUSR2 and neither step of `spawnChild` fails, and else none. Every child that it
-- starts, run in the environment that it was given, opens no listener of its own, and takes its
-- parent's over unless `net.FileListener` fails.
pub main-IsOver :
    (sys child : System) (env : String → String) (signal : Signal) (signals others : List Signal)
    → IsOver sys env signal (main sys env (signal ∷ signals))
      × All (IsHeir child others) (main sys env (signal ∷ signals))
unfolding main
main-IsOver sys child env signal signals others = elim (Bool-cases (env "LISTENER_FD" == "")) [
  | inl unset ↦
      rw (main, unset)
        (
          started-IsEnded sys env listening sys.listen signal signals refl refl,
          started-IsHeir sys child env listening sys.listen signal signals others tt,
        )
  | inr set ↦
      rw (main, set)
        (
          started-IsEnded sys env inherited sys.file_listener signal signals refl refl,
          started-IsHeir sys child env inherited sys.file_listener signal signals others tt,
        )
]
