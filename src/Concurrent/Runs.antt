-- ===== src/Concurrent/Runs.antt =====
-- What every interleaving keeps.
use grpc_example.Common.{ℕ, List, All, nat_eq, string_eq, int_eq}
use grpc_example.Storage.{Storage}
use grpc_example.Concurrent.{
  Call, Reply, perform, Program, ret, call, Turn, here, there, Run, start, turn,
}

module _ {T A : Type 0} (Q : Call T → Type 0) where
  -- Whatever it is replied, the program makes only calls with `Q`.
  abbrev pub MakesOnly : Program T A → Type 0
  MakesOnly (ret a) = Unit
  MakesOnly (call c next) = Q c × ((r : Reply c) → MakesOnly (next r))

  module _ {S : Type 0} (st : Storage T S) (P : S → Type 0)
      (kept : (c : Call T) (s : S) → Q c → P s → P (perform st c s).1) where
    Turn-kept :
        {ps qs : List (Program T A)} {s t : S}
        → Turn st ps s qs t
        → All MakesOnly ps
        → P s
        → All MakesOnly qs × P t
    Turn-kept (here {c = c} {s = s}) (only, rest) p =
        ((only.1 (perform st c s).0, rest), kept c s only.0 p)
    Turn-kept (there step) (only, rest) p =
        let (rest', p') = Turn-kept step rest p in ((only, rest'), p')

    -- What the calls of the programs keep, every interleaving of the programs keeps.
    pub Run-kept :
        {ps : List (Program T A)} {s : S} {n : ℕ} {qs : List (Program T A)} {t : S}
        → Run st ps s n qs t
        → All MakesOnly ps
        → P s
        → All MakesOnly qs × P t
    Run-kept start only p = (only, p)
    Run-kept (turn run step) only p =
        let (only', p') = Run-kept run only p in Turn-kept step only' p'
