-- ===== src/Commands/Reconnect.antt =====
-- cmd/client/main.go: the loop that connects and reconnects. What becomes of each attempt is given;
-- what the loop does is listed, its log lines left out.
pub mod Paced
use vlgr.Prelude.{ℕ, Bool, true, List, [], ◌∷◌, ◌++◌, if◌then◌else◌}
use vlgr.Commands.{next_backoff}

-- Connect fails, and the wait passes or a signal ends it; or Connect succeeds, with or without a
-- control listener, and Run ends or a signal comes.
pub data Attempt : Type 0 where
  fails fails_signalled : Attempt
  ran signalled : Bool → Attempt

pub data Act : Type 0 where
  closes removes_ctl connects writes_ctl shows hides runs pauses : Act
  waits : ℕ → Act

unfoldable pub begins : Bool → List Act
begins held = (if held then closes ∷ [] else []) ++ removes_ctl ∷ connects ∷ []

unfoldable pub starts : Bool → Bool → List Act
starts tray control =
    (if control then writes_ctl ∷ [] else []) ++ (if tray then shows ∷ [] else []) ++ runs ∷ []

-- With a tray or none, from a wait and whether there is a tunnel of an earlier attempt.
unfoldable pub run_loop : Bool → ℕ → Bool → List Attempt → List Act
unfolding begins starts next_backoff
run_loop tray backoff held [] = []
run_loop tray backoff held (fails ∷ rest) =
    begins held ++ waits backoff ∷ run_loop tray (next_backoff backoff) true rest
run_loop tray backoff held (fails_signalled ∷ rest) = begins held ++ waits backoff ∷ []
run_loop tray backoff held (ran control ∷ rest) =
    begins held
    ++ starts tray control
    ++ (if tray then hides ∷ [] else [])
    ++ pauses ∷ run_loop tray 1 true rest
run_loop tray backoff held (signalled control ∷ rest) =
    begins held ++ starts tray control ++ closes ∷ removes_ctl ∷ []
