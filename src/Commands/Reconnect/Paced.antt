-- ===== src/Commands/Reconnect/Paced.antt =====
-- The waits of the reconnecting loop of cmd/client/main.go, and its tunnels one after another.
use vlgr.Prelude.{
  ℕ, suc, ◌^◌, ◌≡◌, refl, Bool, true, false, not, ◌&&◌, List, [], ◌∷◌, ap, arith, ltb,
  if◌then◌else◌,
}
use vlgr.Commands.{next_backoff}
use vlgr.Commands.Reconnect.{
  Attempt, fails, fails_signalled, ran, signalled, Act, closes, removes_ctl, connects, writes_ctl,
  shows, hides, runs, pauses, waits, begins, starts, run_loop,
}

abbrev pub at_most_30 : ℕ → ℕ
at_most_30 n = if ltb 30 n then 30 else n

-- The seconds that the attempts are to wait, where `k` of them have failed since the last success.
abbrev pub schedule : ℕ → List Attempt → List ℕ
schedule k [] = []
schedule k (fails ∷ rest) = at_most_30 (2 ^ k) ∷ schedule (suc k) rest
schedule k (fails_signalled ∷ rest) = at_most_30 (2 ^ k) ∷ []
schedule k (ran control ∷ rest) = schedule 0 rest
schedule k (signalled control ∷ rest) = []

abbrev pub waited : List Act → List ℕ
waited [] = []
waited (waits s ∷ acts) = s ∷ waited acts
waited (closes ∷ acts) = waited acts
waited (removes_ctl ∷ acts) = waited acts
waited (connects ∷ acts) = waited acts
waited (writes_ctl ∷ acts) = waited acts
waited (shows ∷ acts) = waited acts
waited (hides ∷ acts) = waited acts
waited (runs ∷ acts) = waited acts
waited (pauses ∷ acts) = waited acts

-- Tunnels are connected and closed in turn, and run or are shown only between the two.
abbrev pub in_turn : Bool → List Act → Bool
in_turn held [] = true
in_turn held (connects ∷ acts) = not held && in_turn true acts
in_turn held (closes ∷ acts) = held && in_turn false acts
in_turn held (runs ∷ acts) = held && in_turn held acts
in_turn held (removes_ctl ∷ acts) = in_turn held acts
in_turn held (writes_ctl ∷ acts) = held && in_turn held acts
in_turn held (shows ∷ acts) = held && in_turn held acts
in_turn held (hides ∷ acts) = in_turn held acts
in_turn held (pauses ∷ acts) = in_turn held acts
in_turn held (waits s ∷ acts) = in_turn held acts

next_backoff-at_most_30 : (k : ℕ) → next_backoff (at_most_30 (2 ^ k)) ≡ at_most_30 (2 ^ suc k)
unfolding next_backoff
next_backoff-at_most_30 k = ground arith

run_loop-waited :
    (tray : Bool) (k : ℕ) (held : Bool) (attempts : List Attempt)
    → waited (run_loop tray (at_most_30 (2 ^ k)) held attempts) ≡ schedule k attempts
unfolding run_loop begins starts
run_loop-waited tray k held [] = refl
run_loop-waited tray k true (fails ∷ rest) =
    ap (λ s. at_most_30 (2 ^ k) ∷ s)
      (rw (next_backoff-at_most_30 k) (run_loop-waited tray (suc k) true rest))
run_loop-waited tray k false (fails ∷ rest) =
    ap (λ s. at_most_30 (2 ^ k) ∷ s)
      (rw (next_backoff-at_most_30 k) (run_loop-waited tray (suc k) true rest))
run_loop-waited tray k held (fails_signalled ∷ rest) = ground arith
run_loop-waited tray k held (ran control ∷ rest) = ground (arith, run_loop-waited tray 0 true rest)
run_loop-waited tray k held (signalled control ∷ rest) = ground arith

run_loop-in_turn :
    (tray : Bool) (backoff : ℕ) (held : Bool) (attempts : List Attempt)
    → in_turn held (run_loop tray backoff held attempts) ≡ true
unfolding run_loop begins starts
run_loop-in_turn tray backoff held [] = refl
run_loop-in_turn tray backoff held (fails ∷ rest) =
    ground (arith, run_loop-in_turn tray (next_backoff backoff) true rest)
run_loop-in_turn tray backoff held (fails_signalled ∷ rest) = ground arith
run_loop-in_turn tray backoff held (ran control ∷ rest) =
    ground (arith, run_loop-in_turn tray 1 true rest)
run_loop-in_turn tray backoff held (signalled control ∷ rest) = ground arith

-- Whatever becomes of the attempts, the client waits, after a failure that follows `k` others since
-- it was last connected, for 2 to the power of `k` seconds and at most 30; and it closes the tunnel
-- of an attempt before it connects that of the next, and runs it only in between.
pub run_loop-schedule :
    (tray : Bool) (attempts : List Attempt)
    → (waited (run_loop tray 1 false attempts) ≡ schedule 0 attempts)
      × (in_turn false (run_loop tray 1 false attempts) ≡ true)
run_loop-schedule tray attempts =
    (run_loop-waited tray 0 false attempts, run_loop-in_turn tray 1 false attempts)
