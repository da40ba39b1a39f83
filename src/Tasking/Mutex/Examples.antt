-- ===== src/Tasking/Mutex/Examples.antt =====
-- The mutex of kernel/tasking/Mutex.cpp with one thread that locks it.
use native.Mathlib.Omega.{arith}
use nusa_os.Common.{ℕ, ◌≡◌, refl, true, false, some}
use nusa_os.Tasking.Mutex.{init, try_lock, count}
use nusa_os.Tasking.Mutex.Steps.{System, update, start, Reachable, Step}
use nusa_os.Tasking.Mutex.Exclusion.{mutual_exclusion, try_lock-free}

-- Thread 5 has won the exchange, and then counted.
abbrev tried : System
tried = record {
  mutex = (try_lock init 5).1;
  threads = update start.threads 5 (record { depth = 0; entering = (try_lock init 5).0 });
}

abbrev entered : System
entered = record {
  mutex = count tried.mutex;
  threads = update tried.threads 5 (record { depth = 1; entering = false });
}

entered-Reachable : Reachable entered
unfolding try_lock init
entered-Reachable =
    Reachable.goes_on (Reachable.goes_on Reachable.begins (Step.tries start 5 refl))
      (Step.counts tried 5 refl)

mutual_exclusion_example :
    (◌≡◌ {A = ℕ} 5 5) × (entered.mutex.holding_thread ≡ some 5) × (entered.mutex.times_locked ≡ 1)
mutual_exclusion_example =
    mutual_exclusion entered 5 5 entered-Reachable (omega arith) (omega arith)

try_lock-free_example : (try_lock start.mutex 7).0 ≡ true
try_lock-free_example = try_lock-free start 7 Reachable.begins (λ u. (refl, refl))
