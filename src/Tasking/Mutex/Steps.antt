-- ===== src/Tasking/Mutex/Steps.antt =====
-- The interleavings of threads that use one mutex (kernel/tasking/Mutex.cpp).
use nusa_os.Common.{ℕ, ◌+◌, ◌-◌, ◌<◌, ◌≡◌, Bool, true, false, ◌==◌, if◌then◌else◌}
use nusa_os.Tasking.Mutex.{Mutex, init, try_lock, count, release}

-- What a thread is at: the acquisitions it has finished and not released, and whether it has won
-- the exchange of another one and not yet counted it.
pub record Thread : Type 0 where
  pub depth : ℕ
  pub entering : Bool

pub record System : Type 0 where
  pub mutex : Mutex
  pub threads : ℕ → Thread

abbrev pub update : (ℕ → Thread) → ℕ → Thread → ℕ → Thread
update threads tid t u = if tid == u then t else threads u

abbrev pub start : System
start = record { mutex = init; threads = λ _. record { depth = 0; entering = false } }

-- A thread starts an acquisition or a release only when it is not inside one, and it releases only
-- what it has acquired.
pub data Step : System → System → Type 0 where
  tries :
      (s : System) (tid : ℕ)
      → (s.threads tid).entering ≡ false
      → Step s (record {
        mutex = (try_lock s.mutex tid).1;
        threads =
            update s.threads tid (record (s.threads tid) { entering = (try_lock s.mutex tid).0 });
      })
  counts :
      (s : System) (tid : ℕ)
      → (s.threads tid).entering ≡ true
      → Step s (record {
        mutex = count s.mutex;
        threads =
            update s.threads tid (record { depth = (s.threads tid).depth + 1; entering = false });
      })
  releases :
      (s : System) (tid : ℕ)
      → (s.threads tid).entering ≡ false
      → 0 < (s.threads tid).depth
      → Step s (record {
        mutex = release s.mutex;
        threads =
            update s.threads tid (record (s.threads tid) { depth = (s.threads tid).depth - 1 });
      })

pub data Reachable : System → Type 0 where
  begins : Reachable start
  goes_on : {s t : System} → Reachable s → Step s t → Reachable t
