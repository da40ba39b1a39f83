-- ===== src/Tasking/Mutex.antt =====
-- kernel/tasking/Mutex.cpp: a recursive lock, once tasking is enabled and the kernel does not panic.
-- `m_holding_thread` is an option, `none` for -1. The counter is an `int`; that a thread holds a
-- lock 2^31 times at once is left out. `acquire` is a loop around one atomic exchange, followed by
-- one atomic addition, and other threads run between them; `release` runs in a critical section.
pub mod Steps
pub mod Exclusion
mod Examples
use nusa_os.Common.{ℕ, ◌+◌, ◌-◌, Bool, true, false, Option, none, some, ◌==◌, if◌then◌else◌}

pub record Mutex : Type 0 where
  pub holding_thread : Option ℕ
  pub times_locked : ℕ

pub init : Mutex
init = record { holding_thread = none; times_locked = 0 }

abbrev pub locked : Mutex → Bool
locked m = elim m.holding_thread [ none ↦ false | some t ↦ true ]

abbrev pub holds : Option ℕ → ℕ → Bool
holds none tid = false
holds (some t) tid = t == tid

abbrev pub held_by : Mutex → ℕ → Bool
held_by m tid = holds m.holding_thread tid

-- One round of the loop in `acquire_with_mode`: the exchange and the test after it. True if the
-- loop ends with the lock; if not, `try_acquire` returns false and the others yield and try again.
abbrev pub exchange : Option ℕ → ℕ → Bool × Option ℕ
exchange none tid = (true, some tid)
exchange (some t) tid = (t == tid, some t)

unfoldable pub try_lock : Mutex → ℕ → Bool × Mutex
try_lock m tid =
    let (won, holder) = exchange m.holding_thread tid in (won, record m { holding_thread = holder })

-- `m_times_locked.add(1)`
unfoldable pub count : Mutex → Mutex
count m = record m { times_locked = m.times_locked + 1 }

unfoldable pub release : Mutex → Mutex
release m = record {
  holding_thread = if m.times_locked == 1 then none else m.holding_thread;
  times_locked = m.times_locked - 1;
}
