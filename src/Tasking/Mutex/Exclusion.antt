-- ===== src/Tasking/Mutex/Exclusion.antt =====
-- Mutual exclusion of the mutex (kernel/tasking/Mutex.cpp), over all interleavings.
use nusa_os.Common.{
  ℕ, ◌+◌, ◌-◌, ◌<◌, ◌≡◌, ◌≢◌, refl, ◌∙◌, sym, ap, subst, true, false, Option, none, some, ◌==◌,
  if◌then◌else◌, Bool-cases, inl, inr, ◌⊎◌, arith, ℕ_discrete, ==_refl,
}
use nusa_os.Tasking.Mutex.{init, exchange, try_lock, count, release}
use nusa_os.Tasking.Mutex.Steps.{
  Thread, System, update, Step, tries, counts, releases, Reachable, begins, goes_on,
}

-- A thread outside the lock.
abbrev pub IsIdle : Thread → Type 0
IsIdle t = (t.depth ≡ 0) × (t.entering ≡ false)

abbrev pub IsInside : Thread → Type 0
IsInside t = (0 < t.depth) ⊎ (t.entering ≡ true)

-- A free mutex has no thread inside and a count of 0; a held one has its holder alone inside, and
-- counts the holder's acquisitions.
abbrev pub Agrees : Option ℕ → ℕ → (ℕ → Thread) → Type 0
Agrees none times threads = (times ≡ 0) × ((u : ℕ) → IsIdle (threads u))
Agrees (some t) times threads =
    (times ≡ (threads t).depth) × IsInside (threads t) × ((u : ℕ) → u ≢ t → IsIdle (threads u))

abbrev pub IsSound : System → Type 0
IsSound s = Agrees s.mutex.holding_thread s.mutex.times_locked s.threads

update-here : (threads : ℕ → Thread) (tid : ℕ) (t : Thread) → update threads tid t tid ≡ t
update-here threads tid t = let same = ==_refl tid in rw same refl

update-other :
    (threads : ℕ → Thread) (tid u : ℕ) (t : Thread) → u ≢ tid → update threads tid t u ≡ threads u
update-other threads tid u t h = let other : (tid == u) ≡ false = ground arith in rw other refl

-- A thread changes itself inside the lock that it holds.
Agrees-update :
    (threads : ℕ → Thread) (tid times : ℕ) (t : Thread)
    → times ≡ t.depth
    → IsInside t
    → ((u : ℕ) → u ≢ tid → IsIdle (threads u))
    → Agrees (some tid) times (update threads tid t)
Agrees-update threads tid times t count' inside others = (
  count' ∙ ap (λ x. x.depth) (sym (update-here threads tid t)),
  subst IsInside (sym (update-here threads tid t)) inside,
  λ u h. subst IsIdle (sym (update-other threads tid u t h)) (others u h),
)

-- What a thread does that is idle before and after.
Idle-update :
    (threads : ℕ → Thread) (tid u : ℕ) (t : Thread)
    → IsIdle t
    → (u ≢ tid → IsIdle (threads u))
    → IsIdle (update threads tid t u)
Idle-update threads tid u t idle others = elim (ℕ_discrete u tid) [
  | yes same ↦
      subst (λ v. IsIdle (update threads tid t v)) (sym same)
        (subst IsIdle (sym (update-here threads tid t)) idle)
  | no other ↦ subst IsIdle (sym (update-other threads tid u t other)) (others other)
]

tries-lost :
    (t times : ℕ) (threads : ℕ → Thread) (tid : ℕ)
    → t ≢ tid
    → (threads tid).entering ≡ false
    → Agrees (some t) times threads
    → Agrees (some t) times (update threads tid (record (threads tid) { entering = false }))
tries-lost t times threads tid other out (count', inside, others) =
    let same = update-other threads tid t (record (threads tid) { entering = false }) other in
    (
      count' ∙ ap (λ x. x.depth) (sym same),
      subst IsInside (sym same) inside,
      λ u h.
          Idle-update threads tid u (record (threads tid) { entering = false })
            ((others tid (λ e. other (sym e))).0, refl) (λ _. others u h),
    )

tries-IsSound :
    (holder : Option ℕ) (times : ℕ) (threads : ℕ → Thread) (tid : ℕ)
    → (threads tid).entering ≡ false
    → Agrees holder times threads
    → Agrees
        (exchange holder tid).1
        times
        (update threads tid (record (threads tid) { entering = (exchange holder tid).0 }))
tries-IsSound none times threads tid out (zero', idle) =
    Agrees-update threads tid times (record (threads tid) { entering = true })
      (zero' ∙ sym (idle tid).0) (inr refl) (λ u _. idle u)
tries-IsSound (some t) times threads tid out a = elim (ℕ_discrete t tid) [
  | yes same ↦
      let (count', inside, others) = subst (λ x. Agrees (some x) times threads) same a in
      subst
        (λ x.
          Agrees (some x) times (update threads tid (record (threads tid) { entering = x == tid })))
        (sym same)
        (subst
          (λ b.
            Agrees (some tid) times (update threads tid (record (threads tid) { entering = b })))
          (sym (==_refl tid))
          (Agrees-update threads tid times (record (threads tid) { entering = true }) count'
            (inr refl) others))
  | no other ↦
      let lost : (t == tid) ≡ false = ground arith in
      subst
        (λ b. Agrees (some t) times (update threads tid (record (threads tid) { entering = b })))
        (sym lost) (tries-lost t times threads tid other out a)
]

counts-IsSound :
    (holder : Option ℕ) (times : ℕ) (threads : ℕ → Thread) (tid : ℕ)
    → (threads tid).entering ≡ true
    → Agrees holder times threads
    → Agrees holder
        (times + 1)
        (update threads tid (record { depth = (threads tid).depth + 1; entering = false }))
counts-IsSound none times threads tid e (zero', idle) = let out = (idle tid).1 in cc
counts-IsSound (some t) times threads tid e a = elim (ℕ_discrete t tid) [
  | yes same ↦
      let (count', inside, others) = subst (λ x. Agrees (some x) times threads) same a in
      let t' : Thread = record { depth = (threads tid).depth + 1; entering = false } in
      subst (λ x. Agrees (some x) (times + 1) (update threads tid t')) (sym same)
        (Agrees-update threads tid (times + 1) t' (ap (λ n. n + 1) count') (inl (omega arith))
          others)
  | no other ↦ let out = (a.2 tid (λ h. other (sym h))).1 in cc
]

released :
    (times : ℕ) (threads : ℕ → Thread) (tid : ℕ)
    → (threads tid).entering ≡ false
    → 0 < (threads tid).depth
    → Agrees (some tid) times threads
    → Agrees
        (if times == 1 then none else some tid)
        (times - 1)
        (update threads tid (record (threads tid) { depth = (threads tid).depth - 1 }))
released times threads tid e pos (count', inside, others) =
    let t' = record (threads tid) { depth = (threads tid).depth - 1 } in
    elim (Bool-cases (times == 1)) [
      | inl last ↦
          let one : times ≡ 1 = ground arith in
          rw last (omega arith, λ u. Idle-update threads tid u t' (omega arith, e) (others u))
      | inr more ↦
          let many : times ≢ 1 = ground arith in
          rw more (
            Agrees-update threads tid (times - 1) t' (ap (λ n. n - 1) count') (inl (omega arith))
              others)
    ]

releases-IsSound :
    (holder : Option ℕ) (times : ℕ) (threads : ℕ → Thread) (tid : ℕ)
    → (threads tid).entering ≡ false
    → 0 < (threads tid).depth
    → Agrees holder times threads
    → Agrees
        (if times == 1 then none else holder)
        (times - 1)
        (update threads tid (record (threads tid) { depth = (threads tid).depth - 1 }))
releases-IsSound none times threads tid e pos (zero', idle) =
    let out = (idle tid).0 in absurd (omega arith)
releases-IsSound (some t) times threads tid e pos a = elim (ℕ_discrete t tid) [
  | yes same ↦
      subst
        (λ x.
          Agrees (if times == 1 then none else some x) (times - 1)
            (update threads tid (record (threads tid) { depth = (threads tid).depth - 1 })))
        (sym same)
        (released times threads tid e pos (subst (λ x. Agrees (some x) times threads) same a))
  | no other ↦ let out = (a.2 tid (λ h. other (sym h))).0 in absurd (omega arith)
]

Step-IsSound : (s t : System) → IsSound s → Step s t → IsSound t
unfolding try_lock count release
Step-IsSound s t a (tries r tid out) =
    tries-IsSound s.mutex.holding_thread s.mutex.times_locked s.threads tid out a
Step-IsSound s t a (counts r tid e) =
    counts-IsSound s.mutex.holding_thread s.mutex.times_locked s.threads tid e a
Step-IsSound s t a (releases r tid e pos) =
    releases-IsSound s.mutex.holding_thread s.mutex.times_locked s.threads tid e pos a

pub Reachable-IsSound : (s : System) → Reachable s → IsSound s
unfolding init
Reachable-IsSound s begins = (refl, λ u. (refl, refl))
Reachable-IsSound s (goes_on r step) = Step-IsSound _ s (Reachable-IsSound _ r) step

inside_one :
    (holder : Option ℕ) (times : ℕ) (threads : ℕ → Thread) (a b : ℕ)
    → Agrees holder times threads
    → 0 < (threads a).depth
    → 0 < (threads b).depth
    → (a ≡ b) × (holder ≡ some a) × (times ≡ (threads a).depth)
inside_one none times threads a b (zero', idle) x y = let out = (idle a).0 in absurd (omega arith)
inside_one (some t) times threads a b (count', inside, others) x y = elim (ℕ_discrete a t) [
  | no other ↦ let out = (others a other).0 in absurd (omega arith)
  | yes same ↦ elim (ℕ_discrete b t) [
    | no other ↦ let out = (others b other).0 in absurd (omega arith)
    | yes same' ↦
        (same ∙ sym same', ap some (sym same), count' ∙ ap (λ u. (threads u).depth) (sym same))
  ]
]

-- Mutual exclusion: in every state that any interleaving of the threads leads to, two threads that
-- have acquired the mutex are the same one; it is the one recorded, and the counter is the number
-- of its acquisitions.
pub mutual_exclusion :
    (s : System) (a b : ℕ)
    → Reachable s
    → 0 < (s.threads a).depth
    → 0 < (s.threads b).depth
    → (a ≡ b) × (s.mutex.holding_thread ≡ some a) × (s.mutex.times_locked ≡ (s.threads a).depth)
mutual_exclusion s a b r x y =
    inside_one s.mutex.holding_thread s.mutex.times_locked s.threads a b (Reachable-IsSound s r) x y

free_exchange :
    (holder : Option ℕ) (times : ℕ) (threads : ℕ → Thread) (tid : ℕ)
    → Agrees holder times threads
    → ((u : ℕ) → IsIdle (threads u))
    → (exchange holder tid).0 ≡ true
free_exchange none times threads tid a idle = refl
free_exchange (some t) times threads tid (count', inl x, others) idle =
    let out = (idle t).0 in absurd (omega arith)
free_exchange (some t) times threads tid (count', inr x, others) idle = let out = (idle t).1 in cc

-- No lock is left behind: in every state that is reached, if no thread is inside, whichever thread
-- tries next gets the mutex at once.
pub try_lock-free :
    (s : System) (tid : ℕ)
    → Reachable s
    → ((u : ℕ) → IsIdle (s.threads u))
    → (try_lock s.mutex tid).0 ≡ true
unfolding try_lock
try_lock-free s tid r idle =
    free_exchange s.mutex.holding_thread s.mutex.times_locked s.threads tid (Reachable-IsSound s r)
      idle
