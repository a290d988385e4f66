-- ===== src/Threads.antt =====
-- thread/Thread.cpp and thread/MutexLock.cpp: threads and locks, by the results of the pthread calls.
use aosproject.Prelude.{
  ℕ, ◌≡◌, ◌≢◌, ◌↔◌, Bool, true, false, Option, none, some, arith, ◌==◌, if◌then◌else◌, ℤ, pos,
  ◌==ℤ◌, ==ℤ_iff,
}

-- `m_thread`, where 0 stands for no thread.
pub record Thread : Type 0 where
  pub m_thread : ℕ

abbrev pub new : Thread
new = record { m_thread = 0 }

-- `start`, with the result of `pthread_create` and what it leaves in `m_thread`.
unfoldable pub start : ℤ → ℕ → Thread → ℕ × Thread
start result created t = ((if result ==ℤ pos 0 then 1 else 0), record t { m_thread = created })

-- `run` of the base class.
abbrev pub run : ℕ
run = 0

-- `join`, with the result of `pthread_join`; `raw` is what `thread_join` happens to hold, which is not set where
-- there is no thread.
unfoldable pub join : ℤ → ℤ → Thread → ℕ
join raw result t =
    let thread_join = if t.m_thread == 0 then raw else result in
    if thread_join ==ℤ pos 0 then 1 else 0

-- `m_lock`: is it held?
pub record MutexLock : Type 0 where
  pub is_held : Bool

abbrev pub new_lock : MutexLock
new_lock = record { is_held = false }

-- `none` waits for another thread. A lock that its own thread holds is never given.
unfoldable pub lock : MutexLock → Option (Bool × MutexLock)
lock l = if l.is_held then none else some (true, record l { is_held = true })

unfoldable pub unlock : MutexLock → Bool × MutexLock
unlock l = (true, record l { is_held = false })

-- A thread that was started is joined with the result of the call, and one that was not reports what
-- happened to lie in memory.
pub join-start :
    (raw result : ℤ) (created : ℕ) (t : Thread)
    → (created ≢ 0 → (join raw result (start (pos 0) created t).1 ≡ 1) ↔ (result ≡ pos 0))
      × ((join raw result new ≡ 1) ↔ (raw ≡ pos 0))
unfolding join start
join-start raw result created t =
    ((λ h. ground (arith, ==ℤ_iff result (pos 0), h)), ground (arith, ==ℤ_iff raw (pos 0)))

-- A lock that was taken is not given again, and its unlock leaves it as it was before.
pub unlock-lock :
    (l : MutexLock) {b : Bool} {l' : MutexLock}
    → lock l ≡ some (b, l')
    → (lock l' ≡ none) × (unlock l' ≡ (true, l))
unfolding lock unlock
unlock-lock l e = ground arith
