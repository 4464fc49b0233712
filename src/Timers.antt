-- ===== src/Timers.antt =====
-- src/reactor.c: RegisterTimerOutEvent, UnregisterTimerOutEvent, GetEPollwaitTimeoutValue and the
-- timeout that ReactorEventDispatchLoop hands to epoll_wait.
pub mod Register
pub mod Wait
use tcpframe.Prelude.{
  ℕ, ◌+◌, ◌*◌, ◌/◌, ◌%◌, Bool, true, false, ◌==◌, if◌then◌else◌, update, Run, done, ◌>>=◌, Ret,
  ret_succ, ret_fail,
}
use tcpframe.Prelude.Int.{ℤ, pos, negsuc, ◌+ℤ◌, sub_ℕ, to_int}
use tcpframe.Time.{Timeval, TimeDiff, timercmp_le, timeradd, timersub}
use tcpframe.MinHeap
use tcpframe.MinHeap.{MinHeap, TimeoutEvent, null, get_top_element}
use tcpframe.Os.{Os}
use tcpframe.Reactor.{EventBase}

-- The interval of so many milliseconds, as the code splits it: the remainder of the division by
-- 1000 is stored as microseconds.
unfoldable pub interval_of : ℕ → Timeval
interval_of ms = record { sec = ms / 1000; usec = ms % 1000 }

-- The node with its interval, and its deadline counted from the cached time.
unfoldable pub schedule : Timeval → TimeoutEvent → ℕ → TimeoutEvent
schedule now t ms = record t { interval = interval_of ms; timeout = timeradd now (interval_of ms) }

-- RegisterTimerOutEvent of a node that is not NULL. What MinheapErase and MinHeapPush return is
-- not looked at.
unfoldable pub register_timer_out_event : (ℕ → Bool) → EventBase → ℕ → ℕ → Run (Ret × EventBase)
register_timer_out_event realloc b p ms = if p == null then done (ret_fail, b) else do
  let h = b.heap
  let set = record h { nodes = update h.nodes p (schedule b.time_cache (h.nodes p) ms) }
  (erased, h1) ← MinHeap.erase set p
  (pushed, h2) ← MinHeap.push realloc h1 p
  done (ret_succ, record b { heap = h2 })

-- UnregisterTimerOutEvent
unfoldable pub unregister_timer_out_event : EventBase → ℕ → Run (Ret × EventBase)
unregister_timer_out_event b p =
    if p == null
    then done (ret_fail, b)
    else do (r, h) ← MinHeap.erase b.heap p; done (r, record b { heap = h })

-- int division by 1000, which truncates towards 0
abbrev pub div_thousand : ℤ → ℤ
div_thousand (pos n) = pos (n / 1000)
div_thousand (negsuc n) = sub_ℕ 0 ((n + 1) / 1000)

abbrev pub times_thousand : ℤ → ℤ
times_thousand (pos n) = pos (n * 1000)
times_thousand (negsuc n) = negsuc (n * 1000 + 999)

-- The timeout of epoll_wait, in milliseconds, which the code keeps in an int: -1 waits for an event without end.
unfoldable pub epollwait_timeout : Ret → TimeDiff → ℤ
epollwait_timeout ret_fail save = negsuc 0
epollwait_timeout ret_succ save =
    to_int (times_thousand save.sec +ℤ div_thousand (save.usec +ℤ pos 999))

module _ (os : Os) where
  open os use {World, gettimeofday}

  -- The cached time, read anew where its seconds are 0.
  unfoldable pub refresh : World → EventBase → EventBase × World
  refresh w b =
      let (now, w') = gettimeofday w in
      if b.time_cache.sec == 0 then (record b { time_cache = now }, w') else (b, w)

  -- GetEPollwaitTimeoutValue: RET_FAIL stands for the result -1, RET_SUCC for 0; `save` is what the
  -- caller's struct holds before.
  unfoldable pub get_epollwait_timeout_value :
      World → EventBase → TimeDiff → Run (Ret × TimeDiff × EventBase × World)
  get_epollwait_timeout_value w b save = get_top_element b.heap >>= λ top.
      let (b', w') = refresh w b in
      let deadline = (b.heap.nodes top).timeout in
      if top == null
      then done (ret_fail, save, b, w)
      else if timercmp_le b'.time_cache deadline
      then done (ret_succ, timersub deadline b'.time_cache, b', w')
      else done (ret_succ, record { sec = pos 0; usec = pos 0 }, b', w')
