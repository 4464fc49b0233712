-- ===== src/Client/Types.antt =====
-- client/http/worker.h, and InitConfig and the clock of client/http/worker.c.
--
-- A pointer to a client is its index in the array of the clients; the descriptor -1 of a free place
-- is `none`. The numbers that the code keeps as `unsigned` wrap at 2 ^ 32. The struct of the counts
-- and that of the loop (EpollLoop) are one record, with the cached time of the process.
use tcpframe.Prelude.{
  ℕ, ◌+◌, ◌-◌, ◌*◌, ◌/◌, ◌%◌, Bool, false, leb, ◌==◌, if◌then◌else◌, List, update, Option, none,
}
use tcpframe.Prelude.Int.{ℤ, pos, negsuc}
use tcpframe.Time.{Timeval}
use tcpframe.Os.{Os, Mask, event_none, Protocol, tcp}
use tcpframe.Prelude.Text.{codes}

abbrev pub max_recv_buf_len : ℕ
max_recv_buf_len = 4096

abbrev pub max_send_buf_len : ℕ
max_send_buf_len = 4096

abbrev pub max_fail_count : ℕ
max_fail_count = 1000

abbrev pub connect_timeout : ℕ
connect_timeout = 3

abbrev pub ip_len : ℕ
ip_len = 16

abbrev pub timeout_usec_timeval : ℕ
timeout_usec_timeval = 200000

-- 2 ^ 32
abbrev pub word : ℕ
word = 4294967296

-- `n + 1` and `n - 1` of an unsigned number
abbrev pub incr : ℕ → ℕ
incr n = (n + 1) % word

abbrev pub decr : ℕ → ℕ
decr n = (n + 4294967295) % word

-- The functions that the program registers for a client.
pub data ProcCallback : Type 0 where
  send_to_server recv_from_server : ProcCallback

-- `pep_loop` says whether the two pointers of a place were set: they are NULL at first.
pub record ClientFd : Type 0 where
  pub fd : Option ℕ
  pub mask : Mask
  pub pep_loop : Bool
  pub latency : ℤ
  pub start_time : ℕ
  pub end_time : ℕ
  pub touch_time : ℕ
  pub recv_buf_len : ℕ
  pub sended_len : ℕ
  pub send_buf_len : ℕ
  pub recv_buf : ℕ → ℕ
  pub send_buf : ℕ → ℕ
  pub r_func_proc : Option ProcCallback
  pub w_func_proc : Option ProcCallback

-- struct _pthread_or_process_single_struct
pub record Worker : Type 0 where
  pub reset_client_num : ℕ
  pub timeout_client_num : ℕ
  pub total_requests : ℕ
  pub need_request_num : ℕ
  pub done_requests : ℕ
  pub start_time : ℕ
  pub end_time : ℕ
  pub keepalive : Bool
  pub live_client_num : ℕ
  pub create_client_num : ℕ
  pub need_client_num : ℕ
  pub random_flag : Bool
  pub port : ℕ
  pub protocol : Protocol
  pub host : List ℕ
  pub latency : ℕ → ℕ
  pub stop : ℕ
  pub clients : ℕ → ClientFd
  pub time : Timeval

-- A place after memset and the loop that sets its descriptor to -1.
abbrev pub free_place : ClientFd
free_place = record {
  fd = none;
  mask = event_none;
  pep_loop = false;
  latency = pos 0;
  start_time = 0;
  end_time = 0;
  touch_time = 0;
  recv_buf_len = 0;
  sended_len = 0;
  send_buf_len = 0;
  recv_buf = λ _. 0;
  send_buf = λ _. 0;
  r_func_proc = none;
  w_func_proc = none;
}

-- InitConfig. The array of the clients does not exist yet; InitSingleReactor fills it.
unfoldable pub init_config : Worker
init_config = record {
  reset_client_num = 0;
  timeout_client_num = 0;
  total_requests = 0;
  need_request_num = 50;
  done_requests = 0;
  start_time = 0;
  end_time = 0;
  keepalive = false;
  live_client_num = 0;
  create_client_num = 0;
  need_client_num = 5;
  random_flag = false;
  port = 5113;
  protocol = tcp;
  host = codes "127.0.0.1";
  latency = λ _. 0;
  stop = 1;
  clients = λ _. free_place;
  time = record { sec = 0; usec = 0 };
}

abbrev pub with_client : Worker → ℕ → ClientFd → Worker
with_client s i c = record s { clients = update s.clients i c }

-- Storing an int64 to a place of a uint64.
abbrev pub to_uint64 : ℤ → ℕ
to_uint64 (pos n) = n % 18446744073709551616
to_uint64 (negsuc n) = 18446744073709551615 - n % 18446744073709551616

-- CompareLatency: the difference of two uint64 numbers, as an int.
unfoldable pub compare_latency : ℕ → ℕ → ℤ
compare_latency a b =
    let d = (a + (18446744073709551616 - b)) % word in
    if leb d 2147483647 then pos d else negsuc (4294967295 - d)

module _ (os : Os) where
  open os use {World, gettimeofday}

  -- TouchTime
  unfoldable pub touch_time : World → Worker → Worker × World
  touch_time w s = let (now, w') = gettimeofday w in (record s { time = now }, w')

  -- The clock is read where the seconds of the cached time are 0.
  unfoldable pub ensure_time : World → Worker → Worker × World
  unfolding touch_time
  ensure_time w s = let (s', w') = touch_time w s in if s.time.sec == 0 then (s', w') else (s, w)

  -- GetmsecTime
  unfoldable pub get_msec_time : World → Worker → ℕ × Worker × World
  unfolding ensure_time
  get_msec_time w s =
      let (s', w') = ensure_time w s in (s'.time.sec * 1000 + s'.time.usec / 1000, s', w')

  -- GetusecTime
  unfoldable pub get_usec_time : World → Worker → ℕ × Worker × World
  unfolding ensure_time
  get_usec_time w s =
      let (s', w') = ensure_time w s in (s'.time.sec * 1000000 + s'.time.usec, s', w')
