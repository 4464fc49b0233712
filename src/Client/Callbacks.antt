-- ===== src/Client/Callbacks.antt =====
-- client/http/worker.c: SendToServerCallback and RecvFromServerCallback. What they return is looked
-- at nowhere.
use tcpframe.Prelude.{
  ℕ, zero, suc, ◌+◌, ◌-◌, ◌%◌, ltb, leb, ◌==◌, if◌then◌else◌, List, update, Option, none, some, Run,
  done, exits, fault, out_of_fuel, ◌>>=◌,
}
use tcpframe.Prelude.Int.{pos, negsuc, sub_ℕ}
use tcpframe.Prelude.Bytes.{length, read_at, write_at}
use tcpframe.Os.{
  Os, event_readable, event_writable, ReadResult, got, closed, read_again, read_interrupted,
  read_failed, wrote, write_again, write_interrupted, write_failed, eintr, eagain, other_error,
}
use tcpframe.Client.Types.{
  ClientFd, Worker, recv_from_server, with_client, incr, word, max_recv_buf_len, max_send_buf_len,
  to_uint64, get_usec_time,
}
use tcpframe.Client.Events.{
  reactor_add_event, reactor_del_event, replace_client, reactor_close_connection_normal,
}

-- What write() on the descriptor comes to: the number of bytes written, or what the error asks for.
pub data Outcome : Type 0 where
  moved : ℕ → Outcome
  again : Outcome
  later : Outcome
  broken : Outcome

module _ (os : Os) where
  open os use {World, read, write, errno}

  -- One write(). A result of 0 is taken for an error, by what errno then holds; the descriptor -1 is
  -- refused.
  unfoldable pub write_once : World → Option ℕ → List ℕ → Outcome × World
  write_once w none bs = (broken, w)
  write_once w (some fd) bs =
      let (result, w') = write w fd bs in
      let stale : Outcome = elim (errno w') [
        | eintr ↦ again
        | eagain ↦ later
        | other_error ↦ broken
      ] in
      (
        elim result [
          | wrote n ↦ if n == 0 then stale else moved n
          | write_again ↦ later
          | write_interrupted ↦ again
          | write_failed ↦ broken
        ],
        w',
      )

  -- The loop around write(); the fuel bounds the calls that a signal interrupts. The bytes are those
  -- of the send buffer of 4097 bytes.
  unfoldable pub write_loop : ℕ → World → ClientFd → Run (Outcome × World)
  unfolding write_once
  write_loop zero w c = out_of_fuel
  write_loop (suc k) w c =
      let size = (c.send_buf_len + (word - c.sended_len)) % word in
      let (result, w') = write_once w c.fd (read_at c.send_buf c.sended_len size) in
      let turn : Run (Outcome × World) = elim result [
        | moved n ↦ done (moved n, w')
        | again ↦ write_loop k w' c
        | later ↦ done (later, w')
        | broken ↦ done (broken, w')
      ] in
      if leb (c.sended_len + size) (max_send_buf_len + 1) then turn else fault

  -- What SendToServerCallback does once bytes were written.
  unfoldable pub finish_write : World → Worker → ℕ → ℕ → Run (Worker × World)
  finish_write w s i n =
      let c = record (s.clients i) { sended_len = (s.clients i).sended_len + n } in
      let s1 = record (with_client s i c) { total_requests = incr s.total_requests } in
      let turn : Run (Worker × World) = do
        (r2, s2, w2) ← reactor_del_event os w s1 i event_writable
        (r3, s3, w3) ← reactor_add_event os w2 s2 i event_readable recv_from_server
        done (s3, w3)
      in if c.sended_len == c.send_buf_len then turn else done (s1, w)

  -- The time of the last event of a client.
  unfoldable pub note_touch : World → Worker → ℕ → Worker × World
  note_touch w s i =
      let (now, s1, w1) = get_usec_time os w s in
      (with_client s1 i (record (s1.clients i) { touch_time = now }), w1)

  -- SendToServerCallback, up to the write: the times of the client.
  unfoldable pub note_send : World → Worker → ℕ → Worker × World
  unfolding note_touch
  note_send w s i =
      let (now, s1, w1) = get_usec_time os w s in
      let c = record (s1.clients i) { start_time = now; latency = negsuc 0 } in
      let (s2, w2) : Worker × World =
        if (s.clients i).sended_len == 0 then (with_client s1 i c, w1) else (s, w) in
      note_touch w2 s2 i

  -- SendToServerCallback
  unfoldable pub send_to_server_callback : ℕ → World → Worker → ℕ → Run (Worker × World)
  send_to_server_callback fuel w s i =
      let (s1, w1) = note_send w s i in
      write_loop fuel w1 (s1.clients i) >>= λ (result, w2). elim result [
        | moved n ↦ finish_write w2 s1 i n
        | again ↦ done (s1, w2)
        | later ↦ done (s1, w2)
        | broken ↦ replace_client os w2 s1 i
      ]

  unfoldable pub read_once : World → Option ℕ → ℕ → ReadResult × World
  read_once w fd n = elim fd [ none ↦ (read_failed, w) | some f ↦ read w f n ]

  -- The loop around read(); a result of 0 bytes is the end of the stream.
  unfoldable pub read_loop : ℕ → World → ClientFd → Run (ReadResult × World)
  read_loop zero w c = out_of_fuel
  read_loop (suc k) w c =
      let (result, w') = read_once w c.fd (max_recv_buf_len + 1 - c.recv_buf_len) in
      elim result [
        | got bs ↦ done (got bs, w')
        | closed ↦ done (closed, w')
        | read_again ↦ done (read_again, w')
        | read_interrupted ↦ read_loop k w' c
        | read_failed ↦ done (read_failed, w')
      ]

  -- A whole response has come in. DecodeResponse takes whatever it gets for one.
  unfoldable pub count_response : World → Worker → ℕ → Run (Worker × World)
  count_response w s i =
      let counted = record s {
        latency = update s.latency s.done_requests (to_uint64 (s.clients i).latency);
        done_requests = incr s.done_requests;
      } in
      reactor_close_connection_normal os w
        (if ltb s.done_requests s.need_request_num then counted else s) i

  -- RecvFromServerCallback once bytes were read.
  unfoldable pub finish_read : World → Worker → ℕ → List ℕ → Run (Worker × World)
  finish_read w s i bs =
      let c = s.clients i in
      let len = c.recv_buf_len + length bs in
      let s1 =
        with_client s i
          (record c { recv_buf = write_at c.recv_buf c.recv_buf_len bs; recv_buf_len = len }) in
      if ltb (max_recv_buf_len + 1) len
      then fault
      else if ltb max_recv_buf_len len
      then exits
      else count_response w s1 i

  -- The latency of the response, at the first read after a request.
  unfoldable pub note_latency : World → Worker → ℕ → Worker × World
  note_latency w s i =
      let (now, s1, w1) = get_usec_time os w s in
      let c = record (s1.clients i) { latency = sub_ℕ now (s1.clients i).start_time } in
      elim (s.clients i).latency [ pos n ↦ (s, w) | negsuc n ↦ (with_client s1 i c, w1) ]

  -- RecvFromServerCallback, up to the read: the times of the client.
  unfoldable pub note_recv : World → Worker → ℕ → Worker × World
  unfolding note_touch note_latency
  note_recv w s i = let (s1, w1) = note_touch w s i in note_latency w1 s1 i

  -- RecvFromServerCallback
  unfoldable pub recv_from_server_callback : ℕ → World → Worker → ℕ → Run (Worker × World)
  recv_from_server_callback fuel w s i =
      let (s1, w1) = note_recv w s i in
      read_loop fuel w1 (s1.clients i) >>= λ (result, w2). elim result [
        | got bs ↦ finish_read w2 s1 i bs
        | closed ↦ replace_client os w2 s1 i
        | read_again ↦ done (s1, w2)
        | read_interrupted ↦ done (s1, w2)
        | read_failed ↦ replace_client os w2 s1 i
      ]
