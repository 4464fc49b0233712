-- ===== src/Client/Answer.antt =====
-- SendToServerCallback and RecvFromServerCallback end without a fault and leave the array right.
use tcpframe.Prelude.{ℕ, ◌-◌, ◌<◌, ◌≡◌, true, arith, done}
use tcpframe.Prelude.Safe.{Safe, Safe-done, Safe-bind, Safe-weaken}
use tcpframe.Os.{
  Os, OsLaws, Mask, CtlOp, ReadResult, got, closed, read_again, read_interrupted, read_failed,
}
use tcpframe.Client.Types.{Worker}
use tcpframe.Client.Events.{replace_client}
use tcpframe.Client.Callbacks.{
  Outcome, moved, again, later, broken, write_loop, finish_write, note_send,
  send_to_server_callback, read_loop, finish_read, note_recv, recv_from_server_callback,
}
use tcpframe.Client.Places.{is_open, IsSound}
use tcpframe.Client.Local.{Local, Local-trans}
use tcpframe.Client.Reuse.{replace-Local}
use tcpframe.Client.Serve.{Written, write_loop-Written, ReadIn, read_loop-ReadIn}
use tcpframe.Client.Stamp.{Stamped, note_send-Stamped, note_recv-Stamped}
use tcpframe.Client.Finish.{finish_write-Local, finish_read-Local}

module _ (os : Os) (laws : OsLaws os)
    (works : (w : os.World) (op : CtlOp) (fd : ℕ) (m : Mask)
      → (os.epoll_ctl w op fd m).0 ≡ true) where
  -- Where epoll_ctl does not fail, SendToServerCallback on a taken place of a right array, whose client
  -- has bytes left to send, ends without a fault (or by exit()), keeps the array right, leaves the
  -- clients of the other places as they were, and leaves every client ready for its next event if
  -- all were. Enough rounds are the signals that may interrupt the writes.
  pub send_to_server_callback-Local :
      (fuel : ℕ) (w : os.World) (s : Worker) (i : ℕ)
      → IsSound s
      → i < s.need_client_num
      → is_open (s.clients i) ≡ true
      → (s.clients i).sended_len < (s.clients i).send_buf_len
      → laws.signals (note_send os w s i).1 < fuel
      → Safe (λ (s', w'). Local i s s') (send_to_server_callback os fuel w s i)
  unfolding send_to_server_callback
  send_to_server_callback-Local fuel w s i v lt o left enough =
      let (s1, w1) = note_send os w s i in
      let t = note_send-Stamped s i v lt o os w in
      let lt1 : i < s1.need_client_num = ground (arith, t.touched.kept.places, lt) in
      let c = s1.clients i in
      let u = t.touched.kept.sound.each i lt1 in
      Safe-bind _ _ (write_loop os fuel w1 c) _
        (write_loop-Written os laws fuel w1 c (ground (arith, t.sended, t.to_send, left))
          u.send_room enough)
        λ (r, w2) p. by_result s1 t lt1 r w2 p
    where
      by_result :
          (s1 : Worker) (t : Stamped s i s1) (lt1 : i < s1.need_client_num) (r : Outcome)
          (w2 : os.World)
          → Written (s1.clients i) r
          → Safe {A = Worker × os.World}
              (λ (s', w'). Local i s s')
              (elim r [
                | moved n ↦ finish_write os w2 s1 i n
                | again ↦ done (s1, w2)
                | later ↦ done (s1, w2)
                | broken ↦ replace_client os w2 s1 i
              ])
      by_result s1 t lt1 (moved n) w2 p =
          Safe-weaken _ _ (finish_write os w2 s1 i n)
            (finish_write-Local os works w2 s1 i n t.touched.kept.sound lt1 t.touched.taken p)
            λ (s', w') k. Local-trans i s s1 s' t.near k
      by_result s1 t lt1 again w2 p = Safe-done _ _ t.near
      by_result s1 t lt1 later w2 p = Safe-done _ _ t.near
      by_result s1 t lt1 broken w2 p =
          Safe-weaken _ _ (replace_client os w2 s1 i)
            (replace-Local os works w2 s1 i t.touched.kept.sound lt1 t.touched.taken)
            λ (s', w') k. Local-trans i s s1 s' t.near k

  -- Where epoll_ctl does not fail, RecvFromServerCallback on a taken place of a right array ends
  -- without a fault or by exit(); where it returns, it keeps the array right, leaves the clients of
  -- the other places as they were, and leaves every client ready for its next event if all were.
  -- Enough rounds are the signals that may interrupt the reads.
  pub recv_from_server_callback-Local :
      (fuel : ℕ) (w : os.World) (s : Worker) (i : ℕ)
      → IsSound s
      → i < s.need_client_num
      → is_open (s.clients i) ≡ true
      → laws.signals (note_recv os w s i).1 < fuel
      → Safe (λ (s', w'). Local i s s') (recv_from_server_callback os fuel w s i)
  unfolding recv_from_server_callback
  recv_from_server_callback-Local fuel w s i v lt o enough =
      let (s1, w1) = note_recv os w s i in
      let t = note_recv-Stamped s i v lt o os w in
      let lt1 : i < s1.need_client_num = ground (arith, t.touched.kept.places, lt) in
      Safe-bind _ _ (read_loop os fuel w1 (s1.clients i)) _
        (read_loop-ReadIn os laws fuel w1 (s1.clients i) enough)
        λ (r, w2) p. by_result s1 t lt1 r w2 p
    where
      replaced :
          (s1 : Worker) (t : Stamped s i s1) (lt1 : i < s1.need_client_num) (w2 : os.World)
          → Safe (λ (s', w'). Local i s s') (replace_client os w2 s1 i)
      replaced s1 t lt1 w2 =
          Safe-weaken _ _ (replace_client os w2 s1 i)
            (replace-Local os works w2 s1 i t.touched.kept.sound lt1 t.touched.taken)
            λ (s', w') k. Local-trans i s s1 s' t.near k

      by_result :
          (s1 : Worker) (t : Stamped s i s1) (lt1 : i < s1.need_client_num) (r : ReadResult)
          (w2 : os.World)
          → ReadIn (4097 - (s1.clients i).recv_buf_len) r
          → Safe {A = Worker × os.World}
              (λ (s', w'). Local i s s')
              (elim r [
                | got bs ↦ finish_read os w2 s1 i bs
                | closed ↦ replace_client os w2 s1 i
                | read_again ↦ done (s1, w2)
                | read_interrupted ↦ done (s1, w2)
                | read_failed ↦ replace_client os w2 s1 i
              ])
      by_result s1 t lt1 (got bs) w2 p =
          Safe-weaken _ _ (finish_read os w2 s1 i bs)
            (finish_read-Local os works w2 s1 i bs t.touched.kept.sound lt1 t.touched.taken p)
            λ (s', w') k. Local-trans i s s1 s' t.near k
      by_result s1 t lt1 closed w2 p = replaced s1 t lt1 w2
      by_result s1 t lt1 read_again w2 p = Safe-done _ _ t.near
      by_result s1 t lt1 read_interrupted w2 p = Safe-done _ _ t.near
      by_result s1 t lt1 read_failed w2 p = replaced s1 t lt1 w2
