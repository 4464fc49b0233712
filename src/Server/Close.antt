-- ===== src/Server/Close.antt =====
-- __DestroyConn leaves nothing of a connection.
use tcpframe.Prelude.{
  ℕ, ◌-◌, ◌≤◌, ◌<◌, ◌≡◌, refl, sym, ◌≢◌, true, ltb, arith, done, none, some, Returns, Returns-bind,
}
use tcpframe.Prelude.Int.{negsuc, ◌+ℤ◌}
use tcpframe.MinHeap.{parent}
use tcpframe.MinHeap.Order.{rank, IsValid}
use tcpframe.MinHeap.Remove.{Removed}
use tcpframe.Os.{Os, OsLaws, event_both, event_none, overlaps, without}
use tcpframe.Reactor.{with_event, del_op, fd_file_event_init}
use tcpframe.Reactor.Events.{Mirrors, event_del-Mirrors}
use tcpframe.Timers.{unregister_timer_out_event}
use tcpframe.Timers.Register.{unregister-Removed}
use tcpframe.Conn.{ConnFd}
use tcpframe.Server.Defs.{Server, deref, release_conn, destroy_conn}

-- The connection at `p`, with its descriptor and its timer, is gone, and nothing else has changed.
pub record Destroyed (s : Server) (p : ℕ) (c : ConnFd) (s' : Server) : Type 0 where
  pub freed : s'.conns p ≡ none
  pub others : (q : ℕ) → q ≢ p → s'.conns q ≡ s.conns q
  pub unwatched : (s'.base.fd_events c.fd).mask ≡ event_none
  pub callbacks :
      ((s'.base.fd_events c.fd).callback_read ≡ none)
      × ((s'.base.fd_events c.fd).callback_write ≡ none)
  pub cells : (g : ℕ) → g ≢ c.fd → s'.base.fd_events g ≡ s.base.fd_events g
  pub timer : Removed s.base.heap c.timeout_event s'.base.heap
  pub count : s'.base.client_count ≡ s.base.client_count +ℤ negsuc 0

module _ (os : Os) (laws : OsLaws os) (w : os.World) (s : Server) (p : ℕ) (c : ConnFd) (i : ℕ) where
  opens : s.conns p ≡ some c → deref s p ≡ done c
  unfolding deref
  opens live = rw (deref, live)

  -- __DestroyConn of a watched connection whose timer is in the heap, where epoll_ctl succeeds and
  -- the last timer is not due before the parent of the timer's slot: it returns with the
  -- connection, its cell and its timer gone, and the descriptor closed.
  pub destroy_conn-Destroyed :
      (w' : os.World)
      → s.conns p ≡ some c
      → Mirrors os laws s.base w
      → c.fd < s.base.fd_event_array_size
      → overlaps (s.base.fd_events c.fd).mask event_both ≡ true
      → os.epoll_ctl w
          (del_op (without (s.base.fd_events c.fd).mask event_both))
          c.fd
          (without (s.base.fd_events c.fd).mask event_both)
        ≡ (true, w')
      → IsValid s.base.heap
      → i < s.base.heap.node_used
      → s.base.heap.slots i ≡ c.timeout_event
      → (0 < i
          → rank s.base.heap (s.base.heap.slots (parent i))
            ≤ rank s.base.heap (s.base.heap.slots (s.base.heap.node_used - 1)))
      → Returns (λ (s', w''). Destroyed s p c s' × (w'' ≡ os.close w' c.fd)) (destroy_conn os w s p)
  unfolding destroy_conn release_conn fd_file_event_init
  destroy_conn-Destroyed w' live mir lt set ok valid inside slot above =
      let b = record s.base { client_count = s.base.client_count +ℤ negsuc 0 } in
      let cell = record (b.fd_events c.fd) { mask = without (b.fd_events c.fd).mask event_both } in
      let b' = with_event b c.fd cell in
      let (deleted, mirrors) = event_del-Mirrors os laws w b c.fd event_both mir lt w' set ok in
      let in_table : ltb c.fd s.base.fd_event_array_size ≡ true = ground arith in
      rw (opens live, deleted, sym slot)
        (Returns-bind _ _ (unregister_timer_out_event b' (s.base.heap.slots i)) _
          (unregister-Removed b' i valid inside above)
          λ (r, b1) (done_ok, removed, rest).
            rw (rest, in_table)
              (
                record {
                  freed = ground arith;
                  others = λ q ne. ground arith;
                  unwatched = ground arith;
                  callbacks = (ground arith, ground arith);
                  cells = λ g ne. ground arith;
                  timer = removed;
                  count = refl;
                },
                refl,
              ))
