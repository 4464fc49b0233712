-- ===== src/Conn.antt =====
-- struct __single_conn_fd of include/reactor.h, and the buffer functions of src/socket_util.c:
-- ResizeRecvBufferPtr, ResizeSendBufferPtr.
--
-- `recv_total_len` and `send_total_len` are the sizes that the connection has noted; the sizes of
-- the blocks that malloc gave are those of the blocks.
pub mod Recv
pub mod Send
use tcpframe.Prelude.{
  ℕ, zero, suc, ◌+◌, ◌-◌, ◌*◌, ◌^◌, Bool, true, false, not, ◌&&◌, List, ltb, leb, ◌==◌,
  if◌then◌else◌, Option, none, some, Run, done, fault, out_of_fuel, ◌>>=◌,
}
use tcpframe.Prelude.Bytes.{read_at, write_at}
use tcpframe.SocketIo.{Block, fill}

pub record ConnFd : Type 0 where
  pub timeout_event : ℕ
  pub fd : ℕ
  pub packet_len : ℕ
  pub recv_buf : Block
  pub send_buf : Block
  pub recv_total_len : ℕ
  pub recv_cur_len : ℕ
  pub send_total_len : ℕ
  pub send_cur_len : ℕ
  pub send_packet_len : ℕ
  pub ipaddr : List ℕ
  pub port : ℕ

-- A block that malloc gave; it holds nothing defined, here zeros.
abbrev pub new_block : ℕ → Block
new_block n = record { cells = λ _. 0; total = n }

-- memmove of `n` bytes from one block to the start of another
unfoldable pub copy_out : Block → ℕ → ℕ → Block → Run Block
copy_out from at n to =
    if leb (at + n) from.total then fill to 0 (read_at from.cells at n) else fault

-- `while (total - used < need) total *= 2` on an int. Where the doubled size is no int any more the
-- behaviour is undefined, which is `fault`.
unfoldable pub grow : ℕ → ℕ → ℕ → ℕ → Run ℕ
grow zero total used need = out_of_fuel
grow (suc k) total used need =
    let rest = grow k (total * 2) used need in
    let more = if ltb (total * 2) (2 ^ 31) then rest else fault in
    if ltb total (used + need) then more else done total

-- ResizeRecvBufferPtr. NULL is `false`; the pointer that it returns is never used. Where malloc
-- fails the noted size has already grown.
unfoldable pub resize_recv_buffer_ptr : Bool → ConnFd → ℕ → Run (Bool × ConnFd)
resize_recv_buffer_ptr found c need =
    let enlarge : Run (Bool × ConnFd) = do
      total ← grow (c.recv_cur_len + need + 1) c.recv_total_len c.recv_cur_len need
      let noted = record c { recv_total_len = total }
      let move : Run (Bool × ConnFd) = do
        b ← copy_out c.recv_buf 0 c.recv_cur_len (new_block total)
        done (true, record noted { recv_buf = b })
      if found then move else done (false, noted)
    in if need == 0
      then done (false, c)
      else if leb (c.recv_cur_len + need) c.recv_total_len
      then done (true, c)
      else enlarge

-- Whether ResizeSendBufferPtr comes to its malloc.
unfoldable pub must_enlarge : ConnFd → ℕ → Bool
must_enlarge c need =
    not (leb (c.send_packet_len + need) c.send_total_len)
    && not (ltb (c.send_packet_len + need) (c.send_total_len + c.send_cur_len))

-- Whether ResizeRecvBufferPtr comes to its malloc.
unfoldable pub must_resize : ConnFd → ℕ → Bool
must_resize c need = ltb 0 need && not (leb (c.recv_cur_len + need) c.recv_total_len)

-- ResizeSendBufferPtr, with the place that the pointer points to. The last branch allocates
-- `sizeof(int)` bytes, whatever the size that it notes, and does not test what malloc returns.
unfoldable pub resize_send_buffer_ptr : Bool → ConnFd → ℕ → Run (ℕ × ConnFd)
resize_send_buffer_ptr found c need =
    let unsent = c.send_packet_len - c.send_cur_len in
    let compact : Run (ℕ × ConnFd) = do
      b ← copy_out c.send_buf c.send_cur_len unsent c.send_buf
      done (unsent, record c { send_buf = b; send_packet_len = unsent; send_cur_len = 0 })
    in let enlarge : Run (ℕ × ConnFd) = do
      total ← grow (c.send_packet_len + need + 1) c.send_total_len c.send_packet_len need
      b ← copy_out c.send_buf c.send_cur_len unsent (new_block 4)
      done (
        unsent,
        record c {
          send_buf = b;
          send_total_len = total;
          send_packet_len = unsent;
          send_cur_len = 0;
        },
      )
      in if leb (c.send_packet_len + need) c.send_total_len
        then done (c.send_packet_len, c)
        else if ltb (c.send_packet_len + need) (c.send_total_len + c.send_cur_len)
        then compact
        else if found
        then enlarge
        else fault
