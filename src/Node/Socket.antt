-- ===== src/Node/Socket.antt =====
-- include/nb/tcp_socket.hpp and src/node/tcp_socket.cpp: the state of a socket, and the methods that
-- touch nothing but the socket. The methods that call the manager are in Manager/Connection.
pub mod Bounds
use cpp_tcp.Base.{
  ℕ, suc, ◌+◌, Bool, true, false, not, ◌&&◌, ◌||◌, Option, none, some, List, [], ◌∷◌, ◌++◌, length,
  take, drop, set, if◌then◌else◌,
}
use cpp_tcp.Base.Int.{
  ℤ, pos, pos_part, minus_one, ◌+ℤ◌, ◌-ℤ◌, ◌*ℤ◌, ltb_ℤ, leb_ℤ, ◌==ℤ◌, min_ℤ, max_ℤ, quot_ℤ,
  half_floor,
}
use cpp_tcp.Base.Double.{DoubleOps}
use cpp_tcp.Net.Transport

abbrev pub recv_buf_cap : ℤ
recv_buf_cap = pos 32768

abbrev pub rto_initial_ms : ℤ
rto_initial_ms = pos 1000

abbrev pub rto_max_ms : ℤ
rto_max_ms = pos 64000

abbrev pub max_payload : ℤ
max_payload = pos Transport.max_payload_size

abbrev pub initial_cwnd_bytes : ℤ
initial_cwnd_bytes = max_payload

abbrev pub cwnd_min_bytes : ℤ
cwnd_min_bytes = max_payload

pub data State : Type 0 where
  closed listen syn_sent established shutdown : State

pub record OutstandingSeg : Type 0 where
  pub seq_start : ℤ
  pub len : ℤ
  pub bytes : List ℕ
  pub first_sent_at_ms : ℤ
  pub retransmitted : Bool

-- The fields, but for the pointer to the manager. `pending_conn_queue` holds indices of sockets.
pub record TcpSocket (D : Type 0) : Type 0 where
  pub state : State
  pub local_port : ℤ
  pub remote_addr : ℤ
  pub remote_port : ℤ
  pub backlog : ℤ
  pub pending_conn_queue : List ℕ
  pub snd_una : ℤ
  pub snd_nxt : ℤ
  pub rcv_nxt : ℤ
  pub recv_buf : List ℕ
  pub recv_buf_used : ℤ
  pub syn_seq : ℤ
  pub fin_seq : ℤ
  pub est_rtt_ms : D
  pub dev_rtt_ms : D
  pub has_est_rtt : Bool
  pub peer_fin_received : Bool
  pub outstanding : List OutstandingSeg
  pub next_rto_deadline_ms : ℤ
  pub rto_ms : ℤ
  pub rwnd : ℤ
  pub cwnd : ℤ
  pub timeout_count : ℤ

abbrev pub is_closed : State → Bool
is_closed closed = true
is_closed _ = false

abbrev pub is_listening : State → Bool
is_listening listen = true
is_listening _ = false

abbrev pub is_connection_pending : State → Bool
is_connection_pending syn_sent = true
is_connection_pending _ = false

abbrev pub is_connected : State → Bool
is_connected established = true
is_connected _ = false

abbrev pub is_closure_pending : State → Bool
is_closure_pending shutdown = true
is_closure_pending _ = false

-- `!outstanding_.empty()`
abbrev pub is_empty {ℓ} : {A : Type ℓ} → List A → Bool
is_empty [] = true
is_empty (x ∷ xs) = false

-- buf[i], buf[i + 1], … = the bytes. A write behind the end of the buffer is undefined behaviour
-- there: here it changes nothing.
abbrev pub overwrite : List ℕ → ℕ → List ℕ → List ℕ
overwrite buf i [] = buf
overwrite buf i (x ∷ xs) = overwrite (set buf i x) (suc i) xs

module _ {D : Type 0} (double : DoubleOps D) where
  -- The constructor and the fields' initial values.
  unfoldable pub fresh : TcpSocket D
  fresh = record {
    state = closed;
    local_port = minus_one;
    remote_addr = minus_one;
    remote_port = minus_one;
    backlog = pos 0;
    pending_conn_queue = [];
    snd_una = pos 0;
    snd_nxt = pos 0;
    rcv_nxt = pos 0;
    recv_buf = [];
    recv_buf_used = pos 0;
    syn_seq = minus_one;
    fin_seq = minus_one;
    est_rtt_ms = double.of_int rto_initial_ms;
    dev_rtt_ms = double.of_int (pos 0);
    has_est_rtt = false;
    peer_fin_received = false;
    outstanding = [];
    next_rto_deadline_ms = pos 0;
    rto_ms = rto_initial_ms;
    rwnd = recv_buf_cap;
    cwnd = initial_cwnd_bytes;
    timeout_count = pos 0;
  }

  -- onSampleRTT, with ALPHA = 0.125 and BETA = 0.25
  unfoldable pub on_sample_rtt : ℤ → TcpSocket D → TcpSocket D
  on_sample_rtt sample_ms s =
      if not s.has_est_rtt
      then record s {
        est_rtt_ms = double.of_int sample_ms;
        dev_rtt_ms = double.div (double.of_int sample_ms) (double.literal 2 1);
        has_est_rtt = true;
      }
      else record s {
        est_rtt_ms =
            double.add
              (double.mul (double.sub (double.literal 1 1) (double.literal 1 8)) s.est_rtt_ms)
              (double.mul (double.literal 1 8) (double.of_int sample_ms));
        dev_rtt_ms =
            double.add
              (double.mul (double.sub (double.literal 1 1) (double.literal 1 4)) s.dev_rtt_ms)
              (double.mul (double.literal 1 4)
                (double.fabs (double.sub (double.of_int sample_ms) s.est_rtt_ms)));
      }

module _ {D : Type 0} where
  -- bind, which returns 0
  unfoldable pub bind : ℤ → TcpSocket D → TcpSocket D
  bind local_port s = record s { local_port = local_port }

  abbrev pub get_recv_buf_available : TcpSocket D → ℤ
  get_recv_buf_available s = recv_buf_cap -ℤ s.recv_buf_used

  abbrev pub effective_window : TcpSocket D → ℤ
  effective_window s = min_ℤ s.rwnd s.cwnd

  abbrev pub set_rwnd : ℤ → TcpSocket D → TcpSocket D
  set_rwnd v s = record s { rwnd = max_ℤ (pos 0) v }

  unfoldable pub init_accepted : ℤ → ℤ → ℤ → TcpSocket D → TcpSocket D
  init_accepted local_port remote_addr remote_port s = record s {
    local_port = local_port;
    remote_addr = remote_addr;
    remote_port = remote_port;
    snd_una = pos 1;
    snd_nxt = pos 1;
    rcv_nxt = pos 1;
    cwnd = initial_cwnd_bytes;
    state = established;
  }

  unfoldable pub enqueue_accepted : ℕ → TcpSocket D → TcpSocket D
  enqueue_accepted child s =
      if ltb_ℤ (pos (length s.pending_conn_queue)) s.backlog
      then record s { pending_conn_queue = s.pending_conn_queue ++ (child ∷ []) }
      else s

  unfoldable pub mark_established : TcpSocket D → TcpSocket D
  mark_established s = if is_closed s.state then s else record s {
    snd_una = pos 1;
    snd_nxt = pos 1;
    rcv_nxt = pos 1;
    cwnd = initial_cwnd_bytes;
    peer_fin_received = false;
    state = established;
  }

  abbrev pub mark_closed : TcpSocket D → TcpSocket D
  mark_closed s = record s { state = closed }

  unfoldable pub mark_peer_fin_received : TcpSocket D → TcpSocket D
  mark_peer_fin_received s = record s {
    peer_fin_received = true;
    state = if is_connected s.state then shutdown else s.state;
  }

  -- A null pointer, or no bytes: nothing is taken. Otherwise what fits, from `pos` on.
  unfoldable pub append_to_recv_buf : Option (List ℕ) → ℕ → ℤ → TcpSocket D → TcpSocket D × ℤ
  append_to_recv_buf none start len s = (s, pos 0)
  append_to_recv_buf (some payload) start len s =
      if leb_ℤ len (pos 0)
      then (s, pos 0)
      else let n : ℤ = min_ℤ len (recv_buf_cap -ℤ s.recv_buf_used) in
        (
          record s {
            recv_buf = s.recv_buf ++ take (pos_part n) (drop start payload);
            recv_buf_used = s.recv_buf_used +ℤ n;
          },
          n,
        )

  -- A socket that has its peer's FIN and nothing left to read is closed.
  abbrev pub close_if_drained : TcpSocket D → TcpSocket D
  close_if_drained s =
      if s.peer_fin_received && s.recv_buf_used ==ℤ pos 0 then record s { state = closed } else s

  -- The new socket, the buffer after the bytes have been written to it, and the value returned.
  unfoldable pub read : Option (List ℕ) → ℤ → ℤ → TcpSocket D → TcpSocket D × Option (List ℕ) × ℤ
  read none at len s = (s, none, minus_one)
  read (some buf) at len s =
      let n : ℤ = min_ℤ len s.recv_buf_used in
      if not (is_connected s.state) && not (is_closure_pending s.state)
        || ltb_ℤ at (pos 0)
        || ltb_ℤ len (pos 0)
      then (s, some buf, minus_one)
      else if len ==ℤ pos 0 || s.recv_buf_used ==ℤ pos 0
      then (close_if_drained s, some buf, pos 0)
      else (
        close_if_drained (record s {
          recv_buf = drop (pos_part n) s.recv_buf;
          recv_buf_used = s.recv_buf_used -ℤ n;
        }),
        some (overwrite buf (pos_part at) (take (pos_part n) s.recv_buf)),
        n,
      )

  unfoldable pub additive_increase_cwnd : TcpSocket D → TcpSocket D
  additive_increase_cwnd s = record s {
    cwnd =
        s.cwnd +ℤ max_ℤ (pos 1) (quot_ℤ (max_payload *ℤ max_payload) (max_ℤ s.cwnd cwnd_min_bytes));
  }

  -- floor(cwnd_ * 0.5), which a double holds exactly
  unfoldable pub multiplicative_decrease_cwnd : TcpSocket D → TcpSocket D
  multiplicative_decrease_cwnd s = record s { cwnd = max_ℤ cwnd_min_bytes (half_floor s.cwnd) }

  unfoldable pub double_rto : TcpSocket D → TcpSocket D
  double_rto s = record s { rto_ms = min_ℤ (s.rto_ms *ℤ pos 2) rto_max_ms }

-- The loop that pops the segments in front that are acknowledged as a whole.
unfoldable pub pop_acked :
    ℤ → Option OutstandingSeg → List OutstandingSeg → List OutstandingSeg × Option OutstandingSeg
pop_acked ack_num last [] = ([], last)
pop_acked ack_num last (head ∷ rest) =
    if leb_ℤ (head.seq_start +ℤ head.len) ack_num
    then pop_acked ack_num (some head) rest
    else (head ∷ rest, last)

module _ {D : Type 0} where
  unfoldable pub pop_acked_through : ℤ → ℤ → TcpSocket D → TcpSocket D × Option OutstandingSeg
  pop_acked_through now ack_num s =
      let (left, last_popped) = pop_acked ack_num none s.outstanding in
      (
        record s {
          outstanding = left;
          snd_una = ack_num;
          next_rto_deadline_ms = if is_empty left then pos 0 else now +ℤ s.rto_ms;
        },
        last_popped,
      )
