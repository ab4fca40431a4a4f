-- ===== src/Tests/Delivery.antt =====
-- A connection over which two bytes are written, received, acknowledged and read.
use mathlib.Core.List.{Memᴰ}
use cpp_tcp.Base.{
  ℕ, ◌<◌, ◌≡◌, refl, ◌≤◌, ◌≢◌, some, true, false, List, [], ◌∷◌, ◌++◌, length, take, drop, ap,
  arith,
}
use cpp_tcp.Base.Int.{ℤ, pos, pos_part, ◌≤ℤ◌, ◌+ℤ◌, ◌-ℤ◌}
use cpp_tcp.Net.Transport
use cpp_tcp.Net.Transport.{Transport}
use cpp_tcp.Node.Socket.{
  TcpSocket, OutstandingSeg, fresh, init_accepted, mark_established, read, syn_sent,
  append_to_recv_buf, pop_acked, pop_acked_through, on_sample_rtt, additive_increase_cwnd,
}
use cpp_tcp.Node.Manager
use cpp_tcp.Node.Manager.{
  TcpManager, ConnKey, Effect, sent, timer, retransmission, socket_at, send_data, hand_over,
  packet_for,
}
use cpp_tcp.Net.Packet
use cpp_tcp.Net.Packet.{Packet}
use cpp_tcp.Node.Manager.Timer.{retransmission_tick, back_off}
use cpp_tcp.Node.Manager.Resending.{retransmission_tick-resends}
use cpp_tcp.Node.Manager.Resending.Segments.{packet_of}
use cpp_tcp.Core.Runtime.{accepts, sendable}
use cpp_tcp.Base.Bytes.{join32}
use cpp_tcp.Node.Manager.Connection.{
  push_sent, write, write_buf, write_loop, start_deadline, write_segment, Written, wrote, stuck,
}
use cpp_tcp.Node.Manager.Receive.{take_data, acknowledge, advance, sample}
use cpp_tcp.Node.Manager.Calls.{
  Call, sockets, binds, listens, arrives, accepts_next, ticks, perform_all,
}
use cpp_tcp.Node.Manager.Sound.{Sound}
use cpp_tcp.Node.Manager.Sound.Calling.{perform_all-init-Sound}
use cpp_tcp.Node.Manager.Writing.{write-ne-stuck}
use cpp_tcp.Node.Delivery.{
  Link, Reach, here, next, IsOpened, between, writes, receives, acknowledges, reads,
}
use cpp_tcp.Node.Delivery.Writes.Whole.{write-Reach}
use cpp_tcp.Node.Delivery.InOrder.{reads-prefix, drained-accepted, sequence_order}
use cpp_tcp.Tests.{thousandths}

abbrev pub client : TcpSocket ℤ
client = mark_established (record (fresh thousandths) {
  local_port = pos 10;
  remote_addr = pos 2;
  remote_port = pos 20;
  state = syn_sent;
})

abbrev pub server : TcpSocket ℤ
server = init_accepted (pos 20) (pos 1) (pos 10) (fresh thousandths)

abbrev pub segment : Transport
segment = record {
  src_port = pos 10;
  dest_port = pos 20;
  type = Transport.data_type;
  window = pos 0;
  seq_num = pos 1;
  payload = 0 ∷ 1 ∷ [];
}

abbrev pub answer : Transport
answer = record {
  src_port = pos 20;
  dest_port = pos 10;
  type = Transport.ack;
  window = pos 32766;
  seq_num = pos 3;
  payload = [];
}

abbrev pub opened : Link ℤ
opened = between client server

pub opened-IsOpened : IsOpened opened
unfolding fresh init_accepted mark_established
opened-IsOpened = record {
  una = refl;
  nxt = refl;
  outstanding = refl;
  next_byte = refl;
  buffer = refl;
  used = refl;
  data_sent = refl;
  acks_sent = refl;
  written = refl;
  taken = refl;
}

abbrev pub written : Link ℤ
written = record opened {
  sender = push_sent (pos 0) (pos 2) (0 ∷ 1 ∷ []) client;
  data_sent = segment ∷ [];
  written = 0 ∷ 1 ∷ [];
}

abbrev pub received : Link ℤ
received = record written { receiver = take_data segment server; acks_sent = answer ∷ [] }

abbrev acknowledged : Link ℤ
acknowledged = record received { sender = acknowledge thousandths (pos 5) answer written.sender }

abbrev finished : Link ℤ
finished = record acknowledged {
  receiver = (read (some (0 ∷ [])) (pos 0) (pos 1) acknowledged.receiver).0;
  taken =
      acknowledged.taken
      ++ take (pos_part (read (some (0 ∷ [])) (pos 0) (pos 1) acknowledged.receiver).2)
          acknowledged.receiver.recv_buf;
}

Reach-written : Reach thousandths opened written
unfolding mark_established fresh Transport.make Transport.illegal
Reach-written = next here (writes (pos 0) 0 (1 ∷ []) segment refl)

pub Reach-received : Reach thousandths opened received
unfolding take_data mark_established fresh init_accepted Transport.make Transport.illegal ◌-ℤ◌ ◌+ℤ◌
    append_to_recv_buf
Reach-received = next Reach-written (receives segment answer (Memᴰ.head refl) refl)

Reach-acknowledged : Reach thousandths opened acknowledged
Reach-acknowledged = next Reach-received (acknowledges (pos 5) answer (Memᴰ.head refl))

Reach-finished : Reach thousandths opened finished
Reach-finished = next Reach-acknowledged (reads (0 ∷ []) (pos 0) (pos 1))

reads-prefix_example : (rest : List ℕ) × (finished.written ≡ finished.taken ++ rest)
reads-prefix_example = reads-prefix thousandths opened finished opened-IsOpened Reach-finished

drained-accepted_example : finished.taken ++ finished.receiver.recv_buf ≡ finished.written
unfolding acknowledge ◌+ℤ◌ mark_established advance sample pop_acked_through pop_acked fresh
    on_sample_rtt additive_increase_cwnd
drained-accepted_example =
    drained-accepted thousandths opened finished opened-IsOpened Reach-finished refl

sequence_order_example :
    (finished.sender.snd_una ≤ℤ finished.receiver.rcv_nxt)
    × (finished.receiver.rcv_nxt ≤ℤ finished.sender.snd_nxt)
    × (length finished.receiver.recv_buf ≤ 32768)
sequence_order_example = sequence_order thousandths opened finished opened-IsOpened Reach-finished

-- A node with a listening socket that accepts a connection, gets one segment, and ticks.
abbrev calls : List Call
calls =
    sockets
    ∷ binds 0 (pos 20)
    ∷ listens 0 (pos 4)
    ∷ arrives (pos 0) (pos 1) (record {
      src_port = pos 10;
      dest_port = pos 20;
      type = Transport.syn;
      window = pos 0;
      seq_num = pos 0;
      payload = [];
    })
    ∷ accepts_next 0
    ∷ arrives (pos 3) (pos 1) segment
    ∷ ticks (pos 10)
    ∷ []

perform_all-init-Sound_example : Sound (perform_all thousandths calls (Manager.init (pos 2)))
perform_all-init-Sound_example = perform_all-init-Sound thousandths (pos 2) calls

-- A node whose only socket is the client's.
abbrev pub writer : TcpManager ℤ
writer = record (Manager.init (pos 1)) { all_sockets = client ∷ [] }

-- The same node with a segment of two bytes, whose deadline has passed at 1500 ms.
abbrev overdue : TcpSocket ℤ
overdue = record written.sender { next_rto_deadline_ms = pos 1000 }

abbrev unanswered : OutstandingSeg
unanswered = record {
  seq_start = pos 1;
  len = pos 2;
  bytes = 0 ∷ 1 ∷ [];
  first_sent_at_ms = pos 0;
  retransmitted = false;
}

abbrev key : ConnKey
key = record { remote_addr = pos 2; remote_port = pos 20; local_port = pos 10 }

abbrev waiting : TcpManager ℤ
waiting = record (Manager.init (pos 1)) {
  all_sockets = overdue ∷ [];
  established_by_key = (key, 0) ∷ [];
}

abbrev again : Packet
again = record {
  dest = pos 2;
  src = pos 1;
  ttl = pos 15;
  protocol = pos 4;
  seq = pos 0;
  payload = Transport.pack segment;
}

again-packet_of : packet_of (pos 1) overdue unanswered ≡ some again
unfolding packet_for Transport.make Transport.illegal Transport.pack Packet.make Packet.valid_fields
    Packet.is_valid mark_established fresh
again-packet_of = refl

again-accepts : accepts (pos 1) (pos 2) (Packet.pack again) ≡ true
unfolding accepts sendable Transport.pack Packet.make Packet.valid_fields Packet.is_valid
    Packet.is_valid_to_send Packet.pack Packet.unpack join32
again-accepts = refl

retransmission_tick-resends_example :
    let m' = retransmission_tick thousandths (pos 1500) waiting in
    (es : List Effect) × (m'.effects
      ≡ waiting.effects ++ (es ++ (timer (pos 1) (pos 10) retransmission ∷ [])))
    × Memᴰ (sent (pos 1) (pos 2) (Packet.pack again)) es
    × (socket_at thousandths m' 0 ≡ back_off (pos 1500) overdue)
unfolding fresh mark_established
retransmission_tick-resends_example =
    retransmission_tick-resends thousandths (pos 1500) waiting key 0 unanswered again
      (Memᴰ.head refl) (omega arith) (omega arith) refl (Memᴰ.head refl) again-packet_of
      again-accepts

write-ne-stuck_example :
    (write thousandths 0 (pos 0) (some (7 ∷ 8 ∷ 9 ∷ [])) (pos 1) (pos 2) writer).1 ≢ stuck
write-ne-stuck_example =
    write-ne-stuck thousandths 0 (pos 0) (some (7 ∷ 8 ∷ 9 ∷ [])) (pos 1) (pos 2) writer

abbrev wrote_two : TcpManager ℤ × Written
wrote_two = write thousandths 0 (pos 0) (some (7 ∷ 8 ∷ 9 ∷ [])) (pos 1) (pos 2) writer

wrote_two-wrote : wrote_two.1 ≡ wrote (pos 2)
unfolding write write_buf write_loop start_deadline write_segment send_data hand_over packet_for
    Transport.make Transport.illegal Transport.pack Packet.make Packet.valid_fields Packet.is_valid
    Packet.is_valid_to_send Packet.pack Packet.unpack accepts sendable mark_established fresh ◌-ℤ◌
    ◌+ℤ◌ join32
wrote_two-wrote = refl

write-Reach_example :
    (k : ℕ) × (l' : Link ℤ) × (pos 2 ≡ pos k)
    × (k ≤ 2)
    × Reach thousandths opened l'
    × (l'.sender ≡ socket_at thousandths wrote_two.0 0)
    × (l'.written ≡ [] ++ take k (drop 1 (7 ∷ 8 ∷ 9 ∷ [])))
    × (0 < length wrote_two.0.all_sockets)
write-Reach_example =
    write-Reach thousandths 0 (pos 0) (7 ∷ 8 ∷ 9 ∷ []) (pos 1) (pos 2) (pos 2) writer wrote_two.0
      opened (omega arith) refl (omega arith) (ap (λ w. (wrote_two.0, w)) wrote_two-wrote)
