-- ===== src/Node/Delivery.antt =====
-- One direction of an established connection: the two sockets, the network between them, and the two
-- applications. src/node/tcp_socket.cpp and src/node/tcp_manager.cpp give the steps; the network may
-- lose, repeat and reorder segments and acknowledgements.
pub mod Slices
pub mod Sockets
pub mod Invariant
pub mod InOrder
pub mod Writes
use mathlib.Core.List.{Memᴰ}
use cpp_tcp.Base.{ℕ, ◌≡◌, some, List, [], ◌∷◌, ◌++◌, length, take}
use cpp_tcp.Base.Int.{ℤ, pos, pos_part, ◌≤ℤ◌, ◌<ℤ◌, min_ℤ}
use cpp_tcp.Base.Double.{DoubleOps}
use cpp_tcp.Net.Transport
use cpp_tcp.Net.Transport.{Transport}
use cpp_tcp.Node.Socket.{TcpSocket, OutstandingSeg, read, get_recv_buf_available}
use cpp_tcp.Node.Manager.Connection.{push_sent}
use cpp_tcp.Node.Manager.Receive.{acknowledge, take_data}
use cpp_tcp.Node.Manager.Timer.{back_off}

-- `data_sent` and `acks_sent` hold every segment that was ever handed to the network: a step may
-- deliver any of them at any time, and as often as it likes. `written` are the bytes that the sending
-- application's `write` has accepted, `taken` those that the receiving application has read.
pub record Link (D : Type 0) : Type 0 where
  pub sender : TcpSocket D
  pub receiver : TcpSocket D
  pub data_sent : List Transport
  pub acks_sent : List Transport
  pub written : List ℕ
  pub taken : List ℕ

-- The segment that `sendData` hands over.
abbrev pub IsData : {D : Type 0} → TcpSocket D → ℤ → List ℕ → Transport → Type 0
IsData s seq_num payload t =
    Transport.make s.local_port s.remote_port Transport.data_type (pos 0) seq_num payload ≡ some t

module _ {D : Type 0} (double : DoubleOps D) where
  pub data Step (l : Link D) : Link D → Type 0 where
    -- One round of the loop of `write`: the segment goes out and is outstanding.
    writes :
        (now : ℤ) (x : ℕ) (payload : List ℕ) (t : Transport)
        → IsData l.sender l.sender.snd_nxt (x ∷ payload) t
        → Step l (record l {
          sender = push_sent now (pos (length (x ∷ payload))) (x ∷ payload) l.sender;
          data_sent = t ∷ l.data_sent;
          written = l.written ++ (x ∷ payload);
        })
    -- The retransmission tick sends an outstanding segment again …
    resends :
        (seg : OutstandingSeg) (t : Transport)
        → Memᴰ seg l.sender.outstanding
        → IsData l.sender seg.seq_start seg.bytes t
        → Step l (record l { data_sent = t ∷ l.data_sent })
    -- … and backs off.
    times_out : (now : ℤ) → Step l (record l { sender = back_off now l.sender })
    -- `write` starts the deadline of the first segment after an idle time.
    starts : (t : ℤ) → Step l (record l { sender = record l.sender { next_rto_deadline_ms = t } })
    -- A data segment arrives, whichever the network brings, and is answered by an acknowledgement
    -- of the next byte expected.
    receives :
        (t a : Transport)
        → Memᴰ t l.data_sent
        → a.seq_num ≡ (take_data t l.receiver).rcv_nxt
        → Step l (record l { receiver = take_data t l.receiver; acks_sent = a ∷ l.acks_sent })
    -- An acknowledgement arrives, whichever the network brings.
    acknowledges :
        (now : ℤ) (a : Transport)
        → Memᴰ a l.acks_sent
        → Step l (record l { sender = acknowledge double now a l.sender })
    -- The receiving application reads into a buffer. A refused call returns -1 and takes nothing.
    reads :
        (buf : List ℕ) (at len : ℤ)
        → Step l (record l {
          receiver = (read (some buf) at len l.receiver).0;
          taken =
              l.taken ++ take (pos_part (read (some buf) at len l.receiver).2) l.receiver.recv_buf;
        })

  -- What any number of steps leads to.
  pub data Reach (l : Link D) : Link D → Type 0 where
    here : Reach l l
    next : {l' l'' : Link D} → Reach l l' → Step l' l'' → Reach l l''

module _ {D : Type 0} where
  -- A connection that has just been established: each side starts at number 1 with empty buffers,
  -- and nothing has been sent.
  pub record IsOpened (l : Link D) : Type 0 where
    pub una : l.sender.snd_una ≡ pos 1
    pub nxt : l.sender.snd_nxt ≡ pos 1
    pub outstanding : l.sender.outstanding ≡ []
    pub next_byte : l.receiver.rcv_nxt ≡ pos 1
    pub buffer : l.receiver.recv_buf ≡ []
    pub used : l.receiver.recv_buf_used ≡ pos 0
    pub data_sent : l.data_sent ≡ []
    pub acks_sent : l.acks_sent ≡ []
    pub written : l.written ≡ []
    pub taken : l.taken ≡ []

  -- Two sockets and nothing else.
  abbrev pub between : TcpSocket D → TcpSocket D → Link D
  between sender receiver = record {
    sender = sender;
    receiver = receiver;
    data_sent = [];
    acks_sent = [];
    written = [];
    taken = [];
  }
