-- ===== src/Tests/Apps.antt =====
-- A client and a worker at the two ends of a connection, with buffers of four bytes.
use cpp_tcp.Base.{inl, refl, [], ◌∷◌, arith}
use cpp_tcp.Base.Int.{ℤ, pos}
use cpp_tcp.Node.Manager
use cpp_tcp.Node.Manager.{TcpManager, socket_at}
use cpp_tcp.Node.Apps.{TransferClient, TransferWorker, worker_execute, client_send}
use cpp_tcp.Node.Apps.Reading.{Clean, worker_execute-Clean}
use cpp_tcp.Node.Apps.Sending.{StopsOrSends, client_send-StopsOrSends}
use cpp_tcp.Tests.{thousandths}
use cpp_tcp.Tests.Delivery.{opened, opened-IsOpened, received, writer, Reach-received}

abbrev worker : TransferWorker
worker = record {
  worker_interval_ms = pos 1000;
  worker_sock = 0;
  worker_buf = 0 ∷ 0 ∷ 0 ∷ 0 ∷ [];
  worker_pos = pos 0;
}

abbrev reader : TcpManager ℤ
reader = record (Manager.init (pos 2)) { all_sockets = received.receiver ∷ [] }

-- The bytes 0 and 1 have arrived.
worker_execute-Clean_example :
    Clean thousandths 4 received (worker_execute thousandths worker reader)
worker_execute-Clean_example =
    worker_execute-Clean thousandths 4 opened received worker reader opened-IsOpened Reach-received
      (omega arith) refl
      (record { same = refl; there = omega arith; pos_is = refl; buf_size = refl })

abbrev sender : TransferClient
sender = record {
  client_interval_ms = pos 1000;
  client_sock = 0;
  client_buf = 0 ∷ 0 ∷ 0 ∷ 0 ∷ [];
  amount = pos 6;
  start_time = pos 0;
  finish_time = pos 0;
  client_pos = pos 0;
}

client_send-StopsOrSends_example :
    StopsOrSends thousandths 4 opened (client_send thousandths (pos 0) sender writer)
client_send-StopsOrSends_example =
    client_send-StopsOrSends thousandths 4 (pos 0) opened sender writer (omega arith) (record {
      same = refl;
      there = omega arith;
      pos_is = refl;
      buf_size = refl;
      filled = inl refl;
      shape = refl;
    })
