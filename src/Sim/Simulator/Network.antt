-- ===== src/Sim/Simulator/Network.antt =====
-- The simulator with the protocol stack of src/node/stack_node.cpp in each of its nodes: the bounds of
-- the sockets are kept by every operation of a node.
use cpp_tcp.Base.Double.{DoubleOps}
use cpp_tcp.Base.Text.{TextOps}
use cpp_tcp.Node.Stack
use cpp_tcp.Node.Stack.Process.{stack_ops}
use cpp_tcp.Node.Stack.Process.Keeping.{Healthy, process-WellBehaved}
use cpp_tcp.Sim.Simulator.Order.{KeepsNode}

module _ {D : Type 0} (double : DoubleOps D) (text : TextOps D) where
  pub stack_ops-KeepsNode : KeepsNode Healthy (stack_ops double text)
  unfolding Stack.init
  stack_ops-KeepsNode = record {
    created = λ addr. tt;
    started = λ now p h. (process-WellBehaved double text p now h).0.0;
    received = λ now bytes p h. ((process-WellBehaved double text p now h).1 bytes).0;
    commanded = λ now msg p h. ((process-WellBehaved double text p now h).2 msg).0;
    timed = λ now k p h. ((process-WellBehaved double text p now h).3 k).0;
  }
