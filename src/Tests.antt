-- ===== src/Tests.antt =====
-- The theorems at concrete inputs, with fixed-point numbers in thousandths for `double`.
pub mod Console
pub mod Delivery
pub mod Emulator
pub mod Links
pub mod Network
pub mod Nodes
pub mod Packets
pub mod Text
pub mod Trawler
pub mod Simulation
pub mod Apps
use cpp_tcp.Base.{ℕ, ◌*◌}
use cpp_tcp.Base.Int.{ℤ, pos, ◌+ℤ◌, ◌-ℤ◌, ◌*ℤ◌, max_ℤ, ltb_ℤ, quot_ℤ}
use cpp_tcp.Base.Double.{DoubleOps}

abbrev pub thousandths : DoubleOps ℤ
thousandths = record {
  literal = λ n m. quot_ℤ (pos (n * 1000)) (pos m);
  of_int = λ v. v *ℤ pos 1000;
  add = ◌+ℤ◌;
  sub = ◌-ℤ◌;
  mul = λ x y. quot_ℤ (x *ℤ y) (pos 1000);
  div = λ x y. quot_ℤ (x *ℤ pos 1000) y;
  fabs = λ x. max_ℤ x (pos 0 -ℤ x);
  less = ltb_ℤ;
}
