-- ===== src/Node/Manager/Resending/Segments.antt =====
-- The segments that `TcpManager::retransmissionTick` sends again for one socket (node/tcp_manager.cpp).
use mathlib.Core.List.Memᴰ
use mathlib.Core.List.{Memᴰ, append-nil, append_assoc}
use cpp_tcp.Base.{
  ◌≡◌, refl, sym, ap, subst, ◌∙◌, true, Option, none, some, List, [], ◌∷◌, ◌++◌, Bool-cases, inl,
  inr,
}
use cpp_tcp.Base.Int.{ℤ, pos}
use cpp_tcp.Core.Runtime.{accepts}
use cpp_tcp.Net.Packet
use cpp_tcp.Net.Packet.{Packet}
use cpp_tcp.Net.Transport
use cpp_tcp.Net.Transport.{Transport}
use cpp_tcp.Node.Socket.{TcpSocket, OutstandingSeg}
use cpp_tcp.Node.Manager.{TcpManager, Effect, sent, hand_over, packet_for, send_data}
use cpp_tcp.Node.Manager.Timer.{resend_all}

-- The packet around an outstanding segment.
abbrev pub packet_of : {D : Type 0} → ℤ → TcpSocket D → OutstandingSeg → Option Packet
packet_of addr s seg =
    packet_for addr s.remote_addr (
      Transport.make s.local_port s.remote_port Transport.data_type (pos 0) seg.seq_start seg.bytes)

-- The second list of effects has more effects at its end than the first one.
abbrev pub Extends : List Effect → List Effect → Type 0
Extends base xs = (es : List Effect) × (xs ≡ base ++ es)

-- The effect is one of those that the second list has more.
abbrev pub Adds : List Effect → Effect → List Effect → Type 0
Adds base e xs = (es : List Effect) × (xs ≡ base ++ es) × Memᴰ e es

pub Extends-refl : (xs : List Effect) → Extends xs xs
Extends-refl xs = ([], sym (append-nil xs))

pub Extends-trans : (xs ys zs : List Effect) → Extends xs ys → Extends ys zs → Extends xs zs
Extends-trans xs ys zs (a, p) (b, q) = (a ++ b, q ∙ ap (λ l. l ++ b) p ∙ append_assoc xs a b)

-- What has been added stays.
pub Adds-Extends :
    (base : List Effect) (e : Effect) (xs ys : List Effect)
    → Adds base e xs
    → Extends xs ys
    → Adds base e ys
Adds-Extends base e xs ys (a, p, h) (b, q) =
    (a ++ b, q ∙ ap (λ l. l ++ b) p ∙ append_assoc base a b, Memᴰ.append_left b h)

-- What is added later is added as well.
pub Extends-Adds :
    (base xs : List Effect) (e : Effect) (ys : List Effect)
    → Extends base xs
    → Adds xs e ys
    → Adds base e ys
Extends-Adds base xs e ys (a, p) (b, q, h) =
    (a ++ b, q ∙ ap (λ l. l ++ b) p ∙ append_assoc base a b, Memᴰ.append_right a h)

-- The second state differs from the first one by more effects only.
pub record Sends {D : Type 0} (m m' : TcpManager D) : Type 0 where
  pub addr : m'.addr ≡ m.addr
  pub sockets : m'.all_sockets ≡ m.all_sockets
  pub keeps : Extends m.effects m'.effects

module _ {D : Type 0} where
  Sends-refl : (m : TcpManager D) → Sends m m
  Sends-refl m = record { addr = refl; sockets = refl; keeps = Extends-refl m.effects }

  hand_over-Sends : (to : ℤ) (o : Option Packet) (m : TcpManager D) → Sends m (hand_over to o m).0
  unfolding hand_over
  hand_over-Sends to none m = Sends-refl m
  hand_over-Sends to (some p) m = elim (Bool-cases (accepts m.addr to (Packet.pack p))) [
    | inl e ↦ rw e (record {
      addr = refl;
      sockets = refl;
      keeps = (sent m.addr to (Packet.pack p) ∷ [], refl);
    })
    | inr e ↦ rw e (Sends-refl m)
  ]

  hand_over-sent :
      (to : ℤ) (p : Packet) (m : TcpManager D)
      → accepts m.addr to (Packet.pack p) ≡ true
      → Adds m.effects (sent m.addr to (Packet.pack p)) (hand_over to (some p) m).0.effects
  unfolding hand_over
  hand_over-sent to p m h = rw h (sent m.addr to (Packet.pack p) ∷ [], refl, Memᴰ.head refl)

  pub resend_all-Sends :
      (s : TcpSocket D) (segs : List OutstandingSeg) (m : TcpManager D)
      → Sends m (resend_all s segs m)
  unfolding resend_all send_data
  resend_all-Sends s [] m = Sends-refl m
  resend_all-Sends s (seg ∷ segs) m =
      let a = hand_over-Sends s.remote_addr (packet_of m.addr s seg) m in
      let b = resend_all-Sends s segs (hand_over s.remote_addr (packet_of m.addr s seg) m).0 in
      record {
        addr = b.addr ∙ a.addr;
        sockets = b.sockets ∙ a.sockets;
        keeps = Extends-trans _ _ _ a.keeps b.keeps;
      }

  -- Every segment of the list that the manager accepts is sent.
  pub resend_all-sent :
      (s : TcpSocket D) (segs : List OutstandingSeg) (m : TcpManager D) (addr : ℤ)
      (seg : OutstandingSeg) (p : Packet)
      → m.addr ≡ addr
      → Memᴰ seg segs
      → packet_of addr s seg ≡ some p
      → accepts addr s.remote_addr (Packet.pack p) ≡ true
      → Adds m.effects (sent addr s.remote_addr (Packet.pack p)) (resend_all s segs m).effects
  unfolding resend_all send_data
  resend_all-sent s [] m addr seg p own h made ok = elim h [ ]
  resend_all-sent s (x ∷ segs) m addr seg p own (Memᴰ.head h) made ok =
      let to = s.remote_addr in
      let made' : packet_of m.addr s x ≡ some p =
        subst (λ a. packet_of a s x ≡ some p) (sym own)
          (subst (λ y. packet_of addr s y ≡ some p) h made) in
      let ok' = subst (λ a. accepts a to (Packet.pack p) ≡ true) (sym own) ok in
      let first =
        subst (λ o. Adds m.effects (sent m.addr to (Packet.pack p)) (hand_over to o m).0.effects)
          (sym made') (hand_over-sent to p m ok') in
      let m' = (hand_over to (packet_of m.addr s x) m).0 in
      subst (λ a. Adds m.effects (sent a to (Packet.pack p)) (resend_all s segs m').effects) own
        (Adds-Extends _ _ _ _ first (resend_all-Sends s segs m').keeps)
  resend_all-sent s (x ∷ segs) m addr seg p own (Memᴰ.tail h) made ok =
      let a = hand_over-Sends s.remote_addr (packet_of m.addr s x) m in
      Extends-Adds _ _ _ _ a.keeps (resend_all-sent s segs _ addr seg p (a.addr ∙ own) h made ok)
