-- ===== src/ChatServer/Callbacks.antt =====
-- The callbacks of IOCPChatServer/ChatServer.h succeed, and what they keep of the state of the packet
-- thread.
use iocp.Common.{
  ℕ, get_elem?_of_lt, refl, ap, ◌≡◌, some, List, [], ◌∷◌, arith, length, length-take, take,
}
use iocp.PacketManager.{PacketManager, push_system_packet, receive_packet_data}
use iocp.PacketManager.Consistent.{IsConsistent, SamePlaces-IsConsistent}
use iocp.PacketManager.Receiving.{receive_packet_data_lem}
use iocp.Iocp.{Event}
use iocp.Iocp.Told.{IsSized, AllSized}
use iocp.ChatServer.{on_connect, on_close, on_receive, call_back, call_backs}
use iocp.PacketManager.Sends.Steps.{IsServing, same-IsServing, receive-IsServing}

module _ (limit n : ℕ) where
  -- A callback has been made, in `m`, and leaves a state as it should be.
  abbrev pub IsKept : PacketManager → Type 0
  IsKept m = IsConsistent limit m × IsServing n m

  same-IsKept :
      (m m' : PacketManager)
      → m'.user_manager ≡ m.user_manager
      → m'.room_manager ≡ m.room_manager
      → m'.sent ≡ m.sent
      → IsKept m
      → IsKept m'
  same-IsKept m m' users rooms sent (c, serving) = (
    SamePlaces-IsConsistent m m' (users, rooms) c,
    same-IsServing m m' (ap (λ x. x.user_obj_pool) users) sent serving,
  )

  call_back-IsKept :
      (m : PacketManager) (e : Event)
      → IsSized n e
      → IsKept m
      → (m' : PacketManager) × (call_back m e ≡ some m') × IsKept m'
  unfolding call_back on_connect on_close on_receive push_system_packet
  call_back-IsKept m (Event.on_connect i) sized kept =
      (on_connect m i, refl, same-IsKept m (on_connect m i) refl refl refl kept)
  call_back-IsKept m (Event.on_close i) sized kept =
      (on_close m i, refl, same-IsKept m (on_close m i) refl refl refl kept)
  call_back-IsKept m (Event.on_receive i size bytes) (enough, small, lt) (c, serving) =
      let (u, here) = get_elem?_of_lt m.user_manager.user_obj_pool i (omega (arith, serving.0.0)) in
      let long : length (take size bytes) ≡ size = omega (arith, length-take {0} size bytes) in
      let (w, u', e, there, pend, task, c') =
        receive_packet_data_lem m i u (take size bytes) c here (omega arith) in
      let done : receive_packet_data m i size (some (take size bytes)) ≡ some w =
        ground (arith, e, long) in
      (w, done, (c', receive-IsServing m w i size (take size bytes) done serving))

  pub call_backs-IsKept :
      (es : List Event) (m : PacketManager)
      → AllSized n es
      → IsKept m
      → (m' : PacketManager) × (call_backs es m ≡ some m') × IsKept m'
  unfolding call_backs
  call_backs-IsKept [] m sized kept = (m, refl, kept)
  call_backs-IsKept (e ∷ es) m (one, sized) kept =
      let (w, told, kept') = call_back-IsKept m e one kept in
      let (m', rest, kept'') = call_backs-IsKept es w sized kept' in
      (m', ground (arith, told, rest), kept'')
