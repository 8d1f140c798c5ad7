-- ===== src/PacketManager/Sends/Steps.antt =====
-- Each step of the packet thread of IOCPChatServer/PacketManager.cpp, and of what feeds it, keeps the
-- users at their places and what is sent within what the network layer can serve.
use iocp.Common.{
  ℕ, ◌<◌, ◌≡◌, sym, subst, ◌∙◌, inl, inr, some, List, arith, length, length-set, get_elem?,
  get_elem?-lt, set, >>=-eq-some,
}
use iocp.User
use iocp.User.{User}
use iocp.UserManager
use iocp.PacketManager.{
  PacketManager, receive_packet_data, enqueue_packet_data, push_system_packet, get_user, put_user,
}
use iocp.PacketManager.Loop.{swap_buffers}
use iocp.PacketManager.Loop.Pools.{pool, connect-SamePool}
use iocp.PacketManager.Loop.Changes.{Changed, unchanged, set_cases}
use iocp.PacketManager.Loop.Changes.Accounts.{disconnect-Keeps, login-Keeps, db_result-Keeps}
use iocp.PacketManager.Loop.Changes.Dispatch.{enter-Keeps, leave-Keeps, chat-Keeps}
use iocp.PacketManager.Reach.{
  Step, receives, reports, takes_batch, clears_reports, clears_tasks, cuts, rows_run, connects,
  closes, asks, redis_runs, is_answered, enters, leaves, says,
}
use iocp.PacketManager.Cutting.{get_packet-index}
use iocp.PacketManager.Sends.{AllServed, IsIndexed, Changed-IsIndexed}
use iocp.PacketManager.Sends.Handlers.{
  connect-Serves, disconnect-Serves, login-Serves, db_result-Serves, enter-Serves, leave-Serves,
  chat-Serves,
}

-- Users at their places, and what is sent.
abbrev pub IsServing : ℕ → PacketManager → Type 0
IsServing n m = IsIndexed n (pool m) × AllServed n m.sent

set_packet_data-index :
    (u : User) (size : ℕ) (bytes : List ℕ)
    → (User.set_packet_data u size (some bytes)).index ≡ u.index
unfolding User.set_packet_data
set_packet_data-index u size bytes = ground arith

module _ {n : ℕ} where
  pub same-IsServing :
      (m m' : PacketManager) → pool m' ≡ pool m → m'.sent ≡ m.sent → IsServing n m → IsServing n m'
  same-IsServing m m' users sent (placed, all) =
      (subst (IsIndexed n) (sym users) placed, subst (AllServed n) (sym sent) all)

  -- One user takes the place of another.
  set-IsIndexed :
      (users : List User) (i : ℕ) (u u' : User)
      → get_elem? users i ≡ some u
      → u'.index ≡ u.index
      → IsIndexed n users
      → IsIndexed n (set users i u')
  set-IsIndexed users i u u' here same (size, at) = (
    length-set users i u' ∙ size,
    λ j w h. elim (set_cases users i j u' w h) [
      | inl (e, q) ↦ ground (arith, e, q, same, at i u here)
      | inr (ne, there) ↦ at j w there
    ],
  )

  pub receive-IsServing :
      (m m' : PacketManager) (i size : ℕ) (bytes : List ℕ)
      → receive_packet_data m i size (some bytes) ≡ some m'
      → IsServing n m
      → IsServing n m'
  unfolding receive_packet_data enqueue_packet_data get_user UserManager.get_user_by_conn_idx
      put_user UserManager.put_user
  receive-IsServing m m' i size bytes h (placed, all) =
      let (u, here, h₁) = >>=-eq-some (get_elem? (pool m) i) _ h in
      let u' = User.set_packet_data u size (some bytes) in
      let (v, there, h₂) = >>=-eq-some (get_elem? (set (pool m) i u') i) _ h₁ in
      let q : pool m' ≡ set (pool m) i u' = ground (arith, h₂) in
      let e : m'.sent ≡ m.sent = ground (arith, h₂) in
      (
        subst (IsIndexed n) (sym q)
            (set-IsIndexed (pool m) i u u' here (set_packet_data-index u size bytes) placed),
        subst (AllServed n) (sym e) all,
      )

  handled :
      (m m' : PacketManager)
      → (Changed (pool m) (pool m) → Changed (pool m) (pool m'))
      → (IsIndexed n (pool m) → AllServed n m.sent → AllServed n m'.sent)
      → IsServing n m
      → IsServing n m'
  handled m m' changes serves (placed, all) =
      (Changed-IsIndexed (changes unchanged) placed, serves placed all)

  pub Step-IsServing :
      {i : ℕ} {u : User} {m m' : PacketManager}
      → get_elem? (pool m) i ≡ some u
      → Step i u m m'
      → IsServing n m
      → IsServing n m'
  unfolding push_system_packet swap_buffers put_user UserManager.put_user
  Step-IsServing {i} {u} {m} {m'} here step (placed, all) = by_step step
    where
      lt : i < n
      lt = omega (arith, get_elem?-lt (pool m) i here, placed.0)

      by_step : Step i u m m' → IsServing n m'
      by_step (receives bytes small h) =
          receive-IsServing m m' i (length bytes) bytes h (placed, all)
      by_step (reports info h) =
          same-IsServing m m' (ground (arith, h)) (ground (arith, h)) (placed, all)
      by_step (takes_batch h) =
          same-IsServing m m' (ground (arith, h)) (ground (arith, h)) (placed, all)
      by_step (clears_reports h) =
          same-IsServing m m' (ground (arith, h)) (ground (arith, h)) (placed, all)
      by_step (clears_tasks h) =
          same-IsServing m m' (ground (arith, h)) (ground (arith, h)) (placed, all)
      by_step (cuts h) =
          subst (IsServing n) h
            (set-IsIndexed (pool m) i u (User.get_packet u).1 here (get_packet-index u) placed, all)
      by_step (rows_run tasks h) =
          same-IsServing m m' (ground (arith, h)) (ground (arith, h)) (placed, all)
      by_step (redis_runs r h) =
          same-IsServing m m' (ground (arith, h)) (ground (arith, h)) (placed, all)
      by_step (connects h) = (
        subst (IsIndexed n) (sym (connect-SamePool m i m' h)) placed,
        connect-Serves n m i m' h placed all,
      )
      by_step (closes h) =
          handled m m' (disconnect-Keeps (pool m) m i m' h) (disconnect-Serves n m i m' h)
            (placed, all)
      by_step (asks size p user_id read ordinary h) =
          handled m m' (login-Keeps (pool m) m i size p m' h) (login-Serves n m i size p lt m' h)
            (placed, all)
      by_step (is_answered now p out h) =
          handled m m' (db_result-Keeps (pool m) m i now p m' h)
            (db_result-Serves n m i now p lt m' h) (placed, all)
      by_step (enters now p h) =
          handled m m' (enter-Keeps (pool m) m i now p m' h) (enter-Serves n m i now p lt m' h)
            (placed, all)
      by_step (leaves now state h) =
          handled m m' (leave-Keeps (pool m) m i now m' h) (leave-Serves n m i now lt m' h)
            (placed, all)
      by_step (says now p h) =
          handled m m' (chat-Keeps (pool m) m i now p m' h) (chat-Serves n m i now p lt m' h)
            (placed, all)
