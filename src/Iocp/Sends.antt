-- ===== src/Iocp/Sends.antt =====
-- The completion of a send, in `WorkerThread` of IOCPChatServer/IOCP.h, keeps the accounts of the sessions.
use native.Mathlib.Decide.{ℕ_discrete}
use iocp.Common.{
  ℕ, ◌<◌, ◌≡◌, refl, sym, ap, inl, inr, Bool, true, false, some, List, [], ◌∷◌, ◌++◌, arith, length,
  get_elem?, get_elem?-lt, get_elem?_of_lt, set, subst, take, Bool-cases,
}
use iocp.ObjectPool
use iocp.ObjectPool.{ObjectPool}
use iocp.Net.{Windows, SendOverlapped, send_request}
use iocp.ClientSession
use iocp.ClientSession.{ClientSession, Link, send_io}
use iocp.Iocp.{IoCompletionPort, get_client_info, put_link, handle_send}
use iocp.Iocp.Accounts.{IsSlot, IsAccounted, IsExact, IsAccounted-free, IsAccounted-set}
use iocp.Membership.Lists.{count}

module _ (w : Windows) where
  -- What a completion of a send leaves of a session, its pool and its queue.
  pub send_io-total :
      (l : Link) (b : ℕ) (rest : List ℕ)
      → l.session.send_data_queue ≡ b ∷ rest
      → b < length l.send_pool.all_blocks
      → (r : Bool × Link) × (send_io w l ≡ some r)
        × (r.1.session ≡ l.session)
        × (r.1.send_pool ≡ l.send_pool)
  unfolding send_io
  send_io-total l b rest e lt =
      let (o, there) = get_elem?_of_lt l.send_pool.all_blocks b lt in
      elim (Bool-cases (w.send l.session.index l.session.generation (length l.requests))) [
        | inl sent ↦ (
          (
            true,
            record l {
              requests = l.requests ++ send_request l.session.index b (take o.len o.buffer) ∷ [];
            },
          ),
          ground (arith, e, there, sent),
          refl,
          refl,
        )
        | inr failed ↦ ((false, l), ground (arith, e, there, failed), refl, refl)
      ]

  send_complete-total :
      (l : Link) (b : ℕ) (rest : List ℕ) (size : ℕ)
      → l.session.send_data_queue ≡ b ∷ rest
      → ((c : ℕ) → 0 < count c rest → c < length l.send_pool.all_blocks)
      → (l' : Link) × (ClientSession.send_complete w l size ≡ some l')
        × (l'.session ≡ record l.session { send_data_queue = rest })
        × (l'.send_pool ≡ ObjectPool.free l.send_pool (some b))
  unfolding ClientSession.send_complete ObjectPool.free
  send_complete-total l b [] size e inside = (
    record l {
      send_pool = ObjectPool.free l.send_pool (some b);
      session = record l.session { send_data_queue = [] };
    },
    ground (arith, e),
    refl,
    refl,
  )
  send_complete-total l b (c ∷ rest) size e inside =
      let popped : Link = record l {
        send_pool = ObjectPool.free l.send_pool (some b);
        session = record l.session { send_data_queue = c ∷ rest };
      } in
      let (r, sent, session, pool) = send_io-total popped c rest refl (inside c (ground arith)) in
      (r.1, ground (arith, e, sent), session, pool)

  module _ (srv : IoCompletionPort) (v : IsExact srv) (i : ℕ) (s : ClientSession)
      (at : get_elem? srv.client_infos i ≡ some s) where
    popped-IsSlot :
        (rest : List ℕ) → IsSlot srv.free_session_list i (record s { send_data_queue = rest })
    popped-IsSlot rest =
        let o = v.slot i s at in
        record {
          index = o.index;
          once = o.once;
          open_socket = o.open_socket;
          accepting = o.accepting;
          tagged = o.tagged;
        }

    pub handle_send-IsExact :
        (b size : ℕ) (o : SendOverlapped) (rest : List ℕ)
        → get_elem? srv.send_buffer_pool.all_blocks b ≡ some o
        → (o.generation ≡ s.generation → s.send_data_queue ≡ b ∷ rest)
        → (srv' : IoCompletionPort) × (handle_send w srv i b size ≡ some srv') × IsExact srv'
    unfolding handle_send get_client_info put_link ObjectPool.free
    handle_send-IsExact b size o rest block current = elim (ℕ_discrete o.generation s.generation) [
      | no differ ↦ (
        record srv { send_buffer_pool = ObjectPool.free srv.send_buffer_pool (some b) },
        ground (arith, block, at, differ),
        IsAccounted-free b v (get_elem?-lt srv.send_buffer_pool.all_blocks b block),
      )
      | yes same ↦
          let front = current same in
          let (l', e, session, pool) =
            send_complete-total
              (record { session = s; send_pool = srv.send_buffer_pool; requests = srv.requests }) b
              rest size front (λ c h. v.queued i s at c (ground (arith, ap (count c) front))) in
          (
            put_link srv i l',
            ground (arith, block, at, same, e),
            subst
                (λ (p : ObjectPool SendOverlapped).
                  IsAccounted (set srv.client_infos i l'.session) srv.free_session_list
                    srv.client_cnt p)
                (sym pool)
                (IsAccounted-free b
                  (IsAccounted-set i l'.session v at (record {
                    here =
                        subst (IsSlot srv.free_session_list i) (sym session) (popped-IsSlot rest);
                    elsewhere = λ j ne. refl;
                    counted = λ n h. ground (arith, v.counted, session);
                    queued = λ c h. v.queued i s at c (ground (arith, ap (count c) front, session));
                  }))
                  (get_elem?-lt srv.send_buffer_pool.all_blocks b block)),
          )
    ]
