-- ===== src/Iocp/Start.antt =====
-- `StartServer` and `CreateClient` of IOCPChatServer/IOCP.h: the accounts of the sessions at the start.
use iocp.Common.{
  ℕ, zero, suc, ◌+◌, ◌*◌, ◌^◌, ◌<◌, ◌≡◌, refl, sym, ap, ◌∙◌, ◌&&◌, Option, some, List, [], ◌∷◌,
  arith, ltb, leb, if◌then◌else◌, ◌>>=◌, length, length-append, ◌++◌, get_elem?, drop, Option-cases,
  inl, inr,
}
use iocp.Common.Int.{pos}
use iocp.Net.{Windows, SendOverlapped}
use iocp.ObjectPool
use iocp.ObjectPool.{ObjectPool}
use iocp.ClientSession
use iocp.ClientSession.{ClientSession}
use iocp.Iocp.{
  IoCompletionPort, make_sessions, free_indices, create_client, server_of, post_next_accept,
  post_accepts, start_server, pop_free_session_index, get_client_info, put_link, max_pending_accept,
}
use iocp.Iocp.Accounts.{IsExact, connected}
use iocp.Iocp.Workers.{Works}
use iocp.Iocp.Accepts.{post_next_accept-IsExact}
use iocp.Membership.Lists.{count}

length-make_sessions : (i n : ℕ) → length (make_sessions i n) ≡ n
unfolding make_sessions
length-make_sessions i zero = refl
length-make_sessions i (suc n) = ap suc (length-make_sessions (i + 1) n)

connected-make_sessions : (i n : ℕ) → connected (make_sessions i n) ≡ 0
unfolding make_sessions ClientSession.init ClientSession.new_session
connected-make_sessions i zero = refl
connected-make_sessions i (suc n) = omega (arith, connected-make_sessions (i + 1) n)

get_elem?-make_sessions :
    (i n j : ℕ) (s : ClientSession)
    → get_elem? (make_sessions i n) j ≡ some s
    → (s ≡ ClientSession.init ClientSession.new_session (i + j)) × (j < n)
unfolding make_sessions
get_elem?-make_sessions i zero zero s h = cc
get_elem?-make_sessions i zero (suc j) s h = cc
get_elem?-make_sessions i (suc n) zero s h = (ground arith, omega arith)
get_elem?-make_sessions i (suc n) (suc j) s h =
    let (same, lt) = get_elem?-make_sessions (i + 1) n j s h in
    (same ∙ ap (ClientSession.init ClientSession.new_session) (omega arith), omega arith)

count-free_indices :
    (i n j : ℕ) → count j (free_indices i n) ≡ (if leb i j && ltb j (i + n) then 1 else 0)
unfolding free_indices
count-free_indices i zero j = ground arith
count-free_indices i (suc n) j = ground (arith, count-free_indices (i + 1) n j)

init_loop_inside :
    (fresh : ℕ → SendOverlapped) (i left : ℕ) (p : ObjectPool SendOverlapped)
    → ((b : ℕ) → 0 < count b p.free_list → b < length p.all_blocks)
    → (b : ℕ) → 0 < count b (ObjectPool.init_loop fresh i left p).free_list
    → b < length (ObjectPool.init_loop fresh i left p).all_blocks
unfolding ObjectPool.init_loop
init_loop_inside fresh i zero p inside = inside
init_loop_inside fresh i (suc left) p inside =
    init_loop_inside fresh (i + 1) left
      (record p {
        all_blocks = p.all_blocks ++ fresh i ∷ [];
        free_list = length p.all_blocks ∷ p.free_list;
      })
      (λ b h. ground (arith, inside b, length-append p.all_blocks (fresh i ∷ [])))

server_of-IsExact :
    (fresh : ℕ → SendOverlapped) (max_client : ℕ)
    → max_client < 2 ^ 31
    → IsExact (server_of fresh max_client)
unfolding ObjectPool.init
server_of-IsExact fresh max_client few = record {
  few = omega (arith, length-make_sessions 0 max_client);
  slot = λ j s at.
      let (same, lt) = get_elem?-make_sessions 0 max_client j s at in
      unfold ClientSession.init ClientSession.new_session in
      (record {
        index = ap (λ (t : ClientSession). t.index) same ∙ omega arith;
        once = ground (arith, count-free_indices 0 max_client j, same);
        open_socket = λ e. absurd (ground (arith, same));
        accepting = λ e. absurd (ground (arith, same));
        tagged = λ e. absurd (ground (arith, same));
      });
  free_in =
      λ j h. ground (arith, count-free_indices 0 max_client j, length-make_sessions 0 max_client);
  counted = ap pos (sym (connected-make_sessions 0 max_client));
  queued = λ j s at b h.
      let (same, lt) = get_elem?-make_sessions 0 max_client j s at in
      unfold ClientSession.init ClientSession.new_session in absurd (ground (arith, same));
  pooled =
      init_loop_inside fresh 0 (max_client * 4)
        (record { all_blocks = []; free_list = []; pool_size = 0 })
        (λ b h. absurd (omega (arith, h)));
}

module _ (w : Windows) (good : Works w) where
  post_next_accept-lists :
      (srv srv' : IoCompletionPort)
      → post_next_accept w srv ≡ some srv'
      → (srv'.free_session_list ≡ drop 1 srv.free_session_list) × (srv'.client_cnt ≡ srv.client_cnt)
  unfolding post_next_accept pop_free_session_index get_client_info put_link
  post_next_accept-lists srv srv' h = by_list srv.free_session_list refl
    where
      by_list :
          (free : List ℕ)
          → srv.free_session_list ≡ free
          → (srv'.free_session_list ≡ drop 1 srv.free_session_list)
            × (srv'.client_cnt ≡ srv.client_cnt)
      by_list [] e = (ground (arith, h, e), ground (arith, h, e))
      by_list (i ∷ rest) e = elim (Option-cases (get_elem? srv.client_infos i)) [
        | inl missing ↦ absurd (ground (arith, h, e, missing))
        | inr (s, at) ↦ (ground (arith, h, e, at), ground (arith, h, e, at))
      ]

  drop_more : (n : ℕ) (xs : List ℕ) → drop n (drop 1 xs) ≡ drop (suc n) xs
  drop_more zero [] = refl
  drop_more (suc n) [] = refl
  drop_more zero (x ∷ xs) = refl
  drop_more (suc n) (x ∷ xs) = refl

  post_accepts-IsExact :
      (n : ℕ) (srv : IoCompletionPort)
      → IsExact srv
      → (srv' : IoCompletionPort) × (post_accepts w n srv ≡ some srv')
        × IsExact srv'
        × (srv'.free_session_list ≡ drop n srv.free_session_list)
        × (srv'.client_cnt ≡ srv.client_cnt)
  unfolding post_accepts
  post_accepts-IsExact zero srv v = (srv, refl, v, refl, refl)
  post_accepts-IsExact (suc n) srv v =
      let (next, e, v') = post_next_accept-IsExact w good srv v in
      let (list, cnt) = post_next_accept-lists srv next e in
      let (srv', e', v'', list', cnt') = post_accepts-IsExact n next v' in
      (
        srv',
        ap (λ (o : Option IoCompletionPort). o >>= post_accepts w n) e ∙ e',
        v'',
        list' ∙ ap (drop n) list ∙ drop_more n srv.free_session_list,
        cnt' ∙ cnt,
      )

-- `StartServer` does something only for a number of clients whose buffers an `int` can count.
pub start_server-few :
    (w : Windows) (fresh : ℕ → SendOverlapped) (max_client : ℕ) (srv : IoCompletionPort)
    → start_server w fresh max_client ≡ some srv
    → (max_client < 2 ^ 29)
      × (post_accepts w max_pending_accept (server_of fresh max_client) ≡ some srv)
unfolding start_server create_client
start_server-few w fresh max_client srv h = (ground (arith, h), ground (arith, h))

-- When Windows does what accepts ask, `StartServer` for fewer than 2 ^ 29 clients ends without a
-- fault and with exact accounts: no client is counted, and the free sessions are those from the
-- hundredth on, the others wait for an accept.
pub start_server-IsExact :
    (w : Windows) (fresh : ℕ → SendOverlapped) (max_client : ℕ)
    → Works w
    → max_client < 2 ^ 29
    → (srv : IoCompletionPort) × (start_server w fresh max_client ≡ some srv)
      × IsExact srv
      × (srv.free_session_list ≡ drop 100 (free_indices 0 max_client))
      × (srv.client_cnt ≡ pos 0)
unfolding start_server create_client
start_server-IsExact w fresh max_client good few =
    let (srv, e, v, list, cnt) =
      post_accepts-IsExact w good max_pending_accept (server_of fresh max_client)
        (server_of-IsExact fresh max_client (omega arith)) in
    (srv, ground (arith, e, few), v, list, cnt)
