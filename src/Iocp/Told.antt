-- ===== src/Iocp/Told.antt =====
-- What a completion tells the virtual functions of IOCPChatServer/IOCP.h: the sizes of the bytes.
use iocp.Common.{
  ℕ, ◌^◌, ◌≤◌, ◌<◌, ◌≡◌, refl, sym, subst, Bool, true, false, none, some, List, [], ◌∷◌, ◌++◌, ◌==◌,
  if◌then◌else◌, arith, length, get_elem?, >>=-eq-some, inl, inr, Bool-cases, Option,
}
use iocp.Common.Int.{inc32}
use iocp.Net.{Windows}
use iocp.ClientSession
use iocp.ClientSession.{ClientSession, Link}
use iocp.Iocp.{
  IoCompletionPort, CompletionEntry, Event, on_connect, on_close, on_receive, accept_overlapped,
  recv_overlapped, send_overlapped, Overlapped, get_client_info, put_link, pop_free_session_index,
  push_free_session_index, post_next_accept, close_socket, handle_accept, handle_recv, handle_send,
  handle_entry,
}

-- The size that `OnReceive` is given is that of bytes that are there, and fits 32 bits; and the client
-- is one of the first `n`.
abbrev pub IsSized : ℕ → Event → Type 0
IsSized n (on_connect i) = Unit {0}
IsSized n (on_close i) = Unit {0}
IsSized n (on_receive i size bytes) = (size ≤ length bytes) × (size < 2 ^ 32) × (i < n)

module _ (c : ℕ) where
  abbrev pub AllSized : List Event → Type 0
  AllSized [] = Unit {0}
  AllSized (e ∷ es) = IsSized c e × AllSized es

  AllSized-append :
      (es : List Event) (e : Event) → AllSized es → IsSized c e → AllSized (es ++ e ∷ [])
  AllSized-append [] e all one = (one, tt)
  AllSized-append (x ∷ es) e (first, all) one = (first, AllSized-append es e all one)

  -- A step that tells what is sized, if anything.
  abbrev Tells : IoCompletionPort → Option IoCompletionPort → Type 0
  Tells srv o =
      (srv' : IoCompletionPort) → o ≡ some srv' → AllSized srv.events → AllSized srv'.events

  quiet-Tells :
      (srv srv' : IoCompletionPort)
      → srv'.events ≡ srv.events
      → AllSized srv.events
      → AllSized srv'.events
  quiet-Tells srv srv' e all = subst AllSized (sym e) all

  told-Tells :
      (srv srv' : IoCompletionPort) (e : Event)
      → IsSized c e
      → srv'.events ≡ srv.events ++ e ∷ []
      → AllSized srv.events
      → AllSized srv'.events
  told-Tells srv srv' e one told all =
      subst AllSized (sym told) (AllSized-append srv.events e all one)

module _ (w : Windows) (c : ℕ) where
  -- The sessions know indices below `c`.
  abbrev Known : IoCompletionPort → Type 0
  Known srv = (j : ℕ) (s : ClientSession) → get_elem? srv.client_infos j ≡ some s → s.index < c

  post_next_accept-events :
      (srv srv' : IoCompletionPort) → post_next_accept w srv ≡ some srv' → srv'.events ≡ srv.events
  unfolding post_next_accept pop_free_session_index get_client_info put_link
  post_next_accept-events srv srv' h = ground (arith, h)

  handle_send-events :
      (srv srv' : IoCompletionPort) (key block n : ℕ)
      → handle_send w srv key block n ≡ some srv'
      → srv'.events ≡ srv.events
  unfolding handle_send get_client_info put_link
  handle_send-events srv srv' key block n h = ground (arith, h)

  close_socket-Tells : (srv : IoCompletionPort) (i : ℕ) → Tells c srv (close_socket w srv i)
  unfolding close_socket put_link push_free_session_index
  close_socket-Tells srv i srv' h all =
      let (l, at, h₁) = >>=-eq-some (get_client_info srv i) _ h in
      elim (Bool-cases l.session.is_connected) [
        | inl on ↦
            let q : srv'.events ≡ srv.events ++ on_close l.session.index ∷ [] =
              ground (arith, h₁, on) in
            told-Tells c srv srv' (on_close l.session.index) tt q all
        | inr off ↦ quiet-Tells c srv srv' (ground (arith, h₁, off)) all
      ]

  get_client_info-Known :
      (srv : IoCompletionPort) (key : ℕ) (l : Link)
      → Known srv
      → get_client_info srv key ≡ some l
      → l.session.index < c
  unfolding get_client_info
  get_client_info-Known srv key l known h =
      let (s, there, e) = >>=-eq-some (get_elem? srv.client_infos key) _ h in
      let q : s ≡ l.session = ground (arith, e) in subst (λ x. x.index < c) q (known key s there)

  handle_recv-Tells :
      (srv : IoCompletionPort) (key k n : ℕ) (bytes : List ℕ)
      → n ≤ length bytes
      → n < 2 ^ 32
      → Known srv
      → Tells c srv (handle_recv w srv key k n bytes)
  unfolding handle_recv put_link
  handle_recv-Tells srv key k n bytes enough small known srv' h all =
      let (owner, there, h₁) = >>=-eq-some (get_elem? srv.client_infos k) _ h in
      let (l, at, h₂) = >>=-eq-some (get_client_info srv key) _ h₁ in
      elim (Bool-cases (owner.recv_generation == l.session.generation)) [
        | inl fresh ↦
            let q : srv'.events ≡ srv.events ++ on_receive l.session.index n bytes ∷ [] =
              ground (arith, h₂, fresh) in
            told-Tells c srv srv' (on_receive l.session.index n bytes)
              (enough, small, get_client_info-Known srv key l known at) q all
        | inr stale ↦ quiet-Tells c srv srv' (ground (arith, h₂, stale)) all
      ]

  handle_accept-Tells : (srv : IoCompletionPort) (k : ℕ) → Tells c srv (handle_accept w srv k)
  unfolding handle_accept put_link
  handle_accept-Tells srv k srv' h all =
      let (owner, there, h₁) = >>=-eq-some (get_elem? srv.client_infos k) _ h in
      let (l, at, h₂) = >>=-eq-some (get_client_info srv owner.accept_index) _ h₁ in
      let l' = (ClientSession.accept_completion w l).1 in
      let after = put_link srv owner.accept_index l' in
      let accepted = record after {
        client_cnt = inc32 after.client_cnt;
        events = after.events ++ on_connect l'.session.index ∷ [];
      } in
      let (mid, e, h₃) =
        >>=-eq-some
          (if (ClientSession.accept_completion w l).0
            then some accepted
            else close_socket w after owner.accept_index)
          _ h₂ in
      let told =
        by_accepted after accepted l'.session.index owner.accept_index
          (ClientSession.accept_completion w l).0 refl mid e all in
      quiet-Tells c mid srv' (post_next_accept-events mid srv' h₃) told
    where
      by_accepted :
          (after accepted : IoCompletionPort) (i k : ℕ) (b : Bool)
          → accepted.events ≡ after.events ++ on_connect i ∷ []
          → Tells c after (if b then some accepted else close_socket w after k)
      by_accepted after accepted i k true told mid e all' =
          let q : mid.events ≡ after.events ++ on_connect i ∷ [] = ground (arith, e, told) in
          told-Tells c after mid (on_connect i) tt q all'
      by_accepted after accepted i k false told mid e all' = close_socket-Tells after k mid e all'

  -- Of a completion that says no more bytes than there are, and fewer than 2 ^ 32, only such sizes are
  -- told, for clients that the sessions know.
  pub handle_entry-Tells :
      (srv : IoCompletionPort) (e : CompletionEntry)
      → e.io_size ≤ length e.recv_buf
      → e.io_size < 2 ^ 32
      → Known srv
      → Tells c srv (handle_entry w srv e)
  unfolding handle_entry
  handle_entry-Tells srv e enough small known srv' h all = by_structure e.overlapped h
    where
      closes_or :
          (o : Option IoCompletionPort)
          → Tells c srv o
          → (b : Bool) → (if b then close_socket w srv e.key else o) ≡ some srv'
          → AllSized c srv'.events
      closes_or o t true h' = close_socket-Tells srv e.key srv' h' all
      closes_or o t false h' = t srv' h' all

      by_structure :
          (o : Option Overlapped)
          → elim o [
            | none ↦
                if e.io_size == 0 then some (record srv { is_worker_run = false }) else some srv
            | some (accept_overlapped k) ↦ handle_accept w srv k
            | some (recv_overlapped k) ↦
                if e.io_size == 0
                then close_socket w srv e.key
                else handle_recv w srv e.key k e.io_size e.recv_buf
            | some (send_overlapped block) ↦
                if e.io_size == 0
                then close_socket w srv e.key
                else handle_send w srv e.key block e.io_size
          ]
            ≡ some srv'
          → AllSized c srv'.events
      by_structure none h' = quiet-Tells c srv srv' (ground (arith, h')) all
      by_structure (some (accept_overlapped k)) h' = handle_accept-Tells srv k srv' h' all
      by_structure (some (recv_overlapped k)) h' =
          closes_or _ (handle_recv-Tells srv e.key k e.io_size e.recv_buf enough small known)
            (e.io_size == 0) h'
      by_structure (some (send_overlapped block)) h' =
          closes_or _
            (λ mid h'' all'.
              quiet-Tells c srv mid (handle_send-events srv mid e.key block e.io_size h'') all')
            (e.io_size == 0) h'
