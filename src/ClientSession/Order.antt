-- ===== src/ClientSession/Order.antt =====
-- The order of the sends of one connection (IOCPChatServer/ClientSession.h).
use iocp.Common.{
  ℕ, suc, ◌≤◌, ◌<◌, ◌≡◌, ap, refl, Bool, true, false, some, List, [], ◌∷◌, ◌++◌, arith, length,
  take, drop, sym, append-nil, subst,
}
use iocp.Net.{Windows, max_sockbuf}
use iocp.ClientSession.{Link, send_msg, send_complete}
use iocp.ClientSession.Contents.{sends_of, waiting, contents, IsOwned}
use iocp.ClientSession.Sending.{send_msg_lem, send_msg_refused, after_send, after_complete}
use iocp.ClientSession.Traffic.{
  Traffic, opened, takes, refuses, completes, IsChannel, takes-IsChannel, refuses-IsChannel,
  completes-IsChannel, front, result_complete,
}
use iocp.Membership.Lists.{count}

module _ (w : Windows) (start : Link) (sends : (i g n : ℕ) → w.send i g n ≡ true)
    (owned : IsOwned start) (unused : start.session.send_data_queue ≡ []) where
  Traffic-IsChannel :
      {l : Link} {taken : List (List ℕ)} {n : ℕ}
      → Traffic w start l taken n
      → IsChannel start l taken n
  Traffic-IsChannel opened = record {
    owned = owned;
    done = omega arith;
    queued = ap (contents start.send_pool.all_blocks) unused;
    wired = sym (append-nil (sends_of start.requests));
  }
  Traffic-IsChannel {l = l'} (takes {l} {taken} {n} msg t fits sent after e) =
      subst (λ q. IsChannel start l' q n) (sym e)
        (takes-IsChannel w sends start l l' taken n msg (Traffic-IsChannel t) fits sent)
  Traffic-IsChannel {l = l'} (refuses {l} {taken} {n} msg t fits sent) =
      refuses-IsChannel w sends start l l' taken n msg (Traffic-IsChannel t) fits sent
  Traffic-IsChannel {l = l'} (completes {l} {taken} {n} size t lt ended) =
      completes-IsChannel w sends start l l' taken n size (Traffic-IsChannel t) lt ended

  -- While Windows takes every send, and from a connection with no send under way whose blocks are
  -- all in one place: after any calls of `SendMsg` with messages that fit and any completions, what
  -- has been handed to Windows is the messages that were taken, in their order and each once, up to
  -- one more than have been completed; the queue holds the rest of them; and still no block is in
  -- two places.
  pub send_order :
      {l : Link} {taken : List (List ℕ)} {n : ℕ}
      → Traffic w start l taken n
      → (sends_of l.requests ≡ sends_of start.requests ++ take (suc n) taken)
        × (waiting l ≡ drop n taken)
        × IsOwned l
  send_order t = let c = Traffic-IsChannel t in (c.wired, c.queued, c.owned)

  -- On such a connection `SendMsg` always answers: it takes a message that fits if a block is free,
  -- and refuses it, changing nothing, if none is.
  pub send_msg-total :
      {l : Link} {taken : List (List ℕ)} {n : ℕ} (msg : List ℕ)
      → Traffic w start l taken n
      → length msg ≤ max_sockbuf
      → (done : Bool) × (l' : Link) × (send_msg w l (length msg) msg ≡ some (done, l'))
        × (done ≡ true → 0 < length l.send_pool.free_list)
        × (done ≡ false → (l.send_pool.free_list ≡ []) × (l' ≡ l))
  send_msg-total {l} {taken} {n} msg t fits = by_free l.send_pool.free_list refl
    where
      by_free :
          (free : List ℕ)
          → l.send_pool.free_list ≡ free
          → (done : Bool) × (l' : Link) × (send_msg w l (length msg) msg ≡ some (done, l'))
            × (done ≡ true → 0 < length l.send_pool.free_list)
            × (done ≡ false → (l.send_pool.free_list ≡ []) × (l' ≡ l))
      by_free [] e =
          (false, l, send_msg_refused w sends l (length msg) msg e, (λ h. cc), (λ h. (e, refl)))
      by_free (b ∷ rest) e =
          let c = Traffic-IsChannel t in
          let (o, bytes, result) =
            send_msg_lem w sends l b rest msg e (c.owned.inside b (ground (arith, ap (count b) e)))
              fits in
          (
            true,
            after_send w sends l b rest o msg,
            result,
            (λ h. ground (arith, ap length e)),
            (λ h. cc),
          )

  -- On such a connection the completion of a send, while one is under way, never finds the queue
  -- empty: its block returns to the pool.
  pub send_complete-total :
      {l : Link} {taken : List (List ℕ)} {n : ℕ} (size : ℕ)
      → Traffic w start l taken n
      → n < length taken
      → (l' : Link) × (send_complete w l size ≡ some l')
        × (length l'.send_pool.free_list ≡ suc (length l.send_pool.free_list))
  send_complete-total {l} {taken} {n} size t lt =
      let c = Traffic-IsChannel t in
      let (b, rest, e) = front w sends start l taken n c lt in
      (after_complete w sends l b rest, result_complete w sends start l b rest size e c.owned, refl)
