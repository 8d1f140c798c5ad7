-- ===== src/ClientSession/Traffic.antt =====
-- All the sends of one connection, against a queue of messages: IOCPChatServer/ClientSession.h keeps
-- one send under way at a time, in the order of the calls of `SendMsg`.
use iocp.Common.{
  ℕ, suc, ◌≤◌, ◌<◌, ◌≡◌, refl, sym, ap, ap₂, ◌∙◌, true, false, some, List, [], ◌∷◌, ◌++◌,
  append_assoc, append-nil, arith, ◌==◌, if◌then◌else◌, length, length-append, length-set,
  length-drop, get_elem?-set_self, set, take, drop, Bool-cases, subst, inl, inr,
}
use iocp.Net.{Windows, SendOverlapped, max_sockbuf, send_request}
use iocp.ClientSession.{Link, send_msg, send_complete}
use iocp.ClientSession.Contents.{
  block_bytes, contents, sends_of, waiting, IsOwned, sends_of-append, contents-append, contents-set,
  length-contents,
}
use iocp.ClientSession.Sending.{
  send_msg_lem, send_msg_refused, send_complete_lem, after_send, after_complete,
}
use iocp.ClientSession.Prefixes.{drop-snoc, drop_next, take_one_more, take-snoc}
use iocp.Membership.Lists.{count, count-append}

-- A run of calls of `SendMsg` and of completions, from `start`: the messages that were taken, in
-- order, and how many sends have been completed.
pub data Traffic (w : Windows) (start : Link) : Link → List (List ℕ) → ℕ → Type 0 where
  opened : Traffic w start start [] 0
  takes :
      {l l' : Link} {taken : List (List ℕ)} {n : ℕ} (msg : List ℕ)
      → Traffic w start l taken n
      → length msg ≤ max_sockbuf
      → send_msg w l (length msg) msg ≡ some (true, l')
      → (after : List (List ℕ)) → after ≡ taken ++ msg ∷ []
      → Traffic w start l' after n
  refuses :
      {l l' : Link} {taken : List (List ℕ)} {n : ℕ} (msg : List ℕ)
      → Traffic w start l taken n
      → length msg ≤ max_sockbuf
      → send_msg w l (length msg) msg ≡ some (false, l')
      → Traffic w start l' taken n
  completes :
      {l l' : Link} {taken : List (List ℕ)} {n : ℕ} (size : ℕ)
      → Traffic w start l taken n
      → n < length taken
      → send_complete w l size ≡ some l'
      → Traffic w start l' taken (suc n)

-- The state of a connection on which `taken` has been taken and `n` sends are complete.
pub record IsChannel (start l : Link) (taken : List (List ℕ)) (n : ℕ) : Type 0 where
  pub owned : IsOwned l
  pub done : n ≤ length taken
  pub queued : waiting l ≡ drop n taken
  pub wired : sends_of l.requests ≡ sends_of start.requests ++ take (suc n) taken

module _ (w : Windows) (sends : (i g n : ℕ) → w.send i g n ≡ true) (start : Link) where
  IsOwned-send :
      (l : Link) (b : ℕ) (rest : List ℕ) (o : SendOverlapped) (msg : List ℕ)
      → l.send_pool.free_list ≡ b ∷ rest
      → IsOwned l
      → IsOwned (after_send w sends l b rest o msg)
  IsOwned-send l b rest o msg free v = record {
    once = λ c.
        omega
          (arith, ap (count c) free, v.once c, count-append c l.session.send_data_queue (b ∷ []));
    inside = λ c h. omega (
      arith,
      ap (count c) free,
      v.inside c,
      count-append c l.session.send_data_queue (b ∷ []),
      length-set l.send_pool.all_blocks b o,
    );
  }

  waiting_send :
      (l : Link) (b : ℕ) (rest : List ℕ) (o : SendOverlapped) (msg : List ℕ)
      → l.send_pool.free_list ≡ b ∷ rest
      → take o.len o.buffer ≡ msg
      → IsOwned l
      → waiting (after_send w sends l b rest o msg) ≡ waiting l ++ msg ∷ []
  waiting_send l b rest o msg free bytes v =
      let blocks = set l.send_pool.all_blocks b o in
      let lt : b < length l.send_pool.all_blocks = v.inside b (ground (arith, ap (count b) free)) in
      contents-append blocks l.session.send_data_queue (b ∷ [])
      ∙ ap₂ ◌++◌
          (contents-set l.send_pool.all_blocks b o l.session.send_data_queue
            (ground (arith, ap (count b) free, v.once b)))
          (ground (arith, get_elem?-set_self l.send_pool.all_blocks b o lt, bytes))

  sent_send :
      (l : Link) (b : ℕ) (rest : List ℕ) (o : SendOverlapped) (msg : List ℕ)
      → sends_of (after_send w sends l b rest o msg).requests
        ≡ sends_of l.requests ++ (if length l.session.send_data_queue == 0 then msg ∷ [] else [])
  sent_send l b rest o msg = elim (Bool-cases (length l.session.send_data_queue == 0)) [
    | inl e ↦ rw e (sends_of-append l.requests (send_request l.session.index b msg ∷ []))
    | inr e ↦ rw e (sym (append-nil (sends_of l.requests)))
  ]

  pub takes-IsChannel :
      (l l' : Link) (taken : List (List ℕ)) (n : ℕ) (msg : List ℕ)
      → IsChannel start l taken n
      → length msg ≤ max_sockbuf
      → send_msg w l (length msg) msg ≡ some (true, l')
      → IsChannel start l' (taken ++ msg ∷ []) n
  takes-IsChannel l l' taken n msg v fits sent = by_free l.send_pool.free_list refl
    where
      by_free :
          (free : List ℕ) → l.send_pool.free_list ≡ free → IsChannel start l' (taken ++ msg ∷ []) n
      by_free [] e =
          let no_block = send_msg_refused w sends l (length msg) msg e in
          absurd (ground (arith, sent, no_block))
      by_free (b ∷ rest) e =
          let (o, bytes, result) =
            send_msg_lem w sends l b rest msg e (v.owned.inside b (ground (arith, ap (count b) e)))
              fits in
          let there : after_send w sends l b rest o msg ≡ l' = ground (arith, sent, result) in
          subst (λ x. IsChannel start x (taken ++ msg ∷ []) n) there
            (record {
              owned = IsOwned-send l b rest o msg e v.owned;
              done = omega (arith, v.done, length-append taken (msg ∷ []));
              queued =
                  waiting_send l b rest o msg e bytes v.owned
                  ∙ ap (λ q. q ++ msg ∷ []) v.queued
                  ∙ sym (drop-snoc taken (msg ∷ []) n v.done);
              wired =
                  sent_send l b rest o msg
                  ∙ ap₂ ◌++◌ v.wired (
                      ap (λ k. if k == 0 then msg ∷ [] else [])
                        (sym (length-contents l.send_pool.all_blocks l.session.send_data_queue)
                          ∙ ap length v.queued))
                  ∙ append_assoc (sends_of start.requests) (take (suc n) taken)
                      (if length (drop n taken) == 0 then msg ∷ [] else [])
                  ∙ ap (λ q. sends_of start.requests ++ q) (sym (take-snoc taken msg n v.done));
            })

  pub refuses-IsChannel :
      (l l' : Link) (taken : List (List ℕ)) (n : ℕ) (msg : List ℕ)
      → IsChannel start l taken n
      → length msg ≤ max_sockbuf
      → send_msg w l (length msg) msg ≡ some (false, l')
      → IsChannel start l' taken n
  refuses-IsChannel l l' taken n msg v fits sent = by_free l.send_pool.free_list refl
    where
      by_free : (free : List ℕ) → l.send_pool.free_list ≡ free → IsChannel start l' taken n
      by_free [] e =
          let no_block = send_msg_refused w sends l (length msg) msg e in
          let there : l ≡ l' = ground (arith, sent, no_block) in
          subst (λ x. IsChannel start x taken n) there v
      by_free (b ∷ rest) e =
          let (o, bytes, result) =
            send_msg_lem w sends l b rest msg e (v.owned.inside b (ground (arith, ap (count b) e)))
              fits in
          absurd (ground (arith, sent, result))

  IsOwned-complete :
      (l : Link) (b : ℕ) (rest : List ℕ)
      → l.session.send_data_queue ≡ b ∷ rest
      → IsOwned l
      → IsOwned (after_complete w sends l b rest)
  IsOwned-complete l b rest e v = record {
    once = λ c. ground (arith, ap (count c) e, v.once c);
    inside = λ c h. ground (arith, ap (count c) e, v.inside c);
  }

  -- The queue is not empty while fewer sends are complete than were taken.
  pub front :
      (l : Link) (taken : List (List ℕ)) (n : ℕ)
      → IsChannel start l taken n
      → n < length taken
      → (b : ℕ) × (rest : List ℕ) × (l.session.send_data_queue ≡ b ∷ rest)
  front l taken n v lt = by_queue l.session.send_data_queue refl
    where
      by_queue :
          (q : List ℕ)
          → l.session.send_data_queue ≡ q
          → (b : ℕ) × (rest : List ℕ) × (l.session.send_data_queue ≡ b ∷ rest)
      by_queue [] e = absurd (
          omega (
            arith,
            ap length e,
            ap length v.queued,
            length-contents l.send_pool.all_blocks l.session.send_data_queue,
            length-drop {0} n taken,
          ))
      by_queue (b ∷ rest) e = (b, rest, e)

  pub result_complete :
      (l : Link) (b : ℕ) (rest : List ℕ) (size : ℕ)
      → l.session.send_data_queue ≡ b ∷ rest
      → IsOwned l
      → send_complete w l size ≡ some (after_complete w sends l b rest)
  result_complete l b rest size e v =
      send_complete_lem w sends l b rest size e (λ c h. v.inside c (ground (arith, ap (count c) e)))

  sent_complete :
      (l : Link) (b : ℕ) (rest : List ℕ)
      → sends_of (after_complete w sends l b rest).requests
        ≡ sends_of l.requests ++ take 1 (contents l.send_pool.all_blocks rest)
  sent_complete l b [] = sym (append-nil (sends_of l.requests))
  sent_complete l b (c ∷ rest) =
      sends_of-append l.requests
        (send_request l.session.index c (block_bytes l.send_pool.all_blocks c) ∷ [])

  pub completes-IsChannel :
      (l l' : Link) (taken : List (List ℕ)) (n size : ℕ)
      → IsChannel start l taken n
      → n < length taken
      → send_complete w l size ≡ some l'
      → IsChannel start l' taken (suc n)
  completes-IsChannel l l' taken n size v lt ended =
      let (b, rest, e) = front l taken n v lt in
      let result = result_complete l b rest size e v.owned in
      let there : after_complete w sends l b rest ≡ l' = ground (arith, ended, result) in
      let next =
        drop_next taken n (block_bytes l.send_pool.all_blocks b)
          (contents l.send_pool.all_blocks rest)
          (sym v.queued ∙ ap (contents l.send_pool.all_blocks) e) in
      subst (λ x. IsChannel start x taken (suc n)) there
        (record {
          owned = IsOwned-complete l b rest e v.owned;
          done = omega arith;
          queued = sym next;
          wired =
              sent_complete l b rest
              ∙ ap₂ ◌++◌ v.wired (ap (take 1) (sym next))
              ∙ append_assoc (sends_of start.requests) (take (suc n) taken)
                  (take 1 (drop (suc n) taken))
              ∙ ap (λ q. sends_of start.requests ++ q) (sym (take_one_more taken (suc n)));
        })
