-- ===== src/Membership/Updates.antt =====
-- Changes of one user that leave the rooms alone.
use native.Mathlib.Decide.{ℕ_discrete}
use iocp.Common.{
  sym, ap, ap₂, subst, ℕ, ◌<◌, ◌≡◌, ◌≢◌, refl, ◌∙◌, some, List, arith, length, get_elem?, set,
}
use iocp.Common.Int.{pos}
use iocp.User.{User, DomainState, no_domain, login, room}
use iocp.Room.{Room}
use iocp.Membership.{seat, seat_at, seats, Seated}
use iocp.Membership.Lists.{get_elem?-set}

pub seat_outside : (u : User) (k : ℕ) → u.cur_domain_state ≢ room → seat u k ≡ 0
seat_outside u k h = by_state u.cur_domain_state refl
  where
    by_state : (s : DomainState) → u.cur_domain_state ≡ s → seat u k ≡ 0
    by_state no_domain e = rw e
    by_state login e = rw e
    by_state room e = absurd (h e)

module _ {limit : ℕ} {pool : List User} {rooms : List Room} (i : ℕ) {u : User} (u' : User)
    (v : Seated limit pool rooms) (here : get_elem? pool i ≡ some u)
    (same : u'.index ≡ u.index) where
  seats-set :
      ((k : ℕ) → seat u' k ≡ seat u k) → (j k : ℕ) → seats (set pool i u') j k ≡ seats pool j k
  seats-set e j k = ground (arith, get_elem?-set pool i j u' here, e k)

  indexed-set : (j : ℕ) (w : User) → get_elem? (set pool i u') j ≡ some w → w.index ≡ j
  indexed-set j w h =
      ground (arith, get_elem?-set pool i j u' here, v.indexed i u here, v.indexed j w)

  inside-set :
      (u'.cur_domain_state ≡ room → (k : ℕ) × (u'.room_index ≡ pos k) × (k < length rooms))
      → (j : ℕ) (w : User) → get_elem? (set pool i u') j ≡ some w
      → w.cur_domain_state ≡ room
      → (k : ℕ) × (w.room_index ≡ pos k) × (k < length rooms)
  inside-set place j w h state = elim (ℕ_discrete i j) [
    | yes e ↦
        subst (λ (x : User). (k : ℕ) × (x.room_index ≡ pos k) × (k < length rooms)) (w_is e)
          (place (ap (λ x. x.cur_domain_state) (w_is e) ∙ state))
    | no ne ↦ v.inside j w (ground (arith, get_elem?-set pool i j u' here)) state
  ]
    where
      w_is : i ≡ j → u' ≡ w
      w_is e = ground (arith, get_elem?-set pool i j u' here)

  -- The user stays where it is.
  pub Seated-keep :
      u'.cur_domain_state ≡ u.cur_domain_state
      → u'.room_index ≡ u.room_index
      → Seated limit (set pool i u') rooms
  Seated-keep state number = record {
    counted = v.counted;
    seated =
        λ j k. v.seated j k ∙ sym (seats-set (λ k'. ap₂ (λ s n. seat_at s n k') state number) j k);
    indexed = indexed-set;
    inside =
        inside-set λ r. let (k, n, lt) = v.inside i u here (sym state ∙ r) in (k, number ∙ n, lt);
  }

  -- The user is in no room, before and after.
  pub Seated-outside :
      u.cur_domain_state ≢ room → u'.cur_domain_state ≢ room → Seated limit (set pool i u') rooms
  Seated-outside before after = record {
    counted = v.counted;
    seated = λ j k.
        v.seated j k
        ∙ sym (seats-set (λ k'. seat_outside u' k' after ∙ sym (seat_outside u k' before)) j k);
    indexed = indexed-set;
    inside = inside-set λ r. absurd (after r);
  }
