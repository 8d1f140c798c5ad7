-- ===== src/PacketManager/Loop/Leading.antt =====
-- What a handler of IOCPChatServer/PacketManager.cpp leads to when it succeeds, put together from its
-- parts.
use iocp.Common.{◌≡◌, Bool, true, false, Option, some, ◌>>=◌, if◌then◌else◌, >>=-eq-some}
use iocp.User.{DomainState, no_domain, login, room}
use iocp.PacketManager.{PacketManager}

module _ (R : PacketManager → PacketManager → Type 0) where
  -- Where the handler succeeds, `R` holds of the states before and after.
  abbrev pub Leads : PacketManager → Option PacketManager → Type 0
  Leads m o = (m' : PacketManager) → o ≡ some m' → R m m'

  pub choice-Leads :
      (m : PacketManager) (b : Bool) (x y : Option PacketManager)
      → Leads m x
      → Leads m y
      → Leads m (if b then x else y)
  choice-Leads m true x y kx ky = kx
  choice-Leads m false x y kx ky = ky

  pub bind-Leads :
      {A : Type 0} (m : PacketManager) (o : Option A) (f : A → Option PacketManager)
      → ((x : A) → o ≡ some x → Leads m (f x))
      → Leads m (o >>= f)
  bind-Leads m o f each m' h = let (x, e, h') = >>=-eq-some o f h in each x e m' h'

  -- What a user's state leads to.
  pub by_state-Leads :
      (m : PacketManager) (s : DomainState) (in_login in_room otherwise : Option PacketManager)
      → Leads m in_login
      → Leads m in_room
      → Leads m otherwise
      → Leads m (elim s [ login ↦ in_login | room ↦ in_room | no_domain ↦ otherwise ])
  by_state-Leads m login a b c ka kb kc = ka
  by_state-Leads m room a b c ka kb kc = kb
  by_state-Leads m no_domain a b c ka kb kc = kc
