-- ===== src/ObjectPool.antt =====
-- IOCPChatServer/ObjectPool.h: the pool of send buffers. A `T*` is the place of the block in
-- `mAllBlocks`, whose blocks stay until the pool ends; `mFreeList` is listed from its back. Each
-- operation under the lock is one step.
use iocp.Common.{ℕ, zero, suc, ◌+◌, Option, none, some, List, [], ◌∷◌, ◌++◌, length, set}

pub record ObjectPool {ℓ} (A : Type ℓ) : Type ℓ where
  pub all_blocks : List A
  pub free_list : List ℕ
  pub pool_size : ℕ

-- The loop of `Init`; `fresh` is `new T()`, of the number of the block.
unfoldable pub init_loop {ℓ} : {A : Type ℓ} → (ℕ → A) → ℕ → ℕ → ObjectPool A → ObjectPool A
init_loop fresh i zero p = p
init_loop fresh i (suc left) p = init_loop fresh (i + 1) left (record p {
  all_blocks = p.all_blocks ++ fresh i ∷ [];
  free_list = length p.all_blocks ∷ p.free_list;
})

unfoldable pub init {ℓ} : {A : Type ℓ} → (ℕ → A) → ObjectPool A → ℕ → ObjectPool A
init fresh p pool_size_ = record (init_loop fresh 0 pool_size_ p) { pool_size = pool_size_ }

unfoldable pub alloc {ℓ} : {A : Type ℓ} → ObjectPool A → Option ℕ × ObjectPool A
alloc p = elim p.free_list [
  | [] ↦ (none, p)
  | obj ∷ rest ↦ (some obj, record p { free_list = rest })
]

-- `none` is the null pointer.
unfoldable pub free {ℓ} : {A : Type ℓ} → ObjectPool A → Option ℕ → ObjectPool A
free p none = p
free p (some obj) = record p { free_list = obj ∷ p.free_list }

unfoldable pub get_available_count {ℓ} : {A : Type ℓ} → ObjectPool A → ℕ
get_available_count p = length p.free_list

-- What code that holds a block writes there.
unfoldable pub put_block {ℓ} : {A : Type ℓ} → ObjectPool A → ℕ → A → ObjectPool A
put_block p i block = record p { all_blocks = set p.all_blocks i block }
