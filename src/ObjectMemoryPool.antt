-- ===== src/ObjectMemoryPool.antt =====
-- IOCPChatServer/ObjectMemoryPool.h: a pool of raw chunks, which no other file uses. A pointer to a
-- chunk is its number. The first word of a chunk, which the pool reads as the next free one, is kept
-- in `words`; who holds a chunk may write there. `none` is an access out of the memory.
pub mod Reusing
use iocp.Common.{
  ℕ, zero, suc, ◌+◌, Option, none, some, List, [], ◌∷◌, ◌>>=◌, if◌then◌else◌, ltb, get_elem?, set,
}

pub record ObjectMemoryPool : Type 0 where
  pub free_list_head : Option ℕ
  pub words : List (Option ℕ)
  pub chunk_size : ℕ
  pub pool_size : ℕ

-- The loop of the constructor, from the chunk `i` on: each chunk leads to the next, the last to none.
unfoldable pub links : ℕ → ℕ → List (Option ℕ)
links i zero = []
links i (suc zero) = none ∷ []
links i (suc (suc left)) = some (i + 1) ∷ links (i + 1) (suc left)

-- `size` is what the member `poolSize` holds before the constructor, which initialises it by itself.
-- In memory for no chunk, the last write is out of it.
unfoldable pub new_pool : ℕ → ℕ → Option ObjectMemoryPool
new_pool zero chunk_size_ = none
new_pool (suc n) chunk_size_ = some (record {
  free_list_head = some 0;
  words = links 0 (suc n);
  chunk_size = if ltb chunk_size_ 8 then 8 else chunk_size_;
  pool_size = suc n;
})

unfoldable pub allocate : ObjectMemoryPool → Option (Option ℕ × ObjectMemoryPool)
allocate p = elim p.free_list_head [
  | none ↦ some (none, p)
  | some chunk ↦
      get_elem? p.words chunk >>= λ next. some (some chunk, record p { free_list_head = next })
]

-- The list behind the chunk that is returned is not linked to it.
unfoldable pub deallocate : ObjectMemoryPool → Option ℕ → ObjectMemoryPool
deallocate p none = p
deallocate p (some chunk) = record p { free_list_head = some chunk }

-- What the holder of a chunk writes at its front.
unfoldable pub write_word : ObjectMemoryPool → ℕ → Option ℕ → ObjectMemoryPool
write_word p chunk word = record p { words = set p.words chunk word }
