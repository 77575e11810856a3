-- ===== src/Rpc/CachedClient/Stale.antt =====
-- A block that is cached stays: crates/forge-index-rpc/src/cached_client.rs.
use forge_index.Base.{
  ℕ, Bool, Option, none, some, List, [], ◌∷◌, ◌++◌, ◌≡◌, refl, ap, inl, inr, Bool-cases, arith,
}
use forge_index.Base.Exec.{Result, ok, err, Exec}
use forge_index.Base.Keeps.{Keeps}
use forge_index.Base.Text.{Text}
use forge_index.Core.Types.{Block}
use forge_index.Rpc.CachedClient.{
  CachedRpcClient, record_hit, get_block_by_number, store_value, value_from, read_through,
}
use forge_index.Rpc.Error.{RpcError}
use forge_index.Rpc.Store.{
  RpcCacheStore, on_blocks, BlockRow, is_block, same_block, into_block, block_row, get_block,
  put_block,
}
use forge_index.Rpc.Table.{Table, find_row, has_key, insert_new}

find_row-append :
    {R : Type 0} (test : R → Bool) (rows more : List R) (r : R)
    → find_row test rows ≡ some r
    → find_row test (rows ++ more) ≡ some r
find_row-append test [] more r h = ground (arith, h)
find_row-append test (x ∷ rows) more r h = elim (Bool-cases (test x)) [
  | inl here ↦ ground (arith, h, here)
  | inr later ↦ ground (arith, later, find_row-append test rows more r (ground (arith, h, later)))
]

find_row-insert_new :
    {R : Type 0} (test : R → Bool) (same : R → R → Bool) (rows : List R) (row r : R)
    → find_row test rows ≡ some r
    → find_row test (insert_new same row rows).1 ≡ some r
find_row-insert_new test same rows row r h = elim (Bool-cases (has_key same row rows)) [
  | inl known ↦ rw known h
  | inr fresh ↦ rw fresh (find_row-append test rows (row ∷ []) r h)
]

-- the row is the one that a query for the block finds, and no statement on the blocks fails
abbrev pub IsCached : ℕ → ℕ → BlockRow → Table BlockRow → Type 0
IsCached chain_id number r t =
    (find_row (is_block chain_id number) t.rows ≡ some r) × (t.faults ≡ [])

module _ {W A : Type 0} (load : Exec RpcCacheStore Text (Option A)) (fetch : Exec W RpcError A)
    (save : A → Exec RpcCacheStore Text (Unit {0})) (P : RpcCacheStore → Type 0)
    (loads : Keeps P load) (saves : (a : A) → Keeps P (save a)) where
  store_value-keeps :
      (answer : Result RpcError A) (c : CachedRpcClient W)
      → P c.cache
      → P (store_value load fetch save answer c).1.cache
  store_value-keeps (err e) c h = h
  store_value-keeps (ok a) c h = saves a c.cache h

  value_from-keeps :
      (found : Result Text (Option A)) (c : CachedRpcClient W)
      → P c.cache
      → P (value_from load fetch save found c).1.cache
  value_from-keeps (ok (some a)) c h = h
  value_from-keeps (ok none) c h = store_value-keeps _ _ h
  value_from-keeps (err e) c h = store_value-keeps _ _ h

  -- a read through the cache keeps of the cache what reading and storing keep
  pub read_through-keeps :
      (c : CachedRpcClient W) → P c.cache → P (read_through load fetch save c).1.cache
  read_through-keeps c h = value_from-keeps (load c.cache).0 _ (loads c.cache h)

module _ (chain_id number : ℕ) where
  get_block_found :
      (t : Table BlockRow) (r : BlockRow)
      → IsCached chain_id number r t
      → get_block chain_id number t ≡ (ok (some (into_block r)), t)
  unfolding get_block
  get_block_found t r (found, calm) = rw (calm, found) refl

  put_block-IsCached :
      (other : ℕ) (block : Block) (t : Table BlockRow) (r : BlockRow)
      → IsCached chain_id number r t
      → IsCached chain_id number r (put_block other block t).1
  unfolding put_block
  put_block-IsCached other block t r (found, calm) = rw (calm) (
    find_row-insert_new (is_block chain_id number) same_block t.rows (block_row other block) r
        found,
    refl,
  )

  get_block-IsCached :
      (other n : ℕ) (t : Table BlockRow) (r : BlockRow)
      → IsCached chain_id number r t
      → IsCached chain_id number r (get_block other n t).1
  unfolding get_block
  get_block-IsCached other n t r (found, calm) = rw (calm) (found, refl)

module _ {W : Type 0} (fetch : ℕ → Exec W RpcError Block) (chain_id number : ℕ) (r : BlockRow) where
  pub get_block_by_number_cached :
      (c : CachedRpcClient W)
      → IsCached chain_id number r c.cache.blocks
      → get_block_by_number fetch chain_id number c ≡ (ok (into_block r), record_hit c)
  unfolding get_block_by_number
  get_block_by_number_cached c h = rw (get_block_found chain_id number c.cache.blocks r h) refl

  get_block_by_number-IsCached :
      (c : CachedRpcClient W) (n : ℕ)
      → IsCached chain_id number r c.cache.blocks
      → IsCached chain_id number r (get_block_by_number fetch chain_id n c).1.cache.blocks
  unfolding get_block_by_number
  get_block_by_number-IsCached c n =
      read_through-keeps (on_blocks (get_block chain_id n)) (fetch n)
        (λ block. on_blocks (put_block chain_id block)) (λ s. IsCached chain_id number r s.blocks)
        (λ s. get_block-IsCached chain_id number chain_id n s.blocks r)
        (λ block s. put_block-IsCached chain_id number chain_id block s.blocks r) c

  -- the client after it was asked for each of the numbers
  abbrev pub ask_all : List ℕ → CachedRpcClient W → CachedRpcClient W
  ask_all [] c = c
  ask_all (n ∷ ns) c = ask_all ns (get_block_by_number fetch chain_id n c).1

  ask_all-IsCached :
      (ns : List ℕ) (c : CachedRpcClient W)
      → IsCached chain_id number r c.cache.blocks
      → IsCached chain_id number r (ask_all ns c).cache.blocks
  ask_all-IsCached [] c h = h
  ask_all-IsCached (n ∷ ns) c h = ask_all-IsCached ns _ (get_block_by_number-IsCached c n h)

  -- A block that is cached is what every later call for its number returns, after any other calls and
  -- whatever the node has by then, as long as no statement on the cached blocks fails.
  pub cached_block_stays :
      (ns : List ℕ) (c : CachedRpcClient W)
      → IsCached chain_id number r c.cache.blocks
      → (get_block_by_number fetch chain_id number (ask_all ns c)).0 ≡ ok (into_block r)
  cached_block_stays ns c h =
      ap (λ p. p.0) (get_block_by_number_cached (ask_all ns c) (ask_all-IsCached ns c h))
