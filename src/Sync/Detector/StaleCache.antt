-- ===== src/Sync/Detector/StaleCache.antt =====
-- A reorg whose old blocks are cached: crates/forge-index-sync/src/reorg/detector.rs with the client of
-- crates/forge-index-rpc/src/cached_client.rs.
use forge_index.Base.{
  ℕ, zero, suc, ◌-◌, ◌≤◌, ◌≡◌, ◌≢◌, refl, sym, ap, ◌∙◌, inl, inr, true, false, [], ◌∷◌, none, some,
  arith, le→leb, ==_refl, if◌then◌else◌,
}
use forge_index.Base.Word.{saturating_sub}
use forge_index.Base.Maps.{get, get-insert_self}
use forge_index.Base.Exec.{Result, ok, err, Exec}
use forge_index.Core.Types.{Block}
use forge_index.Rpc.CachedClient.{CachedRpcClient, get_block_by_number, record_hit}
use forge_index.Rpc.CachedClient.Stale.{IsCached, get_block_by_number_cached}
use forge_index.Rpc.Error.{RpcError}
use forge_index.Rpc.Store.{BlockRow, into_block}
use forge_index.Sync.ChainState.{ChainState, get_hash, find_hash, is_empty, Ascending}
use forge_index.Sync.ChainState.Prune.{get_hash-prune_above}
use forge_index.Sync.Detector.{
  reorg, ReorgDetector, chain_key, state_of, rewind, walk_back, find_fork_point, process_block,
}
use forge_index.Sync.Detector.Decision.{Extends, entered, process_block_cases, process_block-reorg}
use forge_index.Sync.Error.{SyncError}

module _ {W Client : Type 0} (fetch : Client → ℕ → Exec W RpcError Block) (client : Client)
    (state : ChainState) (chain_id min_block : ℕ) where
  -- the walk stops where the client answers with the stored hash
  walk_back_agrees :
      (current : ℕ) (b : Block) (w v : W)
      → min_block ≤ current
      → fetch client current w ≡ (ok b, v)
      → get_hash current state ≡ some b.hash
      → (walk_back fetch client state chain_id min_block current w).0 ≡ ok (suc current)
  unfolding walk_back
  walk_back_agrees zero b w v low answer stored =
      rw (le→leb _ _ low, walk_back, answer, stored, ==_refl b.hash) refl
  walk_back_agrees (suc n) b w v low answer stored =
      rw (le→leb _ _ low, walk_back, answer, stored, ==_refl b.hash) (ground arith)

rewind_found :
    {W Client : Type 0} (chain_id : ℕ) (block : Block) (d : ReorgDetector Client)
    (r : Result SyncError ℕ × W) (f : ℕ)
    → r.0 ≡ ok f
    → (rewind chain_id block d r).0 ≡ ok (reorg chain_id f block.number)
unfolding rewind
rewind_found chain_id block d (ok g, w) f h = ground (arith, h)
rewind_found chain_id block d (err e, w) f h = cc

no_hash : (n : ℕ) (s : ChainState) → is_empty s ≡ true → get_hash n s ≡ none
unfolding get_hash is_empty
no_hash n s h =
    elim s.recent_blocks
        as (λ xs. elim xs [ [] ↦ true | _ ∷ _ ↦ false ] ≡ true → find_hash n xs ≡ none) [
          | [] ↦ λ _. refl
          | x ∷ xs ↦ λ e. cc
        ]
      h

stored-Extends :
    (s : ChainState) (block : Block) (parent hash : ℕ)
    → block.number ≡ suc parent
    → get_hash parent s ≡ some hash
    → hash ≢ block.parent_hash
    → ¬ Extends s block
stored-Extends s block parent hash next stored other (inl h) = cc (stored, no_hash parent s h)
stored-Extends s block parent hash next stored other (inr (inl h)) = absurd (omega arith)
stored-Extends s block parent hash next stored other (inr (inr (inl h))) =
    let e : block.number - 1 ≡ parent = omega arith in cc (stored, ap (λ n. get_hash n s) e, h)
stored-Extends s block parent hash next stored other (inr (inr (inr h))) =
    let e : block.number - 1 ≡ parent = omega arith in
    other (ground (arith, stored, sym (ap (λ n. get_hash n s) e) ∙ h))

module _ {W Client : Type 0} (fetch : ℕ → Exec W RpcError Block) (client : Client) (chain_id : ℕ)
    (block : Block) (parent : ℕ) (r : BlockRow) (d : ReorgDetector Client)
    (c : CachedRpcClient W) where
  -- how the detector asks the client
  abbrev pub ask : Client → ℕ → Exec (CachedRpcClient W) RpcError Block
  ask _ number = get_block_by_number fetch chain_id number

  fork_point :
      block.number ≡ suc parent
      → get chain_key chain_id d.clients ≡ some client
      → get_hash parent (state_of chain_id d) ≡ some r.block_hash
      → IsCached chain_id parent r c.cache.blocks
      → (find_fork_point ask chain_id block (entered chain_id d) c).0 ≡ ok block.number
  unfolding find_fork_point
  fork_point next registered stored cached =
      let known = get-insert_self chain_key chain_id (state_of chain_id d) d.chain_states in
      let e : saturating_sub block.number 1 ≡ parent = omega arith in
      rw (registered, find_fork_point, known, e)
        (walk_back_agrees ask client (state_of chain_id d) chain_id _ parent (into_block r) c
            (record_hit c) (omega arith)
            (get_block_by_number_cached fetch chain_id parent r c cached) stored
          ∙ ap ok (sym next))

  -- If the stored parent of a new block is not the one that the block names, and the cache still holds
  -- the stored one, then the reorg is said to begin at the new block itself, whatever the node has by
  -- then: no stored block up to the parent is taken back, and no statement on the cached blocks failing
  -- and the stored blocks being in ascending order, the replaced parent stays stored.
  pub process_block_stale :
      block.number ≡ suc parent
      → get chain_key chain_id d.clients ≡ some client
      → Ascending (state_of chain_id d).recent_blocks
      → get_hash parent (state_of chain_id d) ≡ some r.block_hash
      → r.block_hash ≢ block.parent_hash
      → IsCached chain_id parent r c.cache.blocks
      → ((process_block ask chain_id block (d, c)).0
          ≡ ok (reorg chain_id block.number block.number))
        × ((n : ℕ)
            → n ≤ parent
            → get_hash n (state_of chain_id (process_block ask chain_id block (d, c)).1.0)
              ≡ get_hash n (state_of chain_id d))
  process_block_stale next registered ascending stored other cached = (decided, kept)
    where
      decided :
          (process_block ask chain_id block (d, c)).0
          ≡ ok (reorg chain_id block.number block.number)
      decided = elim (process_block_cases ask chain_id block d c) [
        | inl (extends, _) ↦ absurd (
            stored-Extends (state_of chain_id d) block parent r.block_hash next stored other
              extends)
        | inr e ↦
            ap (λ p. p.0) e
            ∙ rewind_found chain_id block (entered chain_id d) _ block.number
                (fork_point next registered stored cached)
      ]

      kept :
          (n : ℕ)
          → n ≤ parent
          → get_hash n (state_of chain_id (process_block ask chain_id block (d, c)).1.0)
            ≡ get_hash n (state_of chain_id d)
      kept n low =
          ap (get_hash n) (process_block-reorg ask chain_id block d c _ _ _ decided).3
          ∙ (get_hash-prune_above (saturating_sub block.number 1) n (state_of chain_id d)
              ascending).0
          ∙ ap (λ b. if b then get_hash n (state_of chain_id d) else none)
              (le→leb n (block.number - 1) (omega arith))
