-- ===== src/Rpc/LogCache/Fresh.antt =====
-- Logs whose keys are free come back from the cache: crates/forge-index-rpc/src/cache/store.rs.
use forge_index.Base.{
  ℕ, ◌^◌, ◌<◌, Bool, true, false, some, List, [], ◌∷◌, ◌++◌, append_assoc, append-nil, map, ==_refl,
  Bool-cases, inl, inr, if◌then◌else◌, keep, length, All, ◌≡◌, refl, sym, ap, ◌∙◌, arith,
}
use forge_index.Base.Exec.{ok, continue, ◌>>=◌, pure}
use forge_index.Base.Sort.{sort_by, insert_sorted, IsSorted}
use forge_index.Base.Text.{Text}
use forge_index.Base.Text.Equal.{text_eq_self}
use forge_index.Core.HexText.{hash_text, address_text, from_hex}
use forge_index.Core.HexText.RoundTrip.{IsHex, from_hex-hash_text, from_hex-address_text}
use forge_index.Core.Types.{Log}
use forge_index.Rpc.LogCache.{
  Texts, LogRow, LogTable, same_key, in_window, row_of, into_log, row_before, texts_eq,
  topic_columns, as_i32, or_zeros, add_hash, known_hashes, or_miss, get_logs, put_rows,
  put_sentinel, put_logs,
}
use forge_index.Rpc.Table.{statement, has_key}
use forge_index.Rpc.Types.{LogFilter}

has_key-snoc :
    (k row : LogRow) (rows : List LogRow)
    → has_key same_key k rows ≡ false
    → same_key row k ≡ false
    → has_key same_key k (rows ++ row ∷ []) ≡ false
has_key-snoc k row [] h apart = ground (arith, apart)
has_key-snoc k row (r ∷ rows) h apart = elim (Bool-cases (same_key r k)) [
  | inl here ↦ ground (arith, h, here)
  | inr later ↦ ground (arith, later, has_key-snoc k row rows (ground (arith, h, later)) apart)
]

texts_eq_self : (ts : List Text) → texts_eq ts ts ≡ true
texts_eq_self [] = refl
texts_eq_self (t ∷ ts) = rw (text_eq_self t) (texts_eq_self ts)

keep-append :
    {A : Type 0} (p : A → Bool) (xs ys : List A) → keep p (xs ++ ys) ≡ keep p xs ++ keep p ys
keep-append p [] ys = refl
keep-append p (x ∷ xs) ys = elim (Bool-cases (p x)) [
  | inl there ↦ ground (arith, there, keep-append p xs ys)
  | inr absent ↦ ground (arith, absent, keep-append p xs ys)
]

sort_by_sorted :
    {A : Type 0} (le : A → A → Bool) (xs : List A) → IsSorted le xs → sort_by le xs ≡ xs
sort_by_sorted le [] h = refl
sort_by_sorted le (x ∷ []) h = refl
sort_by_sorted le (x ∷ y ∷ xs) (h, hs) =
    ap (insert_sorted le x) (sort_by_sorted le (y ∷ xs) hs)
    ∙ ap (λ b. if b then x ∷ y ∷ xs else y ∷ insert_sorted le x xs) h

module _ (texts : Texts) (chain_id : ℕ) (filter : LogFilter) where
  abbrev pub rows_of : List Log → List LogRow
  rows_of = map (row_of texts chain_id filter)

  -- no two logs have one block number and one index, and no row has a log's key
  abbrev pub AreFresh : List LogRow → List Log → Type 0
  AreFresh rows [] = Unit
  AreFresh rows (log ∷ logs) =
      (has_key same_key (row_of texts chain_id filter log) rows ≡ false)
      × All
          (λ l.
            same_key (row_of texts chain_id filter log) (row_of texts chain_id filter l) ≡ false)
          logs
      × AreFresh rows logs

  -- a log as the cache gives it back: with the chain and the id that the cache gives it, and hashes and
  -- an address of 32 and 20 bytes
  pub record IsStored (log : Log) : Type 0 where
    pub chain : log.chain_id ≡ chain_id
    pub id : log.id ≡ texts.log_id (hash_text texts.hex log.block_hash) (as_i32 log.log_index)
    pub address : log.address < 256 ^ 20
    pub topics : All (λ t. t < 256 ^ 32) log.topics
    pub block_hash : log.block_hash < 256 ^ 32
    pub transaction_hash : log.transaction_hash < 256 ^ 32

  later_fresh :
      (row : LogRow) (rows : List LogRow) (logs : List Log)
      → All (λ l. same_key row (row_of texts chain_id filter l) ≡ false) logs
      → AreFresh rows logs
      → AreFresh (rows ++ row ∷ []) logs
  later_fresh row rows [] apart fresh = tt
  later_fresh row rows (log ∷ logs) (apart, aparts) (free, others, fresh) = (
    has_key-snoc (row_of texts chain_id filter log) row rows free apart,
    others,
    later_fresh row rows logs aparts fresh,
  )

  put_rows_fresh :
      (logs : List Log) (rows : List LogRow)
      → AreFresh rows logs
      → put_rows texts chain_id filter logs (record { rows = rows; faults = [] })
        ≡ (ok tt, record { rows = rows ++ rows_of logs; faults = [] })
  unfolding put_rows
  put_rows_fresh [] rows h =
      ap (λ rs. (ok tt, record { rows = rs; faults = [] })) (sym (append-nil rows))
  put_rows_fresh (log ∷ logs) rows (free, others, fresh) =
      let row = row_of texts chain_id filter log in
      ap
        (λ b.
          put_rows texts chain_id filter logs
            (record { rows = if b then rows else rows ++ row ∷ []; faults = [] }))
        free
      ∙ (put_rows_fresh logs (rows ++ row ∷ []) (later_fresh row rows logs others fresh)
          ∙ ap (λ rs. (ok tt, record { rows = rs; faults = [] }))
              (append_assoc rows (row ∷ []) (rows_of logs)))

  own_window :
      (log : Log) → in_window texts chain_id filter (row_of texts chain_id filter log) ≡ true
  unfolding in_window row_of
  own_window log =
      rw
        (
          ==_refl chain_id,
          ==_refl filter.from_block,
          ==_refl filter.to_block,
          texts_eq_self (map (address_text texts.hex) filter.address),
          texts_eq_self (topic_columns texts filter.topics),
        )
        refl

  keep-rows_of :
      (logs : List Log) → keep (in_window texts chain_id filter) (rows_of logs) ≡ rows_of logs
  keep-rows_of [] = refl
  keep-rows_of (log ∷ logs) = ground (arith, own_window log, keep-rows_of logs)

  topics_back :
      IsHex texts.hex
      → (ts : List ℕ) → All (λ t. t < 256 ^ 32) ts
      → known_hashes texts (map (hash_text texts.hex) ts) ≡ ts
  unfolding known_hashes
  topics_back hex [] h = refl
  topics_back hex (t ∷ ts) (h, hs) =
      ap (λ o. add_hash o (known_hashes texts (map (hash_text texts.hex) ts)))
        (from_hex-hash_text texts.hex hex t h)
      ∙ ap (λ ns. t ∷ ns) (topics_back hex ts hs)

  hash_back :
      IsHex texts.hex
      → (h : ℕ) → h < 256 ^ 32
      → or_zeros (from_hex texts.hex 64 (hash_text texts.hex h)) ≡ h
  hash_back hex h small = ap or_zeros (from_hex-hash_text texts.hex hex h small)

  log_back :
      IsHex texts.hex
      → (log : Log) → IsStored log
      → into_log texts chain_id (row_of texts chain_id filter log) ≡ log
  unfolding into_log row_of
  log_back hex log h =
      let address = ap or_zeros (from_hex-address_text texts.hex hex log.address h.address) in
      let topics = topics_back hex log.topics h.topics in
      let block_hash = hash_back hex log.block_hash h.block_hash in
      let transaction_hash = hash_back hex log.transaction_hash h.transaction_hash in
      λ i. record log {
        id = sym h.id i;
        chain_id = sym h.chain i;
        address = address i;
        topics = topics i;
        block_hash = block_hash i;
        transaction_hash = transaction_hash i;
      }

  stored_back :
      IsHex texts.hex
      → (logs : List Log) → All IsStored logs
      → map (into_log texts chain_id) (rows_of logs) ≡ logs
  stored_back hex [] h = refl
  stored_back hex (log ∷ logs) (h, hs) =
      ap (λ l. l ∷ map (into_log texts chain_id) (rows_of logs)) (log_back hex log h)
      ∙ ap (λ ls. log ∷ ls) (stored_back hex logs hs)

  -- Logs that are put into the cache come back from it, if no statement fails, nothing was stored for
  -- the filter before, no row has one of their keys, no two of them have one key, and they come in the
  -- order of their blocks and indexes, with the chain and the ids that the cache gives them and hashes
  -- and addresses of 32 and 20 bytes. The hexadecimal codec writes two digits a byte, and reads them back
  -- whatever the case of their letters.
  pub get_logs-put_logs :
      (log : Log) (logs : List Log) (rows : List LogRow)
      → IsHex texts.hex
      → keep (in_window texts chain_id filter) rows ≡ []
      → AreFresh rows (log ∷ logs)
      → All IsStored (log ∷ logs)
      → IsSorted row_before (rows_of (log ∷ logs))
      → (get_logs texts chain_id filter
          (put_logs texts chain_id filter (log ∷ logs) (record { rows = rows; faults = [] })).1).0
        ≡ ok (some (log ∷ logs))
  unfolding get_logs put_logs put_sentinel
  get_logs-put_logs log logs rows hex unused fresh stored sorted =
      let added = rows_of (log ∷ logs) in
      let window = in_window texts chain_id filter in
      let full : LogTable = record { rows = rows ++ added; faults = [] } in
      let kept : keep window (rows ++ added) ≡ added =
        keep-append window rows added
        ∙ (ap (λ ks. ks ++ keep window added) unused ∙ keep-rows_of (log ∷ logs)) in
      let put : (put_logs texts chain_id filter (log ∷ logs)
            (record { rows = rows; faults = [] })).1
          ≡ full =
        ap (λ p. (continue p.0 (λ _. pure tt) p.1).1) (put_rows_fresh (log ∷ logs) rows fresh) in
      ap (λ t. (get_logs texts chain_id filter t).0) put
      ∙ (ap
            (λ ks.
              (or_miss (length ks)
                (statement (λ rs. (sort_by row_before (keep window rs), rs)) >>= λ found.
                  pure (some (map (into_log texts chain_id) found)))
                full).0)
            kept
          ∙ (ap (λ ks. ok (some (map (into_log texts chain_id) (sort_by row_before ks)))) kept
              ∙ (ap (λ ks. ok (some (map (into_log texts chain_id) ks)))
                    (sort_by_sorted row_before added sorted)
                  ∙ ap (λ ls. ok (some ls)) (stored_back hex (log ∷ logs) stored))))
