-- ===== src/Rpc/LogCache/Taken.antt =====
-- A log whose key is taken by another filter's row: crates/forge-index-rpc/src/cache/store.rs.
use forge_index.Base.{
  ℕ, zero, suc, Bool, true, false, Option, none, some, List, [], ◌∷◌, ◌++◌, map, ==_iff, Bool-cases,
  inl, inr, if◌then◌else◌, keep, length, All, All-append, ◌≡◌, refl, arith,
}
use forge_index.Base.Exec.{Result, ok, err, ◌>>=◌, pure}
use forge_index.Base.Keeps.{Keeps, Keeps-bind}
use forge_index.Base.Sort.{sort_by, insert_sorted}
use forge_index.Base.Text.{Text}
use forge_index.Core.Types.{Log}
use forge_index.Rpc.LogCache.{
  Texts, LogRow, LogTable, same_key, in_window, row_of, sentinel, into_log, row_before, or_miss,
  get_logs, put_rows, put_sentinel, put_logs,
}
use forge_index.Rpc.Table.{statement, has_key, insert_new}
use forge_index.Rpc.Types.{LogFilter}

-- rows of one key find the same rows
same_key-has_key :
    (a k : LogRow) (rows : List LogRow)
    → same_key a k ≡ true
    → has_key same_key a rows ≡ has_key same_key k rows
same_key-has_key a k [] h = refl
same_key-has_key a k (r ∷ rows) h =
    let chains = (==_iff a.chain_id k.chain_id).0 in
    let blocks = (==_iff a.block_number k.block_number).0 in
    let indexes = (==_iff a.log_index k.log_index).0 in
    ground (arith, h, same_key-has_key a k rows h)

has_key_more :
    (k row : LogRow) (rows : List LogRow)
    → has_key same_key k rows ≡ true
    → has_key same_key k (rows ++ row ∷ []) ≡ true
has_key_more k row [] h = ground (arith, h)
has_key_more k row (r ∷ rows) h = elim (Bool-cases (same_key r k)) [
  | inl here ↦ ground (arith, here)
  | inr later ↦ ground (arith, later, has_key_more k row rows (ground (arith, h, later)))
]

-- the key of `k` is there, and no row of that key passes the test
abbrev pub Taken : (LogRow → Bool) → LogRow → List LogRow → Type 0
Taken window k rows =
    (has_key same_key k rows ≡ true) × All (λ r. same_key r k ≡ true → window r ≡ false) rows

insert_new-Taken :
    (window : LogRow → Bool) (k row : LogRow) (rows : List LogRow)
    → Taken window k rows
    → Taken window k (insert_new same_key row rows).1
insert_new-Taken window k row rows (there, others) = elim (Bool-cases (has_key same_key row rows)) [
  | inl known ↦ rw (known) (there, others)
  | inr fresh ↦ rw (fresh) (
    has_key_more k row rows there,
    All-append _ rows (row ∷ []) others
        ((λ same. ground (arith, same_key-has_key row k rows same, there, fresh)), tt),
  )
]

keep_one :
    {A : Type 0} (Q : A → Type 0) (w : Bool) (x : A) (rest : List A)
    → (w ≡ true → Q x)
    → All Q rest
    → All Q (elim w [ true ↦ x ∷ rest | false ↦ rest ])
keep_one Q true x rest f h = (f refl, h)
keep_one Q false x rest f h = h

module _ (window : LogRow → Bool) (k : LogRow) where
  abbrev KeepsTaken : LogTable → Type 0
  KeepsTaken t = Taken window k t.rows

  statement-Taken :
      (row : LogRow) (rows : List LogRow) (faults : List Bool)
      → Taken window k rows
      → Taken window k
          (statement (insert_new same_key row) (record { rows = rows; faults = faults })).1.rows
  statement-Taken row rows [] h = insert_new-Taken window k row rows h
  statement-Taken row rows (true ∷ faults) h = h
  statement-Taken row rows (false ∷ faults) h = insert_new-Taken window k row rows h

  statement-Keeps : (row : LogRow) → Keeps KeepsTaken (statement (insert_new same_key row))
  statement-Keeps row t h = statement-Taken row t.rows t.faults h

  put_rows-Keeps :
      (texts : Texts) (chain_id : ℕ) (filter : LogFilter) (logs : List Log)
      → Keeps KeepsTaken (put_rows texts chain_id filter logs)
  unfolding put_rows
  put_rows-Keeps texts chain_id filter [] t h = h
  put_rows-Keeps texts chain_id filter (log ∷ logs) t h =
      Keeps-bind KeepsTaken (statement (insert_new same_key (row_of texts chain_id filter log)))
        (λ _. put_rows texts chain_id filter logs)
        (statement-Keeps (row_of texts chain_id filter log))
        (λ _. put_rows-Keeps texts chain_id filter logs) t h

  put_sentinel-Keeps :
      (texts : Texts) (chain_id : ℕ) (filter : LogFilter) (logs : List Log)
      → Keeps KeepsTaken (put_sentinel texts chain_id filter logs)
  unfolding put_sentinel
  put_sentinel-Keeps texts chain_id filter [] t h =
      statement-Keeps (sentinel texts chain_id filter) t h
  put_sentinel-Keeps texts chain_id filter (log ∷ logs) t h = h

  pub put_logs-Keeps :
      (texts : Texts) (chain_id : ℕ) (filter : LogFilter) (logs : List Log)
      → Keeps KeepsTaken (put_logs texts chain_id filter logs)
  unfolding put_logs
  put_logs-Keeps texts chain_id filter logs =
      Keeps-bind KeepsTaken (put_rows texts chain_id filter logs)
        (λ _. put_sentinel texts chain_id filter logs) (put_rows-Keeps texts chain_id filter logs)
        (λ _. put_sentinel-Keeps texts chain_id filter logs)

  -- no row that passes the test has the key
  kept_apart :
      (rows : List LogRow)
      → All (λ r. same_key r k ≡ true → window r ≡ false) rows
      → All (λ r. (window r ≡ true) × (same_key r k ≡ false)) (keep window rows)
  kept_apart [] h = tt
  kept_apart (r ∷ rows) (h, hs) =
      keep_one (λ r. (window r ≡ true) × (same_key r k ≡ false)) (window r) r (keep window rows)
        (λ inside. (inside, apart inside)) (kept_apart rows hs)
    where
      apart : window r ≡ true → same_key r k ≡ false
      apart inside = elim (Bool-cases (same_key r k)) [
        | inl same ↦ ground (arith, h same, inside)
        | inr other ↦ other
      ]

module _ {A : Type 0} (P : A → Type 0) (le : A → A → Bool) where
  insert_sorted-All : (x : A) (xs : List A) → P x → All P xs → All P (insert_sorted le x xs)
  insert_sorted-All x [] h hs = (h, tt)
  insert_sorted-All x (y ∷ ys) h (hy, hs) = placed (le x y) (insert_sorted-All x ys h hs)
    where
      placed :
          (b : Bool)
          → All P (insert_sorted le x ys)
          → All P (if b then x ∷ y ∷ ys else y ∷ insert_sorted le x ys)
      placed true _ = (h, (hy, hs))
      placed false rest = (hy, rest)

  sort_by-All : (xs : List A) → All P xs → All P (sort_by le xs)
  sort_by-All [] h = tt
  sort_by-All (x ∷ xs) (h, hs) = insert_sorted-All x (sort_by le xs) h (sort_by-All xs hs)

module _ (texts : Texts) (chain_id : ℕ) (filter : LogFilter) (log : Log) where
  abbrev pub Other : Log → Type 0
  Other l = ¬ ((l.block_number ≡ log.block_number) × (l.log_index ≡ log.log_index))

  others :
      (rows : List LogRow)
      → All
          (λ r.
            (in_window texts chain_id filter r ≡ true)
            × (same_key r (row_of texts chain_id filter log) ≡ false))
          rows
      → All Other (map (into_log texts chain_id) rows)
  unfolding in_window row_of into_log
  others [] h = tt
  others (r ∷ rows) ((inside, apart), hs) = (
    (λ (block, place). ground (
      arith,
      inside,
      apart,
      (==_iff r.block_number log.block_number).1 block,
      (==_iff r.log_index log.log_index).1 place,
    )),
    others rows hs,
  )

  abbrev pub Without : Result Text (Option (List Log)) → Type 0
  Without (ok (some out)) = All Other out
  Without (ok none) = Unit
  Without (err e) = Unit

  found-Without :
      (n : ℕ) (rows : List LogRow) (faults : List Bool)
      → All
          (λ r.
            same_key r (row_of texts chain_id filter log) ≡ true
            → in_window texts chain_id filter r ≡ false)
          rows
      → Without
          (or_miss n
            (statement (λ rs. (sort_by row_before (keep (in_window texts chain_id filter) rs), rs))
              >>= λ found. pure (some (map (into_log texts chain_id) found)))
            (record { rows = rows; faults = faults })).0
  found-Without zero rows faults h = tt
  found-Without (suc n) rows (true ∷ faults) h = tt
  found-Without (suc n) rows [] h =
      others _ (sort_by-All _ row_before _ (kept_apart _ (row_of texts chain_id filter log) rows h))
  found-Without (suc n) rows (false ∷ faults) h =
      others _ (sort_by-All _ row_before _ (kept_apart _ (row_of texts chain_id filter log) rows h))

  pub get_logs-Without :
      (rows : List LogRow) (faults : List Bool)
      → All
          (λ r.
            same_key r (row_of texts chain_id filter log) ≡ true
            → in_window texts chain_id filter r ≡ false)
          rows
      → Without (get_logs texts chain_id filter (record { rows = rows; faults = faults })).0
  unfolding get_logs
  get_logs-Without rows [] h =
      found-Without (length (keep (in_window texts chain_id filter) rows)) rows [] h
  get_logs-Without rows (true ∷ faults) h = tt
  get_logs-Without rows (false ∷ faults) h =
      found-Without (length (keep (in_window texts chain_id filter) rows)) rows faults h

module _ (texts : Texts) (chain_id : ℕ) (filter : LogFilter) where
  found_rows :
      (n : ℕ) (rows : List LogRow) (faults : List Bool)
      → (or_miss n
          (statement (λ rs. (sort_by row_before (keep (in_window texts chain_id filter) rs), rs))
            >>= λ found. pure (some (map (into_log texts chain_id) found)))
          (record { rows = rows; faults = faults })).1.rows
        ≡ rows
  found_rows zero rows faults = refl
  found_rows (suc n) rows [] = refl
  found_rows (suc n) rows (true ∷ faults) = refl
  found_rows (suc n) rows (false ∷ faults) = refl

  -- reading changes no row
  pub get_logs_rows :
      (rows : List LogRow) (faults : List Bool)
      → (get_logs texts chain_id filter (record { rows = rows; faults = faults })).1.rows ≡ rows
  unfolding get_logs
  get_logs_rows rows [] = found_rows (length (keep (in_window texts chain_id filter) rows)) rows []
  get_logs_rows rows (true ∷ faults) = refl
  get_logs_rows rows (false ∷ faults) =
      found_rows (length (keep (in_window texts chain_id filter) rows)) rows faults
