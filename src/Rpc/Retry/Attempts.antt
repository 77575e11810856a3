-- ===== src/Rpc/Retry/Attempts.antt =====
-- Which attempts crates/forge-index-rpc/src/retry.rs makes.
use forge_index.Base.{
  ℕ, zero, suc, ◌+◌, ◌≤◌, ◌<◌, String, ◌≡◌, refl, sym, ap, subst, ◌∙◌, Bool, true, false, List, [],
  ◌∷◌, arith, leb, if◌then◌else◌, le→leb, gt→leb, length, take,
}
use forge_index.Base.Exec.{Result, ok, err, Exec}
use forge_index.Rpc.Error.{RpcError, is_retryable, max_retries_exceeded}
use forge_index.Rpc.Retry.{max_retries, after_attempt, retry, with_retry}

abbrev pub no_sleep : ℕ → ℕ → ℕ
no_sleep delay n = n

plus_zero : (n : ℕ) → n + 0 ≡ n
plus_zero n = omega arith

one_plus : (n : ℕ) → 1 + n ≡ suc n
one_plus n = omega arith

plus_one : (n : ℕ) → suc n ≡ n + 1
plus_one n = omega arith

module _ {T : Type 0} where
  -- an error that is worth another attempt
  abbrev pub is_transient : Result RpcError T → Bool
  is_transient (ok v) = false
  is_transient (err e) = is_retryable e

  -- a call whose attempts have the results `answer 0`, `answer 1`, …; the state counts them
  abbrev pub numbered : (ℕ → Result RpcError T) → Exec ℕ RpcError T
  numbered answer n = (answer n, suc n)

  final_attempt :
      (method : String) (f : Exec ℕ RpcError T) (r : Result RpcError T) (last : Bool)
      (later : Exec ℕ RpcError T) (n : ℕ)
      → is_transient r ≡ false
      → after_attempt no_sleep method f r last later n ≡ (r, n)
  final_attempt method f (ok v) last later n h = refl
  final_attempt method f (err e) last later n h = rw h refl

  transient_attempt :
      (method : String) (f : Exec ℕ RpcError T) (r : Result RpcError T) (last : Bool)
      (later : Exec ℕ RpcError T) (n : ℕ)
      → is_transient r ≡ true
      → after_attempt no_sleep method f r last later n
        ≡ (if last then (err (max_retries_exceeded method (max_retries + 1)), n) else later n)
  transient_attempt method f (ok v) last later n h = ground (arith, h)
  transient_attempt method f (err e) true later n h = rw h refl
  transient_attempt method f (err e) false later n h = rw h refl

  module _ (method : String) (answer : ℕ → Result RpcError T) where
    -- the first attempt of those that are numbered from `n` on
    now : (n : ℕ) (b : Bool) → is_transient (answer (n + 0)) ≡ b → is_transient (answer n) ≡ b
    now n b h = subst (λ m. is_transient (answer m) ≡ b) (plus_zero n) h

    shift : (n k : ℕ) → suc n + k ≡ n + suc k
    shift n k = omega arith

    later :
        (n k : ℕ) (b : Bool)
        → is_transient (answer (n + suc k)) ≡ b
        → is_transient (answer (suc n + k)) ≡ b
    later n k b h = subst (λ m. is_transient (answer m) ≡ b) (sym (shift n k)) h

    not_last :
        (i : ℕ) (d : ℕ) (ds : List ℕ)
        → i + length (d ∷ ds) ≡ max_retries
        → 0 < length ds
        → leb (max_retries + 1) (i + 2) ≡ false
    not_last i d ds total more = gt→leb (max_retries + 1) (i + 2) (omega arith)

    go_on :
        (d : ℕ) (ds : List ℕ) (i n : ℕ)
        → i + length (d ∷ ds) ≡ max_retries
        → 0 < length ds
        → is_transient (answer n) ≡ true
        → retry no_sleep method (numbered answer) (d ∷ ds) i n
          ≡ retry no_sleep method (numbered answer) ds (i + 1) (suc n)
    unfolding retry
    go_on d ds i n total more transient =
        transient_attempt method (numbered answer) (answer n) (leb (max_retries + 1) (i + 2))
          (retry no_sleep method (numbered answer) ds (i + 1)) (suc n) transient
        ∙ ap
            (λ b.
              if b
              then (err (max_retries_exceeded method (max_retries + 1)), suc n)
              else retry no_sleep method (numbered answer) ds (i + 1) (suc n))
            (not_last i d ds total more)

    retry_final :
        (delays : List ℕ) (i n k : ℕ)
        → i + length delays ≡ max_retries
        → k < length delays
        → ((j : ℕ) → j < k → is_transient (answer (n + j)) ≡ true)
        → is_transient (answer (n + k)) ≡ false
        → retry no_sleep method (numbered answer) delays i n ≡ (answer (n + k), suc (n + k))
    unfolding retry
    retry_final [] i n k total short earlier final = absurd (omega arith)
    retry_final (d ∷ ds) i n zero total short earlier final =
        final_attempt method (numbered answer) (answer n) (leb (max_retries + 1) (i + 2))
          (retry no_sleep method (numbered answer) ds (i + 1)) (suc n) (now n false final)
        ∙ ap (λ m. (answer m, suc m)) (sym (plus_zero n))
    retry_final (d ∷ ds) i n (suc k) total short earlier final =
        go_on d ds i n total (omega arith) (now n true (earlier 0 (omega arith)))
        ∙ (retry_final ds (i + 1) (suc n) k (omega arith) (omega arith)
              (λ j h. later n j true (earlier (suc j) (omega arith))) (later n k false final)
            ∙ ap (λ m. (answer m, suc m)) (shift n k))

    retry_exhausted :
        (delays : List ℕ) (i n : ℕ)
        → i + length delays ≡ max_retries
        → 0 < length delays
        → ((j : ℕ) → j < length delays → is_transient (answer (n + j)) ≡ true)
        → retry no_sleep method (numbered answer) delays i n
          ≡ (err (max_retries_exceeded method (max_retries + 1)), n + length delays)
    unfolding retry
    retry_exhausted [] i n total some_left earlier = absurd (omega arith)
    retry_exhausted (d ∷ []) i n total some_left earlier =
        transient_attempt method (numbered answer) (answer n) (leb (max_retries + 1) (i + 2))
          (retry no_sleep method (numbered answer) [] (i + 1)) (suc n)
          (now n true (earlier 0 (omega arith)))
        ∙ (ap
              (λ b.
                if b
                then (err (max_retries_exceeded method (max_retries + 1)), suc n)
                else retry no_sleep method (numbered answer) [] (i + 1) (suc n))
              (le→leb (max_retries + 1) (i + 2) (omega arith))
            ∙ ap (λ m. (err (max_retries_exceeded method (max_retries + 1)), m)) (plus_one n))
    retry_exhausted (d ∷ e ∷ ds) i n total some_left earlier =
        go_on d (e ∷ ds) i n total (omega arith) (now n true (earlier 0 (omega arith)))
        ∙ (retry_exhausted (e ∷ ds) (i + 1) (suc n) (omega arith) (omega arith)
              (λ j h. later n j true (earlier (suc j) (omega arith)))
            ∙ ap (λ m. (err (max_retries_exceeded method (max_retries + 1)), m))
                (shift n (length (e ∷ ds))))

  -- With at least four delays, for a call whose attempts have given results and a sleep that
  -- changes nothing: if one of the first five attempts succeeds or fails for good, the result is
  -- that of the first which does, and no attempt follows it.
  pub with_retry_final :
      (method : String) (answer : ℕ → Result RpcError T) (delays : List ℕ) (k : ℕ)
      → length (take max_retries delays) ≡ max_retries
      → k ≤ max_retries
      → ((j : ℕ) → j < k → is_transient (answer j) ≡ true)
      → is_transient (answer k) ≡ false
      → with_retry no_sleep method (numbered answer) delays 0 ≡ (answer k, suc k)
  unfolding with_retry
  with_retry_final method answer delays zero enough few earlier final =
      final_attempt method (numbered answer) (answer 0) false
        (retry no_sleep method (numbered answer) (take max_retries delays) 0) 1 final
  with_retry_final method answer delays (suc k) enough few earlier final =
      transient_attempt method (numbered answer) (answer 0) false
        (retry no_sleep method (numbered answer) (take max_retries delays) 0) 1
        (earlier 0 (omega arith))
      ∙ (retry_final method answer (take max_retries delays) 0 1 k (omega arith) (omega arith)
            (λ j h.
              subst (λ m. is_transient (answer m) ≡ true) (sym (one_plus j))
                (earlier (suc j) (omega arith)))
            (subst (λ m. is_transient (answer m) ≡ false) (sym (one_plus k)) final)
          ∙ ap (λ m. (answer m, suc m)) (one_plus k))

  -- With at least four delays and a sleep that changes nothing, a call whose first five attempts
  -- all fail with errors that are retried is given up after the fifth.
  pub with_retry_exhausted :
      (method : String) (answer : ℕ → Result RpcError T) (delays : List ℕ)
      → length (take max_retries delays) ≡ max_retries
      → ((j : ℕ) → j < 5 → is_transient (answer j) ≡ true)
      → with_retry no_sleep method (numbered answer) delays 0
        ≡ (err (max_retries_exceeded method 5), 5)
  unfolding with_retry
  with_retry_exhausted method answer delays enough earlier =
      transient_attempt method (numbered answer) (answer 0) false
        (retry no_sleep method (numbered answer) (take max_retries delays) 0) 1
        (earlier 0 (omega arith))
      ∙ (retry_exhausted method answer (take max_retries delays) 0 1 (omega arith) (omega arith)
            (λ j h.
              subst (λ m. is_transient (answer m) ≡ true) (sym (one_plus j))
                (earlier (suc j) (omega arith)))
          ∙ ap (λ m. (err (max_retries_exceeded method 5), m)) (ap (λ m. 1 + m) enough))
