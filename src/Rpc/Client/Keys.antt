-- ===== src/Rpc/Client/Keys.antt =====
-- Which requests can be shared: `cache_key` in crates/forge-index-rpc/src/types.rs.
use forge_index.Base.{
  ℕ, ◌==◌, false, arith, String, ◌≡◌, ◌≢◌, ◌∙◌, refl, sym, ap, Option, some, ◌++◌, get_elem?,
}
use forge_index.Base.Text.{Text, codes}
use forge_index.Rpc.Client.{or_empty, cache_key}

-- the methods whose requests are shared
pub data SharedMethod : Type 0 where
  logs : SharedMethod
  block_by_number : SharedMethod
  block_by_hash : SharedMethod
  transaction_by_hash : SharedMethod

abbrev pub method_name : SharedMethod → String
method_name logs = "eth_getLogs"
method_name block_by_number = "eth_getBlockByNumber"
method_name block_by_hash = "eth_getBlockByHash"
method_name transaction_by_hash = "eth_getTransactionByHash"

-- what is digested
abbrev pub request_text : SharedMethod → Option Text → Text
request_text m params = codes (method_name m) ++ or_empty params

-- texts with different characters at a place are different
differ :
    {A : Type 0} {s t : Text} (i c d : ℕ)
    → s ≡ t
    → get_elem? s i ≡ some c
    → get_elem? t i ≡ some d
    → (c == d) ≡ false
    → A
differ {s} {t} i c d h at_s at_t other =
    let places = ap (λ x. get_elem? x i) h in
    absurd (unequal c d other (some_injective (sym at_s ∙ (places ∙ at_t))))
  where
    some_injective : {m n : ℕ} → Path (Option ℕ) (some m) (some n) → m ≡ n
    some_injective e = cc e

    unequal : (m n : ℕ) → (m == n) ≡ false → m ≢ n
    unequal m n h e = ground (arith, h, e)

same_text :
    (m n : SharedMethod) (p q : Option Text)
    → request_text m p ≡ request_text n q
    → (m ≡ n) × (or_empty p ≡ or_empty q)
same_text logs logs p q h = (refl, cc h)
same_text logs block_by_number p q h = differ 7 b'L' b'B' h refl refl refl
same_text logs block_by_hash p q h = differ 7 b'L' b'B' h refl refl refl
same_text logs transaction_by_hash p q h = differ 7 b'L' b'T' h refl refl refl
same_text block_by_number logs p q h = differ 7 b'B' b'L' h refl refl refl
same_text block_by_number block_by_number p q h = (refl, cc h)
same_text block_by_number block_by_hash p q h = differ 14 b'N' b'H' h refl refl refl
same_text block_by_number transaction_by_hash p q h = differ 7 b'B' b'T' h refl refl refl
same_text block_by_hash logs p q h = differ 7 b'B' b'L' h refl refl refl
same_text block_by_hash block_by_number p q h = differ 14 b'H' b'N' h refl refl refl
same_text block_by_hash block_by_hash p q h = (refl, cc h)
same_text block_by_hash transaction_by_hash p q h = differ 7 b'B' b'T' h refl refl refl
same_text transaction_by_hash logs p q h = differ 7 b'T' b'L' h refl refl refl
same_text transaction_by_hash block_by_number p q h = differ 7 b'T' b'B' h refl refl refl
same_text transaction_by_hash block_by_hash p q h = differ 7 b'T' b'B' h refl refl refl
same_text transaction_by_hash transaction_by_hash p q h = (refl, cc h)

-- Requests that are shared have the same key only if they are for the same method and the texts of
-- their parameters are the same, if the digest tells their two texts apart.
pub cache_key-separates :
    (sha256_hex : Text → Text) (m n : SharedMethod) (p q : Option Text)
    → (sha256_hex (request_text m p) ≡ sha256_hex (request_text n q)
        → request_text m p ≡ request_text n q)
    → cache_key sha256_hex (method_name m) p ≡ cache_key sha256_hex (method_name n) q
    → (m ≡ n) × (or_empty p ≡ or_empty q)
unfolding cache_key
cache_key-separates sha256_hex m n p q distinct h = same_text m n p q (distinct h)
