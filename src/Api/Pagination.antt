-- ===== src/Api/Pagination.antt =====
-- Pagination cursors: crates/forge-index-api/src/graphql/pagination.rs. Text is its bytes; the JSON
-- printer and parser and the UTF-8 check are parameters. The bits of bytes that do not overlap are
-- joined by `|` in the source and by a sum here.
pub mod Base64
pub mod Cursor
use forge_index.Base.{
  ℕ, zero, suc, ◌+◌, ◌-◌, ◌*◌, ◌/◌, ◌%◌, ◌^◌, ◌≤◌, ◌<◌, min, max, String, ◌≡◌, refl, sym, ap, subst,
  ◌∙◌, ◌≢◌, ◌↔◌, ◌⊎◌, inl, inr, Bool, true, false, not, ◌&&◌, ◌||◌, Option, none, some, List, [],
  ◌∷◌, ◌++◌, map, reverse, append_assoc, append-nil, reverse-cons, reverse-append, reverse-reverse,
  arith, str_eq, eq_iff, ltb, leb, ◌==◌, if◌then◌else◌, ltb→lt, ltb→ge, lt→ltb, ge→ltb, leb→le,
  leb→gt, le→leb, gt→leb, ==_iff, ==_refl, Bool-cases, Option-cases, length, get_elem?, take, drop,
  last?, drop_while, keep, length-append, length-reverse, last?-snoc, All, All-append,
}
use forge_index.Base.Text.{Text, codes}
use forge_index.Base.Trim.{pop_back_while}

abbrev pub chars : Text
chars = codes "ABCDEFGHIJKLMNOPQRSTUVWXYZabcdefghijklmnopqrstuvwxyz0123456789+/"

abbrev pub char_or : ℕ → Option ℕ → ℕ
char_or d none = d
char_or d (some c) = c

-- `CHARS[i]`; every index is below 64
unfoldable pub char_at : ℕ → ℕ
char_at i = char_or 0 (get_elem? chars i)

abbrev pub position_from : ℕ → ℕ → Text → Option ℕ
position_from i b [] = none
position_from i b (c ∷ cs) =
    let rest = position_from (suc i) b cs in if c == b then some i else rest

-- `CHARS.iter().position(|&c| c == b)`, or 0
unfoldable pub position : ℕ → ℕ
position b = char_or 0 (position_from 0 b chars)

abbrev pub pad : ℕ
pad = b'='

unfoldable pub triple_of : ℕ → ℕ → ℕ → ℕ
triple_of b0 b1 b2 = b0 * 2 ^ 16 + b1 * 2 ^ 8 + b2

-- the six bits that start at bit `k`
abbrev pub sextet : ℕ → ℕ → ℕ
sextet triple k = triple / 2 ^ k % 64

-- one clause for each length of a chunk of three
unfoldable pub base64_encode : List ℕ → Text
unfolding triple_of
base64_encode [] = []
base64_encode (b0 ∷ []) =
    let triple = triple_of b0 0 0 in
    char_at (sextet triple 18) ∷ char_at (sextet triple 12) ∷ pad ∷ pad ∷ []
base64_encode (b0 ∷ b1 ∷ []) =
    let triple = triple_of b0 b1 0 in
    char_at (sextet triple 18) ∷ char_at (sextet triple 12) ∷ char_at (sextet triple 6) ∷ pad ∷ []
base64_encode (b0 ∷ b1 ∷ b2 ∷ rest) =
    let triple = triple_of b0 b1 b2 in
    char_at (sextet triple 18)
    ∷ char_at (sextet triple 12)
    ∷ char_at (sextet triple 6)
    ∷ char_at (sextet triple 0)
    ∷ base64_encode rest

unfoldable pub quad_of : ℕ → ℕ → ℕ → ℕ → ℕ
quad_of b0 b1 b2 b3 = b0 * 2 ^ 18 + b1 * 2 ^ 12 + b2 * 2 ^ 6 + b3

-- the eight bits that start at bit `k`
abbrev pub octet : ℕ → ℕ → ℕ
octet triple k = triple / 2 ^ k % 256

-- one clause for each length of a chunk of four; a chunk of one ends the loop
unfoldable pub decode_chunks : List ℕ → List ℕ
unfolding quad_of
decode_chunks [] = []
decode_chunks (b0 ∷ []) = []
decode_chunks (b0 ∷ b1 ∷ []) = octet (quad_of b0 b1 0 0) 16 ∷ []
decode_chunks (b0 ∷ b1 ∷ b2 ∷ []) =
    let triple = quad_of b0 b1 b2 0 in octet triple 16 ∷ octet triple 8 ∷ []
decode_chunks (b0 ∷ b1 ∷ b2 ∷ b3 ∷ rest) =
    let triple = quad_of b0 b1 b2 b3 in
    octet triple 16 ∷ octet triple 8 ∷ octet triple 0 ∷ decode_chunks rest

-- the bytes of `base64_decode`, before the UTF-8 check
unfoldable pub decode_bytes : Text → List ℕ
unfolding decode_chunks
decode_bytes input = decode_chunks (map position (pop_back_while (λ c. c == pad) input))

encode_runs : base64_encode (codes "hello!x") ≡ codes "aGVsbG8heA=="
unfolding base64_encode char_at
encode_runs = refl

decode_runs : decode_bytes (codes "aGVsbG8heA==") ≡ codes "hello!x"
unfolding decode_bytes position
decode_runs = refl
