-- ===== src/Api/Pagination/Base64.antt =====
-- The round trip of the Base64 code in crates/forge-index-api/src/graphql/pagination.rs.
use forge_index.Base.{
  ℕ, zero, suc, ◌^◌, ◌<◌, ◌≡◌, refl, ap, ◌∙◌, Bool, true, false, not, ◌&&◌, List, [], ◌∷◌, ◌++◌,
  map, arith, ◌==◌, ==_iff, All, if◌then◌else◌, Bool-cases, inl, inr,
}
use forge_index.Base.Text.{Text}
use forge_index.Base.Trim.{pop_back_while, pop_back_while-append}
use forge_index.Api.Pagination.{
  char_at, position, pad, triple_of, sextet, base64_encode, quad_of, octet, decode_chunks,
  decode_bytes,
}

-- an index is found again, and no character is the padding
good_index : ℕ → Bool
unfolding char_at position
good_index i = (position (char_at i) == i) && not (char_at i == pad)

-- the first `size` characters of the table are found where they are
table_holds : ℕ → Bool
table_holds zero = true
table_holds (suc size) = if good_index size then table_holds size else false

both : (b c : Bool) → (if b then c else false) ≡ true → (b ≡ true) × (c ≡ true)
both b c h = ground (arith, h)

table_holds-good_index : (size i : ℕ) → i < size → table_holds size ≡ true → good_index i ≡ true
unfolding table_holds
table_holds-good_index zero i small held = absurd (omega arith)
table_holds-good_index (suc size) i small held =
    let (here, before) = both (good_index size) (table_holds size) held in
    elim (Bool-cases (i == size)) [
      | inl same ↦ ap good_index ((==_iff i size).0 same) ∙ here
      | inr other ↦ table_holds-good_index size i (below size i small other) before
    ]
  where
    below : (size i : ℕ) → i < suc size → (i == size) ≡ false → i < size
    below size i small other = ground arith

index_table : table_holds 64 ≡ true
unfolding table_holds good_index
index_table = refl

and_not : (a b : Bool) → (a && not b) ≡ true → (a ≡ true) × (b ≡ false)
and_not a b h = ground arith

position-char_at : (i : ℕ) → i < 64 → (position (char_at i) ≡ i) × ((char_at i == pad) ≡ false)
unfolding good_index
position-char_at i h =
    let (found, other) =
      and_not (position (char_at i) == i) (char_at i == pad)
        (table_holds-good_index 64 i h index_table) in
    ((==_iff _ _).0 found, other)

abbrev pub IsByte : ℕ → Type 0
IsByte b = b < 256

-- the indices of the characters, and the padding behind them
indices : List ℕ → List ℕ
indices [] = []
indices (b0 ∷ []) = let t = triple_of b0 0 0 in sextet t 18 ∷ sextet t 12 ∷ []
indices (b0 ∷ b1 ∷ []) = let t = triple_of b0 b1 0 in sextet t 18 ∷ sextet t 12 ∷ sextet t 6 ∷ []
indices (b0 ∷ b1 ∷ b2 ∷ rest) =
    let t = triple_of b0 b1 b2 in sextet t 18 ∷ sextet t 12 ∷ sextet t 6 ∷ sextet t 0 ∷ indices rest

padding : List ℕ → Text
padding [] = []
padding (b0 ∷ []) = pad ∷ pad ∷ []
padding (b0 ∷ b1 ∷ []) = pad ∷ []
padding (b0 ∷ b1 ∷ b2 ∷ rest) = padding rest

base64_encode-indices : (bs : List ℕ) → base64_encode bs ≡ map char_at (indices bs) ++ padding bs
unfolding base64_encode indices padding
base64_encode-indices [] = refl
base64_encode-indices (b0 ∷ []) = refl
base64_encode-indices (b0 ∷ b1 ∷ []) = refl
base64_encode-indices (b0 ∷ b1 ∷ b2 ∷ rest) = rw (base64_encode-indices rest)

padding-All : (bs : List ℕ) → All (λ c. (c == pad) ≡ true) (padding bs)
unfolding padding
padding-All [] = tt
padding-All (b0 ∷ []) = (refl, (refl, tt))
padding-All (b0 ∷ b1 ∷ []) = (refl, tt)
padding-All (b0 ∷ b1 ∷ b2 ∷ rest) = padding-All rest

sextet-lt : (t k : ℕ) → sextet t k < 64
sextet-lt t k = omega arith

indices-All : (bs : List ℕ) → All (λ i. i < 64) (indices bs)
unfolding indices
indices-All [] = tt
indices-All (b0 ∷ []) = (sextet-lt _ 18, (sextet-lt _ 12, tt))
indices-All (b0 ∷ b1 ∷ []) = (sextet-lt _ 18, (sextet-lt _ 12, (sextet-lt _ 6, tt)))
indices-All (b0 ∷ b1 ∷ b2 ∷ rest) =
    (sextet-lt _ 18, (sextet-lt _ 12, (sextet-lt _ 6, (sextet-lt _ 0, indices-All rest))))

chars_not_pad :
    (is : List ℕ) → All (λ i. i < 64) is → All (λ c. (c == pad) ≡ false) (map char_at is)
chars_not_pad [] h = tt
chars_not_pad (i ∷ is) (hi, his) = ((position-char_at i hi).1, chars_not_pad is his)

positions : (is : List ℕ) → All (λ i. i < 64) is → map position (map char_at is) ≡ is
positions [] h = refl
positions (i ∷ is) (hi, his) = cc ((position-char_at i hi).0, positions is his)

quad-sextets :
    (t : ℕ) → t < 2 ^ 24 → quad_of (sextet t 18) (sextet t 12) (sextet t 6) (sextet t 0) ≡ t
unfolding quad_of
quad-sextets t h = omega arith

triple-lt : (b0 b1 b2 : ℕ) → b0 < 256 → b1 < 256 → b2 < 256 → triple_of b0 b1 b2 < 2 ^ 24
unfolding triple_of
triple-lt b0 b1 b2 h0 h1 h2 = omega arith

octets :
    (b0 b1 b2 : ℕ)
    → b0 < 256
    → b1 < 256
    → b2 < 256
    → (octet (triple_of b0 b1 b2) 16 ≡ b0)
      × (octet (triple_of b0 b1 b2) 8 ≡ b1)
      × (octet (triple_of b0 b1 b2) 0 ≡ b2)
unfolding triple_of
octets b0 b1 b2 h0 h1 h2 = (omega arith, omega arith, omega arith)

-- the missing sextets of a short chunk are 0
short_sextets :
    (b0 b1 : ℕ)
    → (sextet (triple_of b0 0 0) 6 ≡ 0)
      × (sextet (triple_of b0 0 0) 0 ≡ 0)
      × (sextet (triple_of b0 b1 0) 0 ≡ 0)
unfolding triple_of
short_sextets b0 b1 = (omega arith, omega arith, omega arith)

decode_chunks-indices : (bs : List ℕ) → All IsByte bs → decode_chunks (indices bs) ≡ bs
unfolding decode_chunks indices
decode_chunks-indices [] h = refl
decode_chunks-indices (b0 ∷ []) (h0, _) =
    let q = quad-sextets (triple_of b0 0 0) (triple-lt b0 0 0 h0 (omega arith) (omega arith)) in
    let s = short_sextets b0 0 in
    let o = octets b0 0 0 h0 (omega arith) (omega arith) in cc (q, s.0, s.1, o.0)
decode_chunks-indices (b0 ∷ b1 ∷ []) (h0, (h1, _)) =
    let q = quad-sextets (triple_of b0 b1 0) (triple-lt b0 b1 0 h0 h1 (omega arith)) in
    let s = short_sextets b0 b1 in
    let o = octets b0 b1 0 h0 h1 (omega arith) in cc (q, s.2, o.0, o.1)
decode_chunks-indices (b0 ∷ b1 ∷ b2 ∷ rest) (h0, (h1, (h2, hs))) =
    let q = quad-sextets (triple_of b0 b1 b2) (triple-lt b0 b1 b2 h0 h1 h2) in
    let o = octets b0 b1 b2 h0 h1 h2 in cc (q, o.0, o.1, o.2, decode_chunks-indices rest hs)

-- Decoding the Base64 text of any bytes gives the bytes back.
pub decode_bytes-base64_encode :
    (bs : List ℕ) → All IsByte bs → decode_bytes (base64_encode bs) ≡ bs
unfolding decode_bytes
decode_bytes-base64_encode bs h =
    let small = indices-All bs in
    let trimmed =
      pop_back_while-append (λ c. c == pad) (map char_at (indices bs)) (padding bs)
        (chars_not_pad (indices bs) small) (padding-All bs) in
    ap (λ s. decode_chunks (map position (pop_back_while (λ c. c == pad) s)))
      (base64_encode-indices bs)
    ∙ ap (λ s. decode_chunks (map position s)) trimmed
    ∙ ap decode_chunks (positions (indices bs) small)
    ∙ decode_chunks-indices bs h
