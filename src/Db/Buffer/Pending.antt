-- ===== src/Db/Buffer/Pending.antt =====
-- What the rows of crates/forge-index-db/src/buffer.rs look like while they wait.
use forge_index.Base.{
  ℕ, zero, suc, ◌≤◌, ◌<◌, String, ◌≡◌, refl, sym, ap, subst, ◌∙◌, inl, inr, some, List, [], ◌∷◌,
  ◌++◌, append_assoc, append-nil, arith, leb, leb→le, leb→gt, le→leb, gt→leb, Bool-cases, length,
  take, length-append,
}
use forge_index.Base.Maps.{get-insert_self}
use forge_index.Base.Exec.{ok, err}
use forge_index.Db.Error.{buffer_full}
use forge_index.Db.Row.{Row, ColumnValue}
use forge_index.Base.Maps.{string_key}
use forge_index.Db.Buffer.{
  WriteBuffer, rows_or, pending, with_pending, insert_row, update_row, delete_row, deletion,
}

pub pending-with_pending :
    (table : String) (rows : List Row) (b : WriteBuffer)
    → pending table (with_pending table rows b) ≡ rows
unfolding pending
pending-with_pending table rows b = ap rows_or (get-insert_self string_key table rows b.buffers)

take-append : {A : Type 0} (n : ℕ) (xs ys : List A) → n ≤ length xs → take n (xs ++ ys) ≡ take n xs
take-append zero xs ys h = refl
take-append (suc n) [] ys h = absurd (omega arith)
take-append (suc n) (x ∷ xs) ys h = ap (λ t. x ∷ t) (take-append n xs ys (omega arith))

take-length : {A : Type 0} (n : ℕ) (xs : List A) → length xs ≤ n → take n xs ≡ xs
take-length zero [] h = refl
take-length zero (x ∷ xs) h = absurd (omega arith)
take-length (suc n) [] h = refl
take-length (suc n) (x ∷ xs) h = ap (λ t. x ∷ t) (take-length n xs (omega arith))

length-snoc : {A : Type 0} (xs : List A) (x : A) → length (xs ++ x ∷ []) ≡ suc (length xs)
length-snoc xs x = omega (arith, length-append xs (x ∷ []))

-- one insert after another, whatever they return
abbrev pub insert_rows : String → List Row → WriteBuffer → WriteBuffer
insert_rows table [] b = b
insert_rows table (r ∷ rs) b = insert_rows table rs (insert_row table r b).1

-- an insert below the bound
pub insert_row_room :
    (table : String) (r : Row) (b : WriteBuffer)
    → length (pending table b) < b.max_size
    → insert_row table r b ≡ (ok tt, with_pending table (pending table b ++ r ∷ []) b)
unfolding insert_row pending
insert_row_room table r b h = rw (gt→leb b.max_size (length (pending table b)) h, insert_row) refl

-- an insert at the bound
pub insert_row_full :
    (table : String) (r : Row) (b : WriteBuffer)
    → b.max_size ≤ length (pending table b)
    → insert_row table r b ≡ (err (buffer_full table), with_pending table (pending table b) b)
unfolding insert_row pending
insert_row_full table r b h = rw (le→leb b.max_size (length (pending table b)) h, insert_row) refl

-- The buffer of a table is a queue of bounded length: from at most `max_size` waiting rows, inserts
-- keep the old rows and then the new ones in order, up to `max_size` rows. Those beyond are not
-- kept, and the waiting ones still wait.
pub insert_rows-take :
    (table : String) (rows : List Row) (b : WriteBuffer)
    → length (pending table b) ≤ b.max_size
    → pending table (insert_rows table rows b) ≡ take b.max_size (pending table b ++ rows)
insert_rows-take table [] b h = sym (
    ap (take b.max_size) (append-nil (pending table b))
    ∙ take-length b.max_size (pending table b) h)
insert_rows-take table (r ∷ rs) b h =
    elim (Bool-cases (leb b.max_size (length (pending table b)))) [
      | inl full ↦
          let at_bound = leb→le b.max_size (length (pending table b)) full in
          let same = pending-with_pending table (pending table b) b in
          rw (insert_row_full table r b at_bound) (
            insert_rows-take table rs (with_pending table (pending table b) b)
              (subst (λ p. length p ≤ b.max_size) (sym same) h)
            ∙ (ap (λ p. take b.max_size (p ++ rs)) same
                ∙ (take-append b.max_size (pending table b) rs at_bound
                    ∙ sym (take-append b.max_size (pending table b) (r ∷ rs) at_bound))))
      | inr room ↦
          let below = leb→gt b.max_size (length (pending table b)) room in
          let grown = pending-with_pending table (pending table b ++ r ∷ []) b in
          rw (insert_row_room table r b below) (
            insert_rows-take table rs (with_pending table (pending table b ++ r ∷ []) b) (
              subst (λ p. length p ≤ b.max_size) (sym grown)
                (omega (arith, length-append (pending table b) (r ∷ []), below)))
            ∙ (ap (λ p. take b.max_size (p ++ rs)) grown
                ∙ ap (take b.max_size) (append_assoc (pending table b) (r ∷ []) rs)))
    ]

-- An insert at the bound is refused with `BufferFull` and leaves the rows as they were; an update
-- and a delete each add a row there.
pub full_buffer :
    (table pk : String) (r : Row) (v : ColumnValue) (b : WriteBuffer)
    → b.max_size ≤ length (pending table b)
    → ((insert_row table r b).0 ≡ err (buffer_full table))
      × (pending table (insert_row table r b).1 ≡ pending table b)
      × (length (pending table (update_row table r v b).1) ≡ suc (length (pending table b)))
      × (length (pending table (delete_row table pk v b).1) ≡ suc (length (pending table b)))
unfolding update_row delete_row pending
full_buffer table pk r v b h = (
  ap (λ p. p.0) (insert_row_full table r b h),
  ap (λ p. pending table p.1) (insert_row_full table r b h)
      ∙ pending-with_pending table (pending table b) b,
  ap length (
        pending-with_pending table (pending table b ++ record r { operation = some "UPDATE" } ∷ [])
          b)
      ∙ length-snoc (pending table b) (record r { operation = some "UPDATE" }),
  ap length (pending-with_pending table (pending table b ++ deletion pk v ∷ []) b)
      ∙ length-snoc (pending table b) (deletion pk v),
)
