-- ===== src/Api/Sql/Handler/Guarded.antt =====
-- What stands before the database at the SQL endpoint: crates/forge-index-api/src/handlers/sql.rs.
use forge_index.Base.{
  ℕ, Bool, true, false, Option, none, some, ◌++◌, ◌≡◌, ◌≢◌, refl, sym, ap, ◌∙◌, ◌⊎◌, ◌↔◌, inl, inr,
  Bool-cases, Option-cases, if◌then◌else◌,
}
use forge_index.Base.Exec.{Result, ok, err}
use forge_index.Base.Search.{strip_prefix, trim}
use forge_index.Base.Search.Found.{strip_prefix-append, strip_prefix_text}
use forge_index.Base.Text.{Text, codes}
use forge_index.Base.Text.Equal.{text_eq_iff, text_eq_self}
use forge_index.Api.Response.{Response}
use forge_index.Api.Sql.Execute.{Driver, execute_sql}
use forge_index.Api.Sql.Handler.{
  SqlState, SqlRequest, Caller, ip_of, token_is, key_accepted, is_authorized, token_matches,
  respond, run_checked, sql_handler,
}
use forge_index.Api.Sql.RateLimiter.{try_acquire}
use forge_index.Api.Sql.Types.{Casing, Refusal, ValidatedSql}
use forge_index.Api.Sql.Validate.{validate_sql}
use forge_index.Api.Sql.Validate.Accepted.{Passes, validate_sql_iff}

-- outside of production, or with no key set, or with the key in the header
abbrev pub Authorized : SqlState → Caller → Type 0
Authorized state caller =
    (state.prod_mode ≡ false)
    ⊎ (state.api_key ≡ none)
    ⊎ ((key : Text) × (state.api_key ≡ some key)
        × (caller.authorization ≡ some (codes "Bearer " ++ key)))

some_value : {A : Type 0} (a b : A) → Path (Option A) (some a) (some b) → a ≡ b
some_value {A} a b h = ap (λ o. elim o as (λ _. A) [ none ↦ a | some x ↦ x ]) h

token_is_iff :
    (key : Text) (header : Option Text)
    → (token_is key header ≡ true) ↔ (header ≡ some (codes "Bearer " ++ key))
token_is_iff key none = (λ h. cc, λ h. cc)
token_is_iff key (some text) = (
  λ h. elim (Option-cases (strip_prefix (codes "Bearer ") text)) [
    | inl absent ↦ cc (sym h, ap (token_matches key) absent)
    | inr (token, found) ↦
        let same = (text_eq_iff token key).0 (sym (ap (token_matches key) found) ∙ h) in
        ap some (
          strip_prefix_text (codes "Bearer ") text token found
          ∙ ap (λ t. codes "Bearer " ++ t) same)
  ],
  λ h.
      let starts : strip_prefix (codes "Bearer ") text ≡ some key =
        ap
          (λ o. elim o as (λ _. Option Text) [
            | none ↦ none
            | some t ↦ strip_prefix (codes "Bearer ") t
          ])
          h
        ∙ strip_prefix-append (codes "Bearer ") key in
      ap (token_matches key) starts ∙ text_eq_self key,
)

accepted_iff :
    (prod_mode : Bool) (api_key header : Option Text)
    → ((if prod_mode then key_accepted api_key header else true) ≡ true) ↔ (
        (prod_mode ≡ false)
        ⊎ (api_key ≡ none)
        ⊎ ((key : Text) × (api_key ≡ some key) × (header ≡ some (codes "Bearer " ++ key))))
accepted_iff false api_key header = (λ _. inl refl, λ _. refl)
accepted_iff true none header = (λ _. inr (inl refl), λ _. refl)
accepted_iff true (some key) header =
    let (there, back) = token_is_iff key header in
    (
      λ h. inr (inr (key, refl, there h)),
      λ h. elim h [
        | inl e ↦ cc e
        | inr (inl e) ↦ cc e
        | inr (inr (k, e, sent)) ↦
            back (sent ∙ ap (λ t. some (codes "Bearer " ++ t)) (some_value k key (sym e)))
      ],
    )

is_authorized_iff :
    (state : SqlState) (caller : Caller)
    → (is_authorized state caller ≡ true) ↔ Authorized state caller
is_authorized_iff state caller = accepted_iff state.prod_mode state.api_key caller.authorization

module _ {W : Type 0} (casing : Casing) (driver : Driver W) (w : W) where
  run_changed :
      (r : Result Refusal ValidatedSql) (timeout_ms : Option ℕ)
      → (run_checked casing driver r timeout_ms w).1 ≢ w
      → (v : ValidatedSql) × (r ≡ ok v)
        × ((run_checked casing driver r timeout_ms w).0
            ≡ some (respond (execute_sql driver v timeout_ms w).0))
        × ((run_checked casing driver r timeout_ms w).1 ≡ (execute_sql driver v timeout_ms w).1)
  run_changed (err (Refusal.refused e)) timeout_ms h = absurd (h refl)
  run_changed (err Refusal.panicked) timeout_ms h = absurd (h refl)
  run_changed (ok v) timeout_ms h = (v, refl, refl, refl)

module _ {W : Type 0} (casing : Casing) (driver : Driver W) (now : ℕ) (caller : Caller)
    (req : SqlRequest) (state : SqlState) (w : W) where
  -- The database is reached only by a caller who may call and is not over the limit, and only with a
  -- query that passes the check: if the state of the database changes, then the caller is authorized,
  -- the limiter lets the call through, the trimmed query passes, and what happens is the run of the
  -- text that the check made of it.
  pub sql_handler_guarded :
      (sql_handler casing driver now caller req (state, w)).1.1 ≢ w
      → Authorized state caller
        × ((try_acquire (ip_of caller) now state.rate_limiter).0 ≡ true)
        × Passes casing (trim req.query)
        × ((v : ValidatedSql) × (validate_sql casing req.query state.pg_schema ≡ ok v)
            × ((sql_handler casing driver now caller req (state, w)).0
                ≡ some (respond (execute_sql driver v req.timeout_ms w).0))
            × ((sql_handler casing driver now caller req (state, w)).1.1
                ≡ (execute_sql driver v req.timeout_ms w).1))
  unfolding sql_handler
  sql_handler_guarded changed = elim (Bool-cases (is_authorized state caller)) [
    | inr refused ↦ absurd (changed (rw refused refl))
    | inl allowed ↦ elim (Bool-cases (try_acquire (ip_of caller) now state.rate_limiter).0) [
      | inr limited ↦ absurd (changed (rw allowed (rw limited refl)))
      | inl granted ↦
          let admitted : sql_handler casing driver now caller req (state, w)
              ≡ (let (answer, w') = checked in (answer, (counted, w'))) =
            rw allowed (rw granted refl) in
          let (v, valid, answer, world) =
            run_changed casing driver w (validate_sql casing req.query state.pg_schema)
              req.timeout_ms (λ same. changed (ap (λ p. p.1.1) admitted ∙ same)) in
          (
            (is_authorized_iff state caller).0 allowed,
            granted,
            ((validate_sql_iff casing req.query state.pg_schema v).0 valid).0,
            (v, valid, ap (λ p. p.0) admitted ∙ answer, ap (λ p. p.1.1) admitted ∙ world),
          )
    ]
  ]
    where
      checked : Option Response × W
      checked =
          run_checked casing driver (validate_sql casing req.query state.pg_schema) req.timeout_ms w

      counted : SqlState
      counted = record state {
        rate_limiter = (try_acquire (ip_of caller) now state.rate_limiter).1;
      }
