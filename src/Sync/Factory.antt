-- ===== src/Sync/Factory.antt =====
-- Addresses of contracts that a factory made: crates/forge-index-sync/src/factory.rs.
use forge_index.Base.{
  ℕ, String, ◌≡◌, refl, ap, ◌∙◌, ◌↔◌, ◌⊎◌, inl, inr, Bool, true, false, ◌&&◌, Option, none, some,
  List, [], ◌∷◌, ◌++◌, arith, str_eq, eq_iff, ◌==◌, if◌then◌else◌, ==_iff, Option-cases, length,
}
use forge_index.Base.Exec.{Result, ok, err}
use forge_index.Base.Maps.{Key, Map, get, insert, get-insert, get-insert_self}
use forge_index.Config.Contract.{FactoryConfig}
use forge_index.Core.Event.{DecodedEvent, DecodedParam, address, get_param}
use forge_index.Sync.Error.{SyncError, factory_decode}

-- the key of the map: the chain and the factory's name
abbrev pub pair_beq : ℕ × String → ℕ × String → Bool
pair_beq (a, s) (b, t) = (a == b) && str_eq s t

both : (a b : Bool) → (a && b) ≡ true → (a ≡ true) × (b ≡ true)
both a b h = ground (arith, h)

pub pair_beq_iff : (x y : ℕ × String) → (pair_beq x y ≡ true) ↔ (x ≡ y)
pair_beq_iff (a, s) (b, t) = (
  λ h.
      let (same, text) = both (a == b) (str_eq s t) h in
      λ i. ((==_iff a b).0 same i, (eq_iff s t).0 text i),
  λ e. rw ((==_iff a b).1 (ap (λ p. p.0) e), (eq_iff s t).1 (ap (λ p. p.1) e)) refl,
)

abbrev pub factory_key : Key (ℕ × String)
factory_key = record { beq = pair_beq; beq_iff = pair_beq_iff }

pub record FactoryAddressTracker : Type 0 where
  pub addresses : Map (ℕ × String) (List ℕ)

abbrev pub or_none : Option (List ℕ) → List ℕ
or_none none = []
or_none (some xs) = xs

unfoldable pub get_addresses : ℕ → String → FactoryAddressTracker → List ℕ
get_addresses chain_id contract t = or_none (get factory_key (chain_id, contract) t.addresses)

unfoldable pub address_count : ℕ → String → FactoryAddressTracker → ℕ
address_count chain_id contract t =
    length (or_none (get factory_key (chain_id, contract) t.addresses))

unfoldable pub add_addresses : ℕ → String → List ℕ → FactoryAddressTracker → FactoryAddressTracker
add_addresses chain_id contract addrs t = record t {
  addresses =
      insert factory_key (chain_id, contract)
        (or_none (get factory_key (chain_id, contract) t.addresses) ++ addrs) t.addresses;
}

-- the address in a parameter
abbrev pub as_address : Option DecodedParam → Option ℕ
as_address (some (address a)) = some a
as_address _ = none

abbrev pub add_found :
    FactoryConfig
    → ℕ
    → String
    → FactoryAddressTracker
    → Option ℕ
    → Result SyncError (Unit {0}) × FactoryAddressTracker
add_found factory chain_id contract t none =
    (err (factory_decode contract factory.address_parameter), t)
add_found factory chain_id contract t (some a) = (
  ok tt,
  record t {
    addresses =
        insert factory_key (chain_id, contract)
          (or_none (get factory_key (chain_id, contract) t.addresses) ++ a ∷ []) t.addresses;
  },
)

unfoldable pub process_factory_event :
    DecodedEvent
    → FactoryConfig
    → ℕ
    → String
    → FactoryAddressTracker
    → Result SyncError (Unit {0}) × FactoryAddressTracker
process_factory_event event factory chain_id contract t =
    add_found factory chain_id contract t (as_address (get_param factory.address_parameter event))

-- An event either holds an address in the configured parameter, which is then the last of the factory's
-- addresses, or it is refused and nothing changes; the addresses of another factory stay.
pub process_factory_event_cases :
    (event : DecodedEvent) (factory : FactoryConfig) (chain_id other_chain : ℕ)
    (contract other : String) (t : FactoryAddressTracker)
    → pair_beq (chain_id, contract) (other_chain, other) ≡ false
    → (((a : ℕ) × (as_address (get_param factory.address_parameter event) ≡ some a)
          × ((process_factory_event event factory chain_id contract t).0 ≡ ok tt)
          × (get_addresses chain_id contract
                (process_factory_event event factory chain_id contract t).1
              ≡ get_addresses chain_id contract t ++ a ∷ []))
        ⊎ (as_address (get_param factory.address_parameter event) ≡ none)
          × (process_factory_event event factory chain_id contract t
              ≡ (err (factory_decode contract factory.address_parameter), t)))
      × (get_addresses other_chain other (process_factory_event event factory chain_id contract t).1
          ≡ get_addresses other_chain other t)
unfolding process_factory_event get_addresses
process_factory_event_cases event factory chain_id other_chain contract other t apart =
    elim (Option-cases (as_address (get_param factory.address_parameter event))) [
      | inl missing ↦ rw missing (inr (refl, refl), refl)
      | inr (a, found) ↦
          let here = or_none (get factory_key (chain_id, contract) t.addresses) ++ a ∷ [] in
          rw found (
            inl (
              a,
              refl,
              refl,
              ap or_none (get-insert_self factory_key (chain_id, contract) here t.addresses),
            ),
            ap or_none (
                get-insert factory_key (chain_id, contract) (other_chain, other) here t.addresses
                ∙ ap
                    (λ b. if b then some here else get factory_key (other_chain, other) t.addresses)
                    apart),
          )
    ]
