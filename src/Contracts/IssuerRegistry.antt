-- ===== src/Contracts/IssuerRegistry.antt =====
-- blockchain/contracts/IssuerRegistry.sol.
pub mod Cycle
use zk_fact_verification.Common.{
  ℕ, ◌%◌, ◌^◌, List, [], ◌∷◌, ◌++◌, Bytes, Bool, true, false, not, Result, ok, text, bytes_eq, ◌>>◌,
  replicate,
}
use zk_fact_verification.Contracts.FactRegistry.{Context, set_at, require}

pub record IssuerInfo : Type 0 where
  pub pubkey_hash : Bytes
  pub active : Bool
  pub added_at : ℕ

pub data IssuerEvent : Type 0 where
  -- `IssuerAdded` and `IssuerDeactivated`
  issuer_added : Bytes → Bytes → IssuerEvent
  issuer_deactivated : Bytes → IssuerEvent

pub record IssuerRegistry : Type 0 where
  pub owner : Bytes
  pub issuers : Bytes → IssuerInfo
  pub events : List IssuerEvent

-- The constructor, called by `owner`.
unfoldable pub deploy : Bytes → IssuerRegistry
deploy sender = record {
  owner = sender;
  issuers = λ id. record { pubkey_hash = replicate 32 0; active = false; added_at = 0 };
  events = [];
}

-- The new entry and its event.
abbrev pub store_issuer : Context → Bytes → Bytes → IssuerRegistry → IssuerRegistry
store_issuer ctx issuer_id_hash pubkey_hash r = record r {
  issuers =
      set_at r.issuers issuer_id_hash
        (record { pubkey_hash = pubkey_hash; active = true; added_at = ctx.timestamp % 2 ^ 64 });
  events = r.events ++ (issuer_added issuer_id_hash pubkey_hash ∷ []);
}

unfoldable pub add_issuer : Context → Bytes → Bytes → IssuerRegistry → Result IssuerRegistry
add_issuer ctx issuer_id_hash pubkey_hash r = do
  require (bytes_eq ctx.sender r.owner) (text "Not owner")
  require (not (r.issuers issuer_id_hash).active) (text "Issuer already active")
  ok (store_issuer ctx issuer_id_hash pubkey_hash r)

-- The cleared flag and its event.
abbrev pub clear_issuer : Bytes → IssuerRegistry → IssuerRegistry
clear_issuer issuer_id_hash r = record r {
  issuers = set_at r.issuers issuer_id_hash (record (r.issuers issuer_id_hash) { active = false });
  events = r.events ++ (issuer_deactivated issuer_id_hash ∷ []);
}

unfoldable pub deactivate_issuer : Context → Bytes → IssuerRegistry → Result IssuerRegistry
deactivate_issuer ctx issuer_id_hash r = do
  require (bytes_eq ctx.sender r.owner) (text "Not owner")
  require (r.issuers issuer_id_hash).active (text "Issuer not active")
  ok (clear_issuer issuer_id_hash r)

unfoldable pub is_active : IssuerRegistry → Bytes → Bool
is_active r issuer_id_hash = (r.issuers issuer_id_hash).active

unfoldable pub get_issuer : IssuerRegistry → Bytes → IssuerInfo
get_issuer r issuer_id_hash = r.issuers issuer_id_hash
