-- ===== src/Contracts/IssuerRegistry/Cycle.antt =====
-- The life of an issuer in the registry.
use zk_fact_verification.Common.{
  ◌≡◌, refl, ap, ◌∙◌, Bool, [], ◌∷◌, ◌++◌, Bytes, true, false, ok, err, text, bytes_eq,
  bytes_eq_refl, if◌then◌else◌,
}
use zk_fact_verification.Contracts.FactRegistry.{Context, set_at}
use zk_fact_verification.Contracts.IssuerRegistry.{
  IssuerInfo, IssuerRegistry, issuer_added, issuer_deactivated, store_issuer, clear_issuer,
  add_issuer, deactivate_issuer, is_active, get_issuer,
}

set_at-same : (m : Bytes → IssuerInfo) (k : Bytes) (v : IssuerInfo) → set_at m k v k ≡ v
set_at-same m k v = ap (λ (same : Bool). if same then v else m k) (bytes_eq_refl k)

set_at-other :
    (m : Bytes → IssuerInfo) (k j : Bytes) (v : IssuerInfo)
    → bytes_eq k j ≡ false
    → set_at m k v j ≡ m j
set_at-other m k j v differ = ap (λ (same : Bool). if same then v else m j) differ

module _ (ctx ctx' : Context) (id hash other : Bytes) (r : IssuerRegistry) where
  -- On an issuer that is not active, the owner's `addIssuer` succeeds; the issuer is then active,
  -- another issuer is as it was, a second `addIssuer` is refused, and the owner's
  -- `deactivateIssuer` succeeds, after which the issuer is not active, its key's hash is kept, and
  -- the two events follow the earlier ones.
  pub add_issuer-deactivate_issuer :
      bytes_eq ctx.sender r.owner ≡ true
      → bytes_eq ctx'.sender r.owner ≡ true
      → is_active r id ≡ false
      → bytes_eq id other ≡ false
      → (r1 : IssuerRegistry) × (r2 : IssuerRegistry) × (add_issuer ctx id hash r ≡ ok r1)
        × (is_active r1 id ≡ true)
        × (get_issuer r1 other ≡ get_issuer r other)
        × (add_issuer ctx' id hash r1 ≡ err (text "Issuer already active"))
        × (deactivate_issuer ctx' id r1 ≡ ok r2)
        × (is_active r2 id ≡ false)
        × ((get_issuer r2 id).pubkey_hash ≡ hash)
        × (r2.events ≡ (r.events ++ (issuer_added id hash ∷ [])) ++ (issuer_deactivated id ∷ []))
  unfolding add_issuer deactivate_issuer is_active get_issuer
  add_issuer-deactivate_issuer own own' idle differ = (
    store_issuer ctx id hash r,
    clear_issuer id (store_issuer ctx id hash r),
    rw (own, idle) refl,
    ap (λ i. i.active) (set_at-same r.issuers id _),
    set_at-other r.issuers id other _ differ,
    rw (own', set_at-same r.issuers id) refl,
    rw (own', set_at-same r.issuers id) refl,
    ap (λ i. i.active) (set_at-same (store_issuer ctx id hash r).issuers id _),
    ap (λ i. i.pubkey_hash) (set_at-same (store_issuer ctx id hash r).issuers id _)
        ∙ ap (λ i. i.pubkey_hash) (set_at-same r.issuers id _),
    refl,
  )
