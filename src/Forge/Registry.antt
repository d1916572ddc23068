-- ===== src/Forge/Registry.antt =====
-- What a request relies on that the registry supports.
use coderus.Base.{
  ◌≡◌, refl, true, false, ◌&&◌, Option, none, some, List, is_some, Option-cases, inl, inr,
}
use coderus.Store.{return}
use coderus.Forge.{
  ProviderName, ForgeCapability, ForgeRegistration, Registrations, registration_supports, lookup,
  get_forge, require, required, configured, supports, supported, forge_of, has_all,
}

module _ {F : Type 0} where
  required_of :
      (o : Option (ForgeRegistration F)) (wanted : List ForgeCapability)
      → supported o wanted ≡ true
      → (forge : F) × (required (forge_of o) ≡ return forge) × (is_some o ≡ true)
  unfolding registration_supports
  required_of none wanted h = cc
  required_of (some r) wanted h = elim (Option-cases r.forge) [
    | inl e ↦ let no_forge : (false && has_all wanted r.capabilities) ≡ true = rw e at h in cc
    | inr (forge, e) ↦ (forge, rw e refl, refl)
  ]

  -- Where the registry says that a platform supports what is wanted, the platform is configured
  -- and `require` gives its forge.
  pub supports-require :
      (p : ProviderName) (wanted : List ForgeCapability) (registry : Registrations F)
      → supports p wanted registry ≡ true
      → (forge : F) × (require p registry ≡ return forge) × (configured p registry ≡ true)
  unfolding supports require get_forge configured
  supports-require p wanted registry h = required_of (lookup p registry) wanted h
