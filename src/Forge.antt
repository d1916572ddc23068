-- ===== src/Forge.antt =====
-- coderus/forge/registry.py: which platforms the program can reach, and what each may be asked for.
-- A forge is any value.
pub mod Registry
pub mod Urls
pub mod Address
pub mod Reparse
use coderus.Base.{
  ℕ, ◌==◌, Bool, true, false, not, ◌&&◌, ◌||◌, Option, none, some, List, [], ◌∷◌, if◌then◌else◌,
  is_some, is_empty,
}
use coderus.Store.{Result, return, raise, forge_not_configured}

-- `ProviderName` of coderus/forge/models.py
pub data ProviderName : Type 0 where
  github gitcode : ProviderName

abbrev pub same_provider : ProviderName → ProviderName → Bool
same_provider github github = true
same_provider gitcode gitcode = true
same_provider _ _ = false

pub data ForgeCapability : Type 0 where
  ensure_fork publish list_pr_feedback : ForgeCapability
  get_pr_status get_pull_request publish_pr_comment : ForgeCapability

abbrev pub capability_index : ForgeCapability → ℕ
capability_index ensure_fork = 0
capability_index publish = 1
capability_index list_pr_feedback = 2
capability_index get_pr_status = 3
capability_index get_pull_request = 4
capability_index publish_pr_comment = 5

-- `capability in capabilities`
abbrev pub has_capability : ForgeCapability → List ForgeCapability → Bool
has_capability c [] = false
has_capability c (d ∷ ds) = capability_index c == capability_index d || has_capability c ds

abbrev pub has_all : List ForgeCapability → List ForgeCapability → Bool
has_all [] held = true
has_all (c ∷ cs) held = has_capability c held && has_all cs held

abbrev pub all_capabilities : List ForgeCapability
all_capabilities =
    ensure_fork ∷ publish ∷ list_pr_feedback ∷ get_pr_status ∷ get_pull_request ∷ publish_pr_comment
    ∷ []

module _ (F : Type 0) where
  pub record ForgeRegistration : Type 0 where
    pub forge : Option F
    pub capabilities : List ForgeCapability

  -- The registrations in the order of their keys, as in a dict.
  abbrev pub Registrations : Type 0
  Registrations = List (ProviderName × ForgeRegistration)

module _ {F : Type 0} where
  -- `ForgeRegistration.__post_init__`, where a ValueError is none.
  unfoldable pub registration_of : Option F → List ForgeCapability → Option (ForgeRegistration F)
  registration_of forge capabilities =
      if not (is_some forge) && not (is_empty capabilities)
      then none
      else some (record { forge = forge; capabilities = capabilities })

  -- `ForgeRegistration.full` and `unavailable`
  abbrev pub full : F → ForgeRegistration F
  full forge = record { forge = some forge; capabilities = all_capabilities }

  abbrev pub unavailable : ForgeRegistration F
  unavailable = record { forge = none; capabilities = [] }

  -- `ForgeRegistration.supports`
  unfoldable pub registration_supports : ForgeRegistration F → List ForgeCapability → Bool
  registration_supports r wanted = is_some r.forge && has_all wanted r.capabilities

  -- `self._registrations.get(provider)`
  unfoldable pub lookup : ProviderName → Registrations F → Option (ForgeRegistration F)
  lookup p [] = none
  lookup p ((q, r) ∷ rest) =
      let later = lookup p rest in if same_provider q p then some r else later

  -- `install_registration`: a key that is there keeps its place.
  unfoldable pub install_registration :
      ProviderName → ForgeRegistration F → Registrations F → Registrations F
  install_registration p r [] = (p, r) ∷ []
  install_registration p r ((q, s) ∷ rest) =
      let later = install_registration p r rest in
      if same_provider q p then (q, r) ∷ rest else (q, s) ∷ later

  abbrev pub installed :
      ProviderName → Registrations F → Option (ForgeRegistration F) → Option (Registrations F)
  installed p registry none = none
  installed p registry (some r) = some (install_registration p r registry)

  -- `install`, where a ValueError is none.
  unfoldable pub install :
      ProviderName → Option F → List ForgeCapability → Registrations F → Option (Registrations F)
  install p forge capabilities registry = installed p registry (registration_of forge capabilities)

  -- `get`
  abbrev pub forge_of : Option (ForgeRegistration F) → Option F
  forge_of none = none
  forge_of (some r) = r.forge

  unfoldable pub get_forge : ProviderName → Registrations F → Option F
  get_forge p registry = forge_of (lookup p registry)

  -- `require`
  abbrev pub required : Option F → Result F
  required none = raise forge_not_configured
  required (some forge) = return forge

  unfoldable pub require : ProviderName → Registrations F → Result F
  require p registry = required (get_forge p registry)

  -- `configured`
  unfoldable pub configured : ProviderName → Registrations F → Bool
  configured p registry = is_some (lookup p registry)

  -- `supports`
  abbrev pub supported : Option (ForgeRegistration F) → List ForgeCapability → Bool
  supported none wanted = false
  supported (some r) wanted = registration_supports r wanted

  unfoldable pub supports : ProviderName → List ForgeCapability → Registrations F → Bool
  supports p wanted registry = supported (lookup p registry) wanted

  -- `remove`
  unfoldable pub remove : ProviderName → Registrations F → Registrations F
  remove p [] = []
  remove p ((q, r) ∷ rest) =
      let later = remove p rest in if same_provider q p then later else (q, r) ∷ later
