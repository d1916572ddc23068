-- ===== src/Forge/Reparse.antt =====
-- An accepted address, and what its canonical form is parsed to.
use coderus.Base.{
  ◌≡◌, refl, sym, ap, ◌∙◌, Bool, true, false, not, ◌&&◌, ◌||◌, Option, none, some, List, [], ◌∷◌,
  ◌++◌, is_empty, Bool-cases, inl, inr, arith,
}
use coderus.Base.Text.{Text, codes, text_eq, any_char, any_text}
use coderus.Base.Trim.{is_space}
use coderus.Store.{Result, return, raise, invalid_forge_input}
use coderus.Forge.{ProviderName}
use coderus.Forge.Urls.{
  SplitUrl, RepositoryAddress, parts_match, repository_parts_valid, host_of, provider_of,
  is_bad_char, is_bad_url, path_parts, repository_path, with_parts, canonical, address, is_wanted,
  is_refused_split, is_traversal, parts_at, parts_of_host, parts_of, parse_public_url,
  repository_at, parse_repository_url,
}
use coderus.Forge.Address.{
  plain_name, matched_names, any_char-append, text_eq_self, url_plain, parts_back, canonical_split,
  provider_of-host_of, host_plain, host_known, name_full,
}

abbrev Parts : Type 0
Parts = ProviderName × Text × List Text

from_parts :
    (provider' : ProviderName) (host' : Text) (parts' : List Text) (provider : ProviderName)
    (host : Text) (parts : List Text)
    → with_parts provider' host' parts' ≡ return (provider, host, parts)
    → (provider' ≡ provider) × (host' ≡ host) × (any_text is_traversal parts ≡ false)
from_parts provider' host' parts' provider host parts h =
    elim (Bool-cases (is_empty parts' || any_text is_traversal parts')) [
      | inl t ↦
          let failed : ◌≡◌ {A = Result Parts} (raise invalid_forge_input)
              (return (provider, host, parts)) =
            rw t at h in
          cc
      | inr f ↦
          let same : ◌≡◌ {A = Result Parts} (return (provider', host', parts'))
              (return (provider, host, parts)) =
            rw f at h in
          let p : provider' ≡ provider = cc in
          let q : host' ≡ host = cc in
          let r : parts' ≡ parts = cc in
          let safe : any_text is_traversal parts' ≡ false = ground arith in (p, q, rw r at safe)
    ]

last_holds : (a b c : Bool) → (a && (not b && c)) ≡ true → c ≡ true
last_holds a b c h = ground arith

guard_match :
    (e : Bool) (provider : ProviderName) (owner name : Text)
    → (e && repository_parts_valid provider owner name) ≡ true
    → parts_match provider owner name ≡ true
unfolding repository_parts_valid
guard_match e provider owner name h = last_holds e _ (parts_match provider owner name) h

path_plain :
    (owner name : Text)
    → any_char is_bad_char owner ≡ false
    → any_char is_bad_char name ≡ false
    → any_char is_bad_char (repository_path owner name) ≡ false
unfolding is_bad_char is_space
path_plain owner name h k = any_char-append is_bad_char owner (b'/' ∷ name) h k

canonical_plain :
    (provider : ProviderName) (owner name : Text)
    → any_char is_bad_char (repository_path owner name) ≡ false
    → is_bad_url (canonical (host_of provider) owner name) ≡ false
unfolding canonical is_bad_char is_space
canonical_plain provider owner name h =
    url_plain (codes "https://" ++ (host_of provider ++ repository_path owner name)) refl (
      any_char-append is_bad_char (host_of provider) (repository_path owner name)
        (host_plain provider) h)

module _ (lower : Text → Text) (split_url : Text → Option SplitUrl)
    (expected : Option ProviderName) where
  reparse :
      (provider : ProviderName) (owner name : Text)
      → (is_wanted expected provider && repository_parts_valid provider owner name) ≡ true
      → any_text is_traversal (owner ∷ name ∷ []) ≡ false
      → lower (host_of provider) ≡ host_of provider
      → split_url (canonical (host_of provider) owner name)
        ≡ some (canonical_split provider owner name)
      → parse_repository_url lower split_url expected (canonical (host_of provider) owner name)
        ≡ return (address provider (host_of provider) owner name)
  unfolding parse_repository_url parse_public_url parts_of parts_at repository_at
  reparse provider owner name guard plain same splits =
      let match = guard_match (is_wanted expected provider) provider owner name guard in
      let (owned, named) = matched_names provider owner name match in
      let full = name_full provider owner name match in
      let path = path_plain owner name (plain_name owner owned).0 (plain_name name named).0 in
      let good = canonical_plain provider owner name path in
      rw
        (
          good,
          splits,
          provider_of-host_of provider,
          same,
          text_eq_self (codes "https"),
          text_eq_self (host_of provider),
          parts_back owner name owned named full,
          plain,
          guard,
        )
        refl

  from_at :
      (host' : Text) (u : SplitUrl) (o : Option ProviderName) (provider : ProviderName)
      (host : Text) (parts : List Text)
      → parts_at lower host' u o ≡ return (provider, host, parts)
      → (o ≡ some provider) × (host' ≡ host) × (any_text is_traversal parts ≡ false)
  unfolding parts_at
  from_at host' u none provider host parts h = cc
  from_at host' u (some p) provider host parts h =
      elim (Bool-cases (is_refused_split u || not (text_eq (lower u.netloc) host'))) [
        | inl t ↦
            let failed : ◌≡◌ {A = Result Parts} (raise invalid_forge_input)
                (return (provider, host, parts)) =
              rw t at h in
            cc
        | inr f ↦
            let (a, b, c) =
              from_parts p host' (path_parts u.path) provider host parts (rw f at h) in
            (ap (λ x. some x) a, b, c)
      ]

  from_host :
      (u : SplitUrl) (o : Option Text) (provider : ProviderName) (host : Text) (parts : List Text)
      → parts_of_host lower u o ≡ return (provider, host, parts)
      → (provider_of host ≡ some provider) × (any_text is_traversal parts ≡ false)
  from_host u none provider host parts h = cc
  from_host u (some host') provider host parts h =
      let (a, b, c) = from_at host' u (provider_of host') provider host parts h in (rw b at a, c)

  from_split :
      (o : Option SplitUrl) (provider : ProviderName) (host : Text) (parts : List Text)
      → parts_of lower o ≡ return (provider, host, parts)
      → (provider_of host ≡ some provider) × (any_text is_traversal parts ≡ false)
  unfolding parts_of
  from_split none provider host parts h = cc
  from_split (some u) provider host parts h = from_host u u.hostname provider host parts h

  from_url :
      (url : Text) (provider : ProviderName) (host : Text) (parts : List Text)
      → parse_public_url lower split_url url ≡ return (provider, host, parts)
      → (provider_of host ≡ some provider) × (any_text is_traversal parts ≡ false)
  unfolding parse_public_url
  from_url url provider host parts h = elim (Bool-cases (is_bad_url url)) [
    | inl t ↦
        let failed : ◌≡◌ {A = Result Parts} (raise invalid_forge_input)
            (return (provider, host, parts)) =
          rw t at h in
        cc
    | inr f ↦ from_split (split_url url) provider host parts (rw f at h)
  ]

  from_repository :
      (p : Result Parts) (r : RepositoryAddress)
      → repository_at lower split_url expected p ≡ return r
      → (host : Text) × (p ≡ return (r.provider, host, r.owner ∷ r.name ∷ []))
        × ((is_wanted expected r.provider && repository_parts_valid r.provider r.owner r.name)
            ≡ true)
        × (address r.provider host r.owner r.name ≡ r)
  unfolding repository_at
  from_repository (raise e) r h = cc
  from_repository (return (provider, host, [])) r h = cc
  from_repository (return (provider, host, owner ∷ [])) r h = cc
  from_repository (return (provider, host, owner ∷ name ∷ x ∷ rest)) r h = cc
  from_repository (return (provider, host, owner ∷ name ∷ [])) r h =
      elim (Bool-cases
        (is_wanted expected provider && repository_parts_valid provider owner name)) [
          | inl t ↦
              let same : ◌≡◌ {A = Result RepositoryAddress}
                  (return (address provider host owner name)) (return r) =
                rw t at h in
              let eq : address provider host owner name ≡ r = cc in rw⁻¹ eq (host, refl, t, refl)
          | inr f ↦
              let failed : ◌≡◌ {A = Result RepositoryAddress} (raise invalid_forge_input)
                  (return r) =
                rw f at h in
              cc
        ]

  -- An address that is accepted as that of a repository has a canonical form that is parsed to
  -- the same repository, where `urlsplit` splits that form into scheme, host and path, and the
  -- lower case of the host is the host.
  pub canonical_url-parse_repository_url :
      (url : Text) (r : RepositoryAddress)
      → parse_repository_url lower split_url expected url ≡ return r
      → lower (host_of r.provider) ≡ host_of r.provider
      → split_url r.canonical_url ≡ some (canonical_split r.provider r.owner r.name)
      → parse_repository_url lower split_url expected r.canonical_url ≡ return r
  unfolding parse_repository_url
  canonical_url-parse_repository_url url r h same splits =
      let (host, p, guard, eq) = from_repository (parse_public_url lower split_url url) r h in
      let (known, plain) = from_url url r.provider host _ p in
      let usual : host ≡ host_of r.provider = host_known host r.provider known in
      let whole : address r.provider (host_of r.provider) r.owner r.name ≡ r = rw usual at eq in
      let url_of : canonical (host_of r.provider) r.owner r.name ≡ r.canonical_url =
        ap (λ (x : RepositoryAddress). x.canonical_url) whole in
      let again = reparse r.provider r.owner r.name guard plain same (rw url_of splits) in
      ap (parse_repository_url lower split_url expected) (sym url_of)
      ∙ again
      ∙ ap (λ x. return x) whole
