-- ===== src/Forge/Address.antt =====
-- The canonical address of a repository leads back to the repository.
use coderus.Base.{
  ℕ, ◌≡◌, refl, ap, ◌∙◌, Bool, true, false, none, some, [], ◌∷◌, ◌++◌, ◌==◌, is_empty, Bool-cases,
  inl, inr, arith,
}
use coderus.Base.Text.{Text, codes, text_dec, text_eq, any_char, split, put_first}
use coderus.Base.Trim.{is_space, lstrip, rstrip, strip}
use coderus.Forge.{ProviderName, github, gitcode}
use coderus.Forge.Urls.{
  SplitUrl, is_owner_char, is_name_char, all_chars, is_github_owner, is_github_repository,
  is_gitcode_segment, parts_match, host_of, provider_of, is_bad_char, is_bad_url,
  without_last_empty, path_parts, repository_path,
}

name_char_plain : (c : ℕ) → is_name_char c ≡ true → (is_bad_char c ≡ false) × ((c == b'/') ≡ false)
unfolding is_bad_char is_space
name_char_plain c h = ground arith

pub plain_name :
    (s : Text)
    → all_chars is_name_char s ≡ true
    → (any_char is_bad_char s ≡ false) × (any_char (λ c. c == b'/') s ≡ false)
plain_name [] h = (refl, refl)
plain_name (c ∷ s) h =
    let (first, rest) : (is_name_char c ≡ true) × (all_chars is_name_char s ≡ true) =
      ground arith in
    let (good, part) = name_char_plain c first in
    let (goods, parts) = plain_name s rest in (rw good goods, rw part parts)

owner_name : (s : Text) → all_chars is_owner_char s ≡ true → all_chars is_name_char s ≡ true
owner_name [] h = refl
owner_name (c ∷ s) h = ground (arith, owner_name s)

pub matched_names :
    (provider : ProviderName) (owner name : Text)
    → parts_match provider owner name ≡ true
    → (all_chars is_name_char owner ≡ true) × (all_chars is_name_char name ≡ true)
unfolding parts_match is_github_owner is_github_repository is_gitcode_segment
matched_names github [] name h = cc
matched_names github (c ∷ s) name h = ground (arith, owner_name s)
matched_names gitcode [] name h = cc
matched_names gitcode (c ∷ s) [] h = ground arith
matched_names gitcode (c ∷ s) (d ∷ t) h = ground arith

pub any_char-append :
    (p : ℕ → Bool) (s t : Text)
    → any_char p s ≡ false
    → any_char p t ≡ false
    → any_char p (s ++ t) ≡ false
any_char-append p [] t h k = k
any_char-append p (c ∷ s) t h k = ground (arith, any_char-append p s t)

bad_space : (c : ℕ) → is_bad_char c ≡ false → is_space c ≡ false
unfolding is_bad_char
bad_space c h = ground arith

rstrip_plain : (s : Text) → any_char is_bad_char s ≡ false → rstrip s ≡ s
unfolding rstrip
rstrip_plain [] h = refl
rstrip_plain (c ∷ s) h =
    let (good, goods) : (is_bad_char c ≡ false) × (any_char is_bad_char s ≡ false) = ground arith in
    let plain = bad_space c good in
    elim (Bool-cases (is_empty s)) [
      | inl e ↦ rw (rstrip_plain s goods, e, plain) refl
      | inr e ↦ rw (rstrip_plain s goods, e) refl
    ]

strip_plain : (s : Text) → any_char is_bad_char s ≡ false → strip s ≡ s
unfolding strip lstrip
strip_plain [] h = unfold rstrip in refl
strip_plain (c ∷ s) h =
    let (good, goods) : (is_bad_char c ≡ false) × (any_char is_bad_char s ≡ false) = ground arith in
    rw (bad_space c good) (rstrip_plain (c ∷ s) h)

pub text_eq_self : (s : Text) → text_eq s s ≡ true
text_eq_self s = ground arith

pub url_plain :
    (s : Text) → is_empty s ≡ false → any_char is_bad_char s ≡ false → is_bad_url s ≡ false
unfolding is_bad_url
url_plain s full h = rw (full, strip_plain s h, text_eq_self s, h) refl

split_plain : (s : Text) → any_char (λ c. c == b'/') s ≡ false → split b'/' s ≡ s ∷ []
unfolding split put_first
split_plain [] h = refl
split_plain (c ∷ s) h =
    let (plain, rest) : ((c == b'/') ≡ false) × (any_char (λ d. d == b'/') s ≡ false) =
      ground arith in
    rw (plain, split_plain s rest) refl

split_joined :
    (s t : Text)
    → any_char (λ c. c == b'/') s ≡ false
    → split b'/' (s ++ (b'/' ∷ t)) ≡ s ∷ split b'/' t
unfolding split put_first
split_joined [] t h = refl
split_joined (c ∷ s) t h =
    let (plain, rest) : ((c == b'/') ≡ false) × (any_char (λ d. d == b'/') s ≡ false) =
      ground arith in
    rw (plain, split_joined s t rest) refl

split_first : (t : Text) → split b'/' (b'/' ∷ t) ≡ [] ∷ split b'/' t
unfolding split
split_first t = refl

pub parts_back :
    (owner name : Text)
    → all_chars is_name_char owner ≡ true
    → all_chars is_name_char name ≡ true
    → is_empty name ≡ false
    → path_parts (repository_path owner name) ≡ owner ∷ name ∷ []
unfolding path_parts without_last_empty
parts_back owner name h k full =
    let rest : split b'/' (owner ++ (b'/' ∷ name)) ≡ owner ∷ name ∷ [] =
      split_joined owner name (plain_name owner h).1
      ∙ ap (λ ps. owner ∷ ps) (split_plain name (plain_name name k).1) in
    rw (split_first (owner ++ (b'/' ∷ name))) (rw rest (rw full refl))

-- The split of a canonical address, as `urlsplit` gives it.
abbrev pub canonical_split : ProviderName → Text → Text → SplitUrl
canonical_split provider owner name = record {
  scheme = codes "https";
  netloc = host_of provider;
  username = none;
  password = none;
  hostname = some (host_of provider);
  port = none;
  path = repository_path owner name;
  query = [];
  fragment = [];
}

pub provider_of-host_of : (provider : ProviderName) → provider_of (host_of provider) ≡ some provider
unfolding provider_of host_of text_dec
provider_of-host_of github = refl
provider_of-host_of gitcode = refl

pub host_plain : (provider : ProviderName) → any_char is_bad_char (host_of provider) ≡ false
unfolding host_of is_bad_char is_space
host_plain github = refl
host_plain gitcode = refl

pub host_known :
    (host : Text) (provider : ProviderName)
    → provider_of host ≡ some provider
    → host ≡ host_of provider
unfolding provider_of host_of
host_known host github h = ground arith
host_known host gitcode h = ground arith

pub name_full :
    (provider : ProviderName) (owner name : Text)
    → parts_match provider owner name ≡ true
    → is_empty name ≡ false
unfolding parts_match is_github_repository is_gitcode_segment
name_full github owner [] h = ground arith
name_full github owner (c ∷ s) h = refl
name_full gitcode owner [] h = ground arith
name_full gitcode owner (c ∷ s) h = refl
