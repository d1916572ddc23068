-- ===== src/Tests/Forge.antt =====
-- The theorems on forges and addresses at concrete inputs.
use coderus.Base.{ℕ, ◌≡◌, refl, true, Option, none, some, [], ◌∷◌}
use coderus.Base.Text.{Text, codes, text_dec, put_first, split}
use coderus.Base.Trim.{is_space, lstrip, rstrip, strip, drop, last}
use coderus.Store.{return}
use coderus.Forge.{
  github, publish, Registrations, full, registration_supports, lookup, require, configured,
  supports,
}
use coderus.Forge.Registry.{supports-require}
use coderus.Forge.Urls.{
  SplitUrl, RepositoryAddress, is_github_owner, is_github_repository, is_reserved_name, parts_match,
  repository_parts_valid, host_of, provider_of, is_bad_char, is_bad_url, without_last_empty,
  path_parts, canonical, parts_at, parts_of, parse_public_url, repository_at, parse_repository_url,
}
use coderus.Forge.Address.{canonical_split}
use coderus.Forge.Reparse.{canonical_url-parse_repository_url}

-- A registry with one forge, which is a number here.
abbrev registry : Registrations ℕ
registry = (github, full 7) ∷ []

publish_supported : supports github (publish ∷ []) registry ≡ true
unfolding supports registration_supports lookup
publish_supported = refl

supports-require_example :
    (forge : ℕ) × (require github registry ≡ return forge) × (configured github registry ≡ true)
supports-require_example = supports-require github (publish ∷ []) registry publish_supported

abbrev same_case : Text → Text
same_case s = s

abbrev split_hello : Text → Option SplitUrl
split_hello url = some (canonical_split github (codes "octo") (codes "hello"))

abbrev hello_url : Text
hello_url = codes "https://github.com/octo/hello"

abbrev hello : RepositoryAddress
hello = record {
  provider = github;
  owner = codes "octo";
  name = codes "hello";
  canonical_url = hello_url;
}

hello_parsed : parse_repository_url same_case split_hello none hello_url ≡ return hello
unfolding parse_repository_url repository_at parse_public_url parts_of parts_at provider_of host_of
    is_bad_url is_bad_char is_space strip lstrip rstrip text_dec path_parts without_last_empty split
    put_first repository_parts_valid is_reserved_name last drop parts_match is_github_owner
    is_github_repository canonical
hello_parsed = refl

canonical_url-parse_repository_url_example :
    parse_repository_url same_case split_hello none hello_url ≡ return hello
canonical_url-parse_repository_url_example =
    canonical_url-parse_repository_url same_case split_hello none hello_url hello hello_parsed refl
      refl
