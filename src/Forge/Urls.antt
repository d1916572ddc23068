-- ===== src/Forge/Urls.antt =====
-- coderus/forge/urls.py: the addresses of repositories, issues and pull requests. The splitting of
-- an address, the lower case of a text and the reading of digits are the standard library's, and
-- parameters.
use coderus.Base.{
  ℕ, Bool, true, false, not, ◌&&◌, ◌||◌, Option, none, some, List, [], ◌∷◌, ◌++◌, ◌==◌, ltb, leb,
  if◌then◌else◌, is_some, is_empty, length,
}
use coderus.Base.Text.{Text, codes, text_eq, any_char, any_text, split}
use coderus.Base.Trim.{is_space, strip, last}
use coderus.Store.{Result, return, raise, invalid_forge_input, value_error}
use coderus.Forge.{ProviderName, github, gitcode, same_provider}

-- What `urlsplit` gives.
pub record SplitUrl : Type 0 where
  pub scheme : Text
  pub netloc : Text
  pub username : Option Text
  pub password : Option Text
  pub hostname : Option Text
  pub port : Option ℕ
  pub path : Text
  pub query : Text
  pub fragment : Text

-- `Repository` of coderus/forge/models.py
pub record RepositoryAddress : Type 0 where
  pub provider : ProviderName
  pub owner : Text
  pub name : Text
  pub canonical_url : Text

-- The classes of the patterns.
abbrev pub is_alphanumeric : ℕ → Bool
is_alphanumeric c =
    (leb b'A' c && leb c b'Z') || (leb b'a' c && leb c b'z') || (leb b'0' c && leb c b'9')

abbrev pub is_owner_char : ℕ → Bool
is_owner_char c = is_alphanumeric c || c == b'-'

abbrev pub is_name_char : ℕ → Bool
is_name_char c = is_alphanumeric c || c == b'.' || c == b'_' || c == b'-'

abbrev pub all_chars : (ℕ → Bool) → Text → Bool
all_chars p [] = true
all_chars p (c ∷ s) = p c && all_chars p s

-- `_GITHUB_OWNER`, `_GITHUB_REPOSITORY` and `_GITCODE_SEGMENT`
unfoldable pub is_github_owner : Text → Bool
is_github_owner [] = false
is_github_owner (c ∷ s) = is_alphanumeric c && all_chars is_owner_char s && leb (length s) 38

unfoldable pub is_github_repository : Text → Bool
is_github_repository s = all_chars is_name_char s && leb 1 (length s) && leb (length s) 100

unfoldable pub is_gitcode_segment : Text → Bool
is_gitcode_segment [] = false
is_gitcode_segment (c ∷ s) = is_alphanumeric c && all_chars is_name_char s && leb (length s) 99

unfoldable pub is_reserved_name : Text → Bool
is_reserved_name name =
    text_eq (last 4 name) (codes ".git") || text_eq name (codes ".") || text_eq name (codes "..")

unfoldable pub parts_match : ProviderName → Text → Text → Bool
parts_match github owner name = is_github_owner owner && is_github_repository name
parts_match gitcode owner name = is_gitcode_segment owner && is_gitcode_segment name

-- `_validate_repository_parts`
unfoldable pub repository_parts_valid : ProviderName → Text → Text → Bool
repository_parts_valid provider owner name =
    not (is_reserved_name name) && parts_match provider owner name

-- `_HOSTS`
unfoldable pub host_of : ProviderName → Text
host_of github = codes "github.com"
host_of gitcode = codes "gitcode.com"

unfoldable pub provider_of : Text → Option ProviderName
provider_of host =
    if text_eq host (codes "github.com")
    then some github
    else (if text_eq host (codes "gitcode.com") then some gitcode else none)

-- The characters that an address may not have.
unfoldable pub is_bad_char : ℕ → Bool
is_bad_char c = is_space c || ltb c 32 || c == 127 || c == b'%' || c == b'\\'

unfoldable pub is_bad_url : Text → Bool
is_bad_url url = is_empty url || not (text_eq url (strip url)) || any_char is_bad_char url

-- `raw_parts`: all but the first part, and without an empty last one.
abbrev tail : List Text → List Text
tail [] = []
tail (p ∷ ps) = ps

unfoldable pub without_last_empty : List Text → List Text
without_last_empty [] = []
without_last_empty (p ∷ []) = if is_empty p then [] else p ∷ []
without_last_empty (p ∷ q ∷ ps) = p ∷ without_last_empty (q ∷ ps)

unfoldable pub path_parts : Text → List Text
path_parts path = without_last_empty (tail (split b'/' path))

abbrev pub is_traversal : Text → Bool
is_traversal p = is_empty p || text_eq p (codes ".") || text_eq p (codes "..")

abbrev pub with_parts : ProviderName → Text → List Text → Result (ProviderName × Text × List Text)
with_parts provider host parts =
    if is_empty parts || any_text is_traversal parts
    then raise invalid_forge_input
    else return (provider, host, parts)

abbrev pub is_refused_split : SplitUrl → Bool
is_refused_split u =
    not (text_eq u.scheme (codes "https"))
    || is_some u.username
    || is_some u.password
    || is_some u.port
    || not (is_empty u.query)
    || not (is_empty u.fragment)

abbrev pub repository_path : Text → Text → Text
repository_path owner name = b'/' ∷ (owner ++ (b'/' ∷ name))

-- `https://{host}/{owner}/{name}`
unfoldable pub canonical : Text → Text → Text → Text
canonical host owner name = codes "https://" ++ (host ++ repository_path owner name)

abbrev pub address : ProviderName → Text → Text → Text → RepositoryAddress
address provider host owner name = record {
  provider = provider;
  owner = owner;
  name = name;
  canonical_url = canonical host owner name;
}

abbrev pub is_wanted : Option ProviderName → ProviderName → Bool
is_wanted none provider = true
is_wanted (some expected) provider = same_provider provider expected

-- The number of an issue or of a pull request.
abbrev with_number : RepositoryAddress → Option ℕ → Result (RepositoryAddress × ℕ)
with_number r none = raise value_error
with_number r (some n) = if ltb n 1 then raise invalid_forge_input else return (r, n)

abbrev pub is_issue_path : Text → Bool
is_issue_path p = text_eq p (codes "issues")

-- The words of a pull request's path.
unfoldable pub is_pull_path : ProviderName → Text → Bool
is_pull_path github p = text_eq p (codes "pull")
is_pull_path gitcode p =
    text_eq p (codes "pull") || text_eq p (codes "pulls") || text_eq p (codes "merge_requests")

module _ (lower : Text → Text) where
  unfoldable pub parts_at :
      Text → SplitUrl → Option ProviderName → Result (ProviderName × Text × List Text)
  parts_at host u none = raise invalid_forge_input
  parts_at host u (some provider) =
      if is_refused_split u || not (text_eq (lower u.netloc) host)
      then raise invalid_forge_input
      else with_parts provider host (path_parts u.path)

  abbrev pub parts_of_host : SplitUrl → Option Text → Result (ProviderName × Text × List Text)
  parts_of_host u none = raise invalid_forge_input
  parts_of_host u (some host) = parts_at host u (provider_of host)

  unfoldable pub parts_of : Option SplitUrl → Result (ProviderName × Text × List Text)
  parts_of none = raise invalid_forge_input
  parts_of (some u) = parts_of_host u u.hostname

  module _ (split_url : Text → Option SplitUrl) where
    -- `_parse_public_url`
    unfoldable pub parse_public_url : Text → Result (ProviderName × Text × List Text)
    parse_public_url url =
        if is_bad_url url then raise invalid_forge_input else parts_of (split_url url)

    unfoldable pub repository_at :
        Option ProviderName → Result (ProviderName × Text × List Text) → Result RepositoryAddress
    repository_at expected (return (provider, host, owner ∷ name ∷ [])) =
        if is_wanted expected provider && repository_parts_valid provider owner name
        then return (address provider host owner name)
        else raise invalid_forge_input
    repository_at expected (return _) = raise invalid_forge_input
    repository_at expected (raise e) = raise e

    -- `parse_repository_url`
    unfoldable pub parse_repository_url : Option ProviderName → Text → Result RepositoryAddress
    parse_repository_url expected url = repository_at expected (parse_public_url url)

    module _ (is_digits : Text → Bool) (int_of : Text → Option ℕ) where
      unfoldable pub numbered_at :
          (ProviderName → Text → Bool)
          → Option ProviderName
          → Result (ProviderName × Text × List Text)
          → Result (RepositoryAddress × ℕ)
      numbered_at is_path expected (return (provider, host, owner ∷ name ∷ word ∷ number ∷ [])) =
          if is_wanted expected provider
            && is_path provider word
            && is_digits number
            && repository_parts_valid provider owner name
          then with_number (address provider host owner name) (int_of number)
          else raise invalid_forge_input
      numbered_at is_path expected (return _) = raise invalid_forge_input
      numbered_at is_path expected (raise e) = raise e

      -- `parse_issue_url`
      unfoldable pub parse_issue_url : Option ProviderName → Text → Result (RepositoryAddress × ℕ)
      parse_issue_url expected url =
          numbered_at (λ provider p. is_issue_path p) expected (parse_public_url url)

      -- `parse_pull_request_url`
      unfoldable pub parse_pull_request_url : Text → Result (RepositoryAddress × ℕ)
      parse_pull_request_url url = numbered_at is_pull_path none (parse_public_url url)
