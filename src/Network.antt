-- ===== src/Network.antt =====
-- backend/app/common/network.py: host allow lists, and the check of the addresses of a target. The
-- answers of the name resolution are arguments, since two lookups of a host may differ.
pub mod Targets
use ai_test.Base.{
  ℕ, String, Char, Bool, true, false, not, ◌&&◌, ◌||◌, Option, none, some, List, [], ◌∷◌, any, all,
  ◌==◌, str_eq, if◌then◌else◌, is_some, code, map,
}
use ai_test.Base.Text
use ai_test.Base.Text.{is_empty}
use ai_test.Base.Dict.{mem}
use ai_test.Base.Outcome.{Outcome, done, failed, ◌>>=◌, ◌>>◌, fail_if}
use ai_test.Runtime.{Runtime, ParsedUrl}

pub record ApprovedHttpTarget : Type 0 where
  pub parsed : ParsedUrl
  pub hostname : String
  pub resolved_addresses : List String

-- The `reason` of a `NetworkTargetError`.
abbrev pub Net : Type 0 → Type 0
Net A = Outcome String A

abbrev is_dot : Char → Bool
is_dot c = code c == b'.'

-- The equality of two `frozenset`s, as lists of their members.
abbrev pub same_set : List String → List String → Bool
same_set xs ys = all (λ x. mem x ys) xs && all (λ y. mem y xs) ys

-- The two tests of one item.
unfoldable pub item_allows : String → String → Bool
unfolding Text.starts_with Text.ends_with Text.drop
item_allows host candidate =
    (Text.starts_with candidate "*."
      && Text.ends_with host (Text.drop 1 candidate)
      && not (str_eq host (Text.drop 2 candidate)))
    || str_eq host candidate

abbrev malformed : String → Bool
malformed candidate =
    is_empty candidate
    || Text.contains "://" candidate
    || Text.contains "/" candidate
    || Text.contains "@" candidate

abbrev host_part : String → String
host_part candidate = if Text.starts_with candidate "*." then Text.drop 2 candidate else candidate

unfoldable pub validate_item : String → Net String
unfolding Text.contains Text.starts_with Text.drop
validate_item candidate = do
  fail_if (malformed candidate) "invalid_allowlist"
  fail_if (is_empty (host_part candidate) || Text.contains "*" (host_part candidate))
      "invalid_allowlist"
  done candidate

module _ (lower : String → String) where
  -- `hostname.rstrip(".").lower()`
  unfoldable pub normalize_host : String → String
  unfolding Text.strip_right
  normalize_host hostname = lower (Text.strip_right is_dot hostname)

  -- `item.strip().rstrip(".").lower()`
  unfoldable pub normalize_item : String → String
  unfolding Text.strip Text.strip_right
  normalize_item item = lower (Text.strip_right is_dot (Text.strip item))

  unfoldable pub is_host_allowed : String → List String → Bool
  unfolding normalize_host normalize_item item_allows
  is_host_allowed hostname allowlist =
      any (λ item. item_allows (normalize_host hostname) (normalize_item item)) allowlist

  unfoldable pub validate_host_allowlist : List String → Net (List String)
  unfolding normalize_item validate_item
  validate_host_allowlist [] = done []
  validate_host_allowlist (item ∷ rest) = do
    candidate ← validate_item (normalize_item item)
    values ← validate_host_allowlist rest
    done (candidate ∷ values)

-- `getaddrinfo` of one moment: the addresses of a host, or `none` for an `OSError`.
abbrev pub Lookup : Type 0
Lookup = String → Option (List String)

module _ (is_global : String → Option Bool) where
  -- The `any` over the addresses; `none` for a `ValueError`.
  unfoldable pub any_not_global : List String → Option Bool
  any_not_global [] = some false
  any_not_global (a ∷ rest) = elim (is_global a) [
    | none ↦ none
    | some global ↦ if global then any_not_global rest else some true
  ]

  abbrev pub public_only : List String → Net (List String)
  public_only [] = failed "dns_empty"
  public_only (a ∷ rest) = elim (any_not_global (a ∷ rest)) [
    | none ↦ failed "dns_invalid"
    | some private ↦ if private then failed "private_address" else done (a ∷ rest)
  ]

  unfoldable pub resolve_public_addresses : Lookup → String → Net (List String)
  resolve_public_addresses lookup hostname = elim (lookup hostname) [
    | none ↦ failed "dns_failed"
    | some addresses ↦ public_only addresses
  ]

  unfoldable pub validate_stable_dns : Lookup → ApprovedHttpTarget → Net (Unit {0})
  validate_stable_dns lookup target = do
    addresses ← resolve_public_addresses lookup target.hostname
    fail_if (not (same_set addresses target.resolved_addresses)) "dns_rebinding"
    done tt

module _ {F : Type 0} (py : Runtime F) where
  abbrev pub is_target : ParsedUrl → Bool
  is_target u =
      (str_eq u.scheme "http" || str_eq u.scheme "https")
      && not (is_some u.username)
      && not (is_some u.password)

  -- The tests behind `urlparse` and the read of `port`.
  abbrev pub approve_host :
      Lookup → List String → ParsedUrl → Option String → Net ApprovedHttpTarget
  approve_host lookup allowlist u none = failed "invalid"
  approve_host lookup allowlist u (some hostname) = do
    fail_if (not (is_target u)) "invalid"
    fail_if (not (is_host_allowed py.lower hostname allowlist)) "host_not_allowed"
    addresses ← resolve_public_addresses py.is_global lookup hostname
    done (record { parsed = u; hostname = hostname; resolved_addresses = addresses })

  unfoldable pub approve_http_target : Lookup → String → List String → Net ApprovedHttpTarget
  approve_http_target lookup url allowlist = elim (py.urlparse url) [
    | none ↦ failed "invalid"
    | some u ↦ elim u.port [
      | none ↦ failed "invalid"
      | some port ↦ approve_host lookup allowlist u u.hostname
    ]
  ]
