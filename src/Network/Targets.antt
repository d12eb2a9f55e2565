-- ===== src/Network/Targets.antt =====
-- What an approved target guarantees.
use ai_test.Base.{
  String, ◌<>◌, ◌≡◌, ◌≢◌, refl, ap, sym, subst, ◌∙◌, ◌↔◌, Bool, true, false, not, Option, none,
  some, List, [], ◌∷◌, all, All, ◌⊎◌, inl, inr, arith, str_eq, eq_iff, Bool-cases, Option-cases,
}
use ai_test.Base.Text
use ai_test.Base.Text.{ends_with-append}
use ai_test.Base.Dict.{mem}
use ai_test.Base.Outcome.{done, failed, >>=-eq-done, fail_if-eq-done, done-injective}
use ai_test.Runtime.{Runtime, ParsedUrl}
use ai_test.Network.{
  ApprovedHttpTarget, Net, same_set, normalize_host, normalize_item, item_allows, is_host_allowed,
  Lookup, any_not_global, public_only, resolve_public_addresses, validate_stable_dns, is_target,
  approve_host, approve_http_target,
}

-- A normalised item covers a normalised host: it is the host, or it is `*.` before a domain and the
-- host ends with a dot and that domain.
pub data Covers (host candidate : String) : Type 0 where
  exact : host ≡ candidate → Covers host candidate
  below :
      (front : String)
      → Text.starts_with candidate "*." ≡ true
      → host ≡ front <> Text.drop 1 candidate
      → host ≢ Text.drop 2 candidate
      → Covers host candidate

item_allows-Covers :
    (host candidate : String) → item_allows host candidate ≡ true → Covers host candidate
unfolding item_allows
item_allows-Covers host candidate h = elim (Bool-cases (str_eq host candidate)) [
  | inl e ↦ exact ((eq_iff host candidate).0 e)
  | inr d ↦
      let (front, e) = ends_with-append host (Text.drop 1 candidate) (ground arith) in
      below front (ground arith) e (ground (arith, eq_iff host (Text.drop 2 candidate)))
]

module _ (lower : String → String) where
  -- A host is allowed only by an item of the list that covers it, both normalised.
  pub is_host_allowed-Covers :
      (hostname : String) (allowlist : List String)
      → is_host_allowed lower hostname allowlist ≡ true
      → (item : String) × (mem item allowlist ≡ true)
        × Covers (normalize_host lower hostname) (normalize_item lower item)
  unfolding is_host_allowed
  is_host_allowed-Covers hostname [] h = cc
  is_host_allowed-Covers hostname (item ∷ rest) h =
      elim (Bool-cases (item_allows (normalize_host lower hostname) (normalize_item lower item))) [
        | inl e ↦ (item, ground (arith, eq_iff item item), item_allows-Covers _ _ e)
        | inr d ↦
            let (other, m, c) = is_host_allowed-Covers hostname rest (ground arith) in
            (other, ground arith, c)
      ]

module _ (is_global : String → Option Bool) where
  any_not_global-All :
      (addresses : List String)
      → any_not_global is_global addresses ≡ some false
      → All (λ a. is_global a ≡ some true) addresses
  unfolding any_not_global
  any_not_global-All [] h = tt
  any_not_global-All (a ∷ rest) h = ground (arith, any_not_global-All rest)

  abbrev pub AllGlobal : List String → Type 0
  AllGlobal addresses = All (λ a. is_global a ≡ some true) addresses

  public_only-AllGlobal :
      (l addresses : List String)
      → public_only is_global l ≡ done addresses
      → (l ≡ addresses) × (l ≢ []) × AllGlobal l
  public_only-AllGlobal [] addresses h = cc
  public_only-AllGlobal (a ∷ rest) addresses h =
      elim (Option-cases (any_not_global is_global (a ∷ rest))) [
        | inl e ↦ ground arith
        | inr (true, e) ↦ ground arith
        | inr (false, e) ↦ (ground arith, (λ z. cc), any_not_global-All (a ∷ rest) e)
      ]

  -- Addresses are accepted only if there are some, and each is a global address.
  pub resolve-AllGlobal :
      (lookup : Lookup) (hostname : String) (addresses : List String)
      → resolve_public_addresses is_global lookup hostname ≡ done addresses
      → (lookup hostname ≡ some addresses) × (addresses ≢ []) × AllGlobal addresses
  unfolding resolve_public_addresses
  resolve-AllGlobal lookup hostname addresses h = go (lookup hostname) refl h
    where
      go :
          (o : Option (List String))
          → lookup hostname ≡ o
          → (elim o as (λ _. Net (List String)) [
            | none ↦ failed "dns_failed"
            | some l ↦ public_only is_global l
          ])
            ≡ done addresses
          → (lookup hostname ≡ some addresses) × (addresses ≢ []) × AllGlobal addresses
      go none e k = cc
      go (some l) e k =
          let (q, n, g) = public_only-AllGlobal l addresses k in
          (e ∙ ap some q, (λ z. n (q ∙ z)), subst AllGlobal q g)

  mem-All : (P : String → Type 0) (x : String) (ys : List String) → mem x ys ≡ true → All P ys → P x
  mem-All P x [] m h = cc
  mem-All P x (y ∷ ys) m h = elim (Bool-cases (str_eq x y)) [
    | inl e ↦ subst P (sym ((eq_iff x y).0 e)) h.0
    | inr d ↦ mem-All P x ys (ground arith) h.1
  ]

  all-mem :
      (xs ys : List String) (x : String)
      → all (λ z. mem z ys) xs ≡ true
      → mem x xs ≡ true
      → mem x ys ≡ true
  all-mem [] ys x h m = cc
  all-mem (z ∷ xs) ys x h m = ground (arith, eq_iff x z, all-mem xs ys x)

  -- Just before a request is sent its host resolves to the very addresses that were approved, and
  -- each address of either lookup is global; a lookup with any other address is refused.
  pub validate_stable_dns-addresses :
      (lookup : Lookup) (target : ApprovedHttpTarget)
      → validate_stable_dns is_global lookup target ≡ done tt
      → (addresses : List String) × (lookup target.hostname ≡ some addresses)
        × AllGlobal addresses
        × ((a : String) → (mem a addresses ≡ true) ↔ (mem a target.resolved_addresses ≡ true))
  unfolding validate_stable_dns
  validate_stable_dns-addresses lookup target h =
      let (addresses, r, k) =
        >>=-eq-done (resolve_public_addresses is_global lookup target.hostname) _ h in
      let (same, _) = fail_if-eq-done (not (same_set addresses target.resolved_addresses)) _ _ k in
      let (l, _, g) = resolve-AllGlobal lookup target.hostname addresses r in
      let approved = target.resolved_addresses in
      (
        addresses,
        l,
        g,
        (λ a. (
          (λ m. all-mem addresses approved a (ground arith) m),
          (λ m. all-mem approved addresses a (ground arith) m),
        )),
      )

module _ {F : Type 0} (py : Runtime F) where
  -- What `approve_http_target` promises of the target of a URL.
  pub record IsApproved (lookup : Lookup) (url : String) (allowlist : List String)
      (target : ApprovedHttpTarget) : Type 0 where
    pub parsed : py.urlparse url ≡ some target.parsed
    pub host : target.parsed.hostname ≡ some target.hostname
    pub http : (target.parsed.scheme ≡ "http") ⊎ (target.parsed.scheme ≡ "https")
    pub no_username : target.parsed.username ≡ none
    pub no_password : target.parsed.password ≡ none
    pub allowed : is_host_allowed py.lower target.hostname allowlist ≡ true
    pub looked_up : lookup target.hostname ≡ some target.resolved_addresses
    pub some_address : target.resolved_addresses ≢ []
    pub global : AllGlobal py.is_global target.resolved_addresses

  approve_host-IsApproved :
      (lookup : Lookup) (url : String) (allowlist : List String) (u : ParsedUrl)
      (name : Option String) (target : ApprovedHttpTarget)
      → py.urlparse url ≡ some u
      → u.hostname ≡ name
      → approve_host py lookup allowlist u name ≡ done target
      → IsApproved lookup url allowlist target
  approve_host-IsApproved lookup url allowlist u none target p e h = cc
  approve_host-IsApproved lookup url allowlist u (some hostname) target p e h =
      let (g, h1) = fail_if-eq-done (not (is_target py u)) _ _ h in
      let (a, h2) = fail_if-eq-done (not (is_host_allowed py.lower hostname allowlist)) _ _ h1 in
      let (addresses, r, h3) =
        >>=-eq-done (resolve_public_addresses py.is_global lookup hostname) _ h2 in
      let q = done-injective h3 in
      let (l, n, all_global) = resolve-AllGlobal py.is_global lookup hostname addresses r in
      subst (IsApproved lookup url allowlist) q (record {
        parsed = p;
        host = e;
        http = ground (arith, eq_iff u.scheme "http", eq_iff u.scheme "https");
        no_username = ground arith;
        no_password = ground arith;
        allowed = ground arith;
        looked_up = l;
        some_address = n;
        global = all_global;
      })

  -- A URL is approved only if it parses as an HTTP URL with no user name and no password, its host is
  -- on the allow list, and the host resolves to some addresses, each of them global; the target holds
  -- this parsed URL, this host and these addresses.
  pub approve_http_target-IsApproved :
      (lookup : Lookup) (url : String) (allowlist : List String) (target : ApprovedHttpTarget)
      → approve_http_target py lookup url allowlist ≡ done target
      → IsApproved lookup url allowlist target
  unfolding approve_http_target
  approve_http_target-IsApproved lookup url allowlist target h =
      elim (Option-cases (py.urlparse url)) [
        | inl e ↦ ground arith
        | inr (u, e) ↦ elim (Option-cases u.port) [
          | inl d ↦ ground arith
          | inr (p, d) ↦
              approve_host-IsApproved lookup url allowlist u u.hostname target e refl (ground arith)
        ]
      ]
