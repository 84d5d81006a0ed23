-- ===== src/Control/Grants.antt =====
-- core/control/grant.go: scoped, expiring, signed grants and the book that stores them.
pub mod Keys
pub mod Scopes
pub mod Signing
pub mod Refines
pub mod Confusion
use mazzy_vpn.Base.{
  ℕ, ◌+◌, Bool, true, false, not, ◌&&◌, ◌||◌, Option, none, some, List, [], ◌∷◌, ◌++◌, length,
  nat_beq, if◌then◌else◌, Text, codes, ◌==◌, ◌<=◌, has_suffix, sort, any, contains, keep, ℤ, pos,
  leb_ℤ, beq_ℤ, format_ℤ,
}
use mazzy_vpn.Base.Dict
use mazzy_vpn.Base.Dict.{Dict}
use mazzy_vpn.Control.Identity
use mazzy_vpn.Control.Identity.{Crypto, Identity, KeyError, no_issuer, no_private_key}
use mazzy_vpn.Control.Json.{json_string, json_strings, json_object}

abbrev pub Scope : Type 0
Scope = Text

abbrev pub scope_connect : Scope
scope_connect = codes "connect"

abbrev pub scope_control : Scope
scope_control = codes "control"

unfoldable pub route_scope : Text → Scope
route_scope provider = codes "route:" ++ provider

pub record Grant : Type 0 where
  pub from : Text
  pub to : Text
  pub scopes : List Scope
  pub expires_at : ℤ  -- unix seconds; 0 is never
  pub issued_by : Text
  pub issued_at : ℤ
  pub signature : Text

unfoldable pub sorted_scopes : List Scope → List Scope
sorted_scopes s = sort ◌<=◌ s

unfoldable pub signing_bytes : Grant → Text
unfolding sorted_scopes
signing_bytes g = json_object (
    (codes "from", json_string g.from)
    ∷ (codes "to", json_string g.to)
    ∷ (codes "scopes", json_strings (sorted_scopes g.scopes))
    ∷ (codes "expires_at", format_ℤ g.expires_at)
    ∷ (codes "issued_by", json_string g.issued_by)
    ∷ (codes "issued_at", format_ℤ g.issued_at)
    ∷ [])

-- `now` is now.Unix()
unfoldable pub expired : Grant → ℤ → Bool
expired g now = not (beq_ℤ g.expires_at (pos 0)) && leb_ℤ g.expires_at now

unfoldable pub has_scope : Grant → Scope → Bool
has_scope g s = contains s g.scopes

abbrev pub GrantBook : Type 0
GrantBook = Dict (List Grant)

abbrev pub new_grant_book : GrantBook
new_grant_book = []

unfoldable pub key : Text → Text → Text
key from to = from ++ (codes "->" ++ to)

-- b.grants[k], which is nil on a missing key
unfoldable pub grants_at : GrantBook → Text → List Grant
grants_at b k = elim (Dict.get b k) [ none ↦ [] | some list ↦ list ]

-- `b.grants[k] = append(b.grants[k], g)`
unfoldable pub store : GrantBook → Grant → GrantBook
unfolding grants_at
store b g = let k = key g.from g.to in Dict.put b k (grants_at b k ++ g ∷ [])

pub data Issued : Type 0 where
  issued : Grant → Issued
  refused : KeyError → Issued

-- IssuedBy, and IssuedAt where it is not set, are written before the grant is signed.
abbrev pub stamp : Identity → ℤ → Grant → Grant
stamp issuer now g = record g {
  issued_by = issuer.id;
  issued_at = if beq_ℤ g.issued_at (pos 0) then now else g.issued_at;
}

-- What Issue does with the outcome of signing.
unfoldable pub record_signed : GrantBook → Grant → Option Text → GrantBook × Issued
record_signed b g none = (b, refused no_private_key)
record_signed b g (some sig) =
    let signed = record g { signature = sig } in (store b signed, issued signed)

module _ (crypto : Crypto) where
  -- `now` is time.Now().Unix()
  unfoldable pub issue : GrantBook → Option Identity → Grant → ℤ → GrantBook × Issued
  issue b none g now = (b, refused no_issuer)
  issue b (some issuer) g now =
      let g' = stamp issuer now g in
      record_signed b g' (Identity.sign crypto issuer (signing_bytes g'))

  -- The verifier is an identity.
  unfoldable pub verify : Grant → Identity → Bool
  verify g issuer = Identity.verify crypto issuer (signing_bytes g) g.signature

abbrev pub conveys : Grant → Scope → ℤ → Bool
conveys g scope now = not (expired g now) && has_scope g scope

unfoldable pub allows : GrantBook → Text → Text → Scope → ℤ → Bool
unfolding grants_at
allows b from to scope now = any (λ g. conveys g scope now) (grants_at b (key from to))

-- The inner loop of scopesOn; the list so far is also the set `seen`.
unfoldable pub add_scopes : List Scope → List Scope → List Scope
add_scopes out [] = out
add_scopes out (s ∷ ss) = add_scopes (if contains s out then out else out ++ s ∷ []) ss

unfoldable pub scopes_loop : List Scope → ℤ → List Grant → List Scope
scopes_loop out now [] = out
scopes_loop out now (g ∷ gs) =
    scopes_loop (if expired g now then out else add_scopes out g.scopes) now gs

unfoldable pub scopes_on : GrantBook → Text → Text → ℤ → List Scope
unfolding scopes_loop grants_at
scopes_on b from to now = scopes_loop [] now (grants_at b (key from to))

unfoldable pub revoke : GrantBook → Text → Text → GrantBook
revoke b from to = Dict.remove b (key from to)

-- strings.HasSuffix(k, "->"+to)
unfoldable pub targets : Text → Text → Bool
targets to k = has_suffix k (codes "->" ++ to)

unfoldable pub count_keys : (Text → Bool) → GrantBook → ℕ
count_keys p [] = 0
count_keys p ((k, _) ∷ b) = (if p k then 1 else 0) + count_keys p b

unfoldable pub revoke_all_to : GrantBook → Text → GrantBook × ℕ
unfolding targets
revoke_all_to b to = (Dict.remove_if (targets to) b, count_keys (targets to) b)

-- A key whose grants have all expired is deleted.
unfoldable pub prune_list : ℤ → List Grant → Option (List Grant)
prune_list now list = elim (keep (λ g. not (expired g now)) list) [
  | [] ↦ none
  | g ∷ gs ↦ some (g ∷ gs)
]

unfoldable pub count_expired : ℤ → List Grant → ℕ
count_expired now [] = 0
count_expired now (g ∷ gs) = (if expired g now then 1 else 0) + count_expired now gs

unfoldable pub dropped : ℤ → GrantBook → ℕ
dropped now [] = 0
dropped now ((_, list) ∷ b) = count_expired now list + dropped now b

unfoldable pub prune : GrantBook → ℤ → GrantBook × ℕ
unfolding prune_list
prune b now = (Dict.update_all (prune_list now) b, dropped now b)
