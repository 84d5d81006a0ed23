-- ===== src/NetAdapter/Choice.antt =====
-- The loop of Recommend in core/netadapter/netadapter.go against four plain searches.
use mazzy_vpn.Base.{
  ◌≡◌, Bool, not, ◌&&◌, Option, none, some, List, [], ◌∷◌, if◌then◌else◌, Text, arith, ap, ◌∙◌,
  Option-cases,
}
use mazzy_vpn.NetAdapter.{
  Adapter, Ip, is_physical, has_routable_ipv4, has_none, Candidates, consider, consider_all, pick,
  no_candidates, recommend,
}

abbrev pub find : (Adapter → Bool) → List Adapter → Option Adapter
find p [] = none
find p (a ∷ rest) = if p a then some a else find p rest

-- A usable uplink: physical, up and with an IPv4 address.
abbrev pub is_usable : Adapter → Bool
is_usable a = is_physical a && a.up && not (has_none a.ipv4)

abbrev pub is_wired : Adapter → Bool
is_wired a = is_usable a && not a.wireless

abbrev pub is_wifi : Adapter → Bool
is_wifi a = is_usable a && a.wireless

abbrev or_find : Option Adapter → Option Adapter → Option Adapter
or_find none o = o
or_find (some a) o = some a

module _ (parse_cidr : Text → Option Ip) where
  abbrev found : List Adapter → Candidates → Candidates
  found l c = record {
    wired_routable =
        or_find c.wired_routable (find (λ a. is_wired a && has_routable_ipv4 parse_cidr a) l);
    wifi_routable =
        or_find c.wifi_routable (find (λ a. is_wifi a && has_routable_ipv4 parse_cidr a) l);
    wired_any = or_find c.wired_any (find is_wired l);
    wifi_any = or_find c.wifi_any (find is_wifi l);
  }

  found_nil : (c : Candidates) → c ≡ found [] c
  found_nil c = ground (
    arith,
    Option-cases c.wired_routable,
    Option-cases c.wifi_routable,
    Option-cases c.wired_any,
    Option-cases c.wifi_any,
  )

  found_cons :
      (a : Adapter) (l : List Adapter) (c : Candidates)
      → found l (consider parse_cidr a c) ≡ found (a ∷ l) c
  unfolding consider
  found_cons a l c = ground (
    arith,
    Option-cases c.wired_routable,
    Option-cases c.wifi_routable,
    Option-cases c.wired_any,
    Option-cases c.wifi_any,
  )

  consider_all-found : (l : List Adapter) (c : Candidates) → consider_all parse_cidr l c ≡ found l c
  unfolding consider_all
  consider_all-found [] c = found_nil c
  consider_all-found (a ∷ l) c = consider_all-found l (consider parse_cidr a c) ∙ found_cons a l c

  -- The recommended uplink is the first usable wired one with a routable address, else the first such
  -- wireless one, else the first usable wired one, else the first usable wireless one, each
  -- with its reason.
  pub recommend-find :
      (l : List Adapter)
      → recommend parse_cidr l
        ≡ pick
            (find (λ a. is_wired a && has_routable_ipv4 parse_cidr a) l)
            (find (λ a. is_wifi a && has_routable_ipv4 parse_cidr a) l)
            (find is_wired l)
            (find is_wifi l)
  unfolding recommend
  recommend-find l =
      ap (λ (c : Candidates). pick c.wired_routable c.wifi_routable c.wired_any c.wifi_any)
        (consider_all-found l no_candidates)
