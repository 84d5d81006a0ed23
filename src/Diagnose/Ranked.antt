-- ===== src/Diagnose/Ranked.antt =====
-- The order of the problems that core/diagnose/diagnose.go reports, and when it calls the host healthy.
use mazzy_vpn.Base.{
  ◌≡◌, Bool, true, not, ◌&&◌, ◌||◌, List, [], ◌∷◌, if◌then◌else◌, ◌==◌, pos, beq_ℤ, arith, leb, ℕ,
  ◌+◌,
}
use mazzy_vpn.Diagnose.{
  Signal, Severity, info, warn, critical, Problem, is_critical, is_healthy, analyze,
}

abbrev pub weight : Severity → ℕ
weight info = 0
weight warn = 1
weight critical = 2

-- Each problem is at least as severe as the one after it, and below the given weight.
abbrev pub is_ranked : ℕ → List Problem → Bool
is_ranked n [] = true
is_ranked n (p ∷ ps) = leb (weight p.severity) n && is_ranked (weight p.severity) ps

abbrev pub count_critical : List Problem → ℕ
count_critical [] = 0
count_critical (p ∷ ps) = (if is_critical p.severity then 1 else 0) + count_critical ps

-- Nothing stands in the way of a connection, and a tunnel that is up carries traffic.
abbrev pub is_sound : Signal → Bool
is_sound s =
    s.has_uplink
    && (s.internet_ok || not (s.tunnel_iface == []))
    && not (beq_ℤ s.profiles_imported (pos 0))
    && s.any_server_alive
    && (s.tunnel_iface == [] || (s.tunnel_link_up && s.egress_ok))

-- The problems come in order of severity, at most one of them is critical (the root cause), and the
-- report is healthy exactly if every cause of a failed connection is excluded.
pub analyze_exact :
    (s : Signal)
    → (is_ranked 2 (analyze s).problems ≡ true)
      × (is_healthy (analyze s).problems ≡ is_sound s)
      × (count_critical (analyze s).problems ≡ (if is_sound s then 0 else 1))
unfolding analyze is_healthy
analyze_exact s = ground arith
