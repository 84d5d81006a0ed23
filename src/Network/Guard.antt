-- ===== src/Network/Guard.antt =====
-- core/guard/guard.go: the nft tables.
use mazzy_vpn.Base.{
  ℕ, Bool, false, not, ◌&&◌, ◌||◌, ◌++◌, any, length, if◌then◌else◌, Text, codes, nat_beq, leb,
  format_ℕ,
}
use mazzy_vpn.Network.{
  Table, ipv6_guard, transition_guard, connmark, Log, Host, exec, write_temp, nft_file, remove_temp,
  delete_table,
}

abbrev pub is_iface_byte : ℕ → Bool
is_iface_byte c =
    (leb b'A' c && leb c b'Z')
    || (leb b'a' c && leb c b'z')
    || (leb b'0' c && leb c b'9')
    || nat_beq c b'_'
    || nat_beq c b'.'
    || nat_beq c b':'
    || nat_beq c b'-'

-- ifaceRe
unfoldable pub is_iface : Text → Bool
unfolding any
is_iface t = leb 1 (length t) && leb (length t) 64 && not (any (λ c. not (is_iface_byte c)) t)

-- applyRuleset, with the temporary file of tempfile.go.
unfoldable pub apply_ruleset : Host → Table → Text → Log → Bool × Log
apply_ruleset h t rules l =
    let w = exec h (write_temp rules) l in
    if not w.0
    then (false, w.1)
    else let r = exec h (nft_file t rules) w.1 in (r.0, (exec h remove_temp r.1).1)

abbrev pub ipv6_ruleset : Text → Text
ipv6_ruleset iface =
    codes
      "table inet mazzy_vpn_ipv6_guard {\n    chain output {\n        type filter hook output priority -140; policy drop;\n        meta nfproto ipv4 accept\n        oifname \"lo\" accept\n        oifname \""
    ++ iface
    ++ codes
        "\" accept\n    }\n    chain forward {\n        type filter hook forward priority -140; policy drop;\n        meta nfproto ipv4 accept\n        oifname \""
    ++ iface
    ++ codes "\" accept\n    }\n}\n"

abbrev pub transition_ruleset : Text
transition_ruleset =
    codes
      "table inet mazzy_vpn_transition_guard {\n    chain output {\n        type filter hook output priority -150; policy accept;\n        oifname \"lo\" accept\n        reject with icmpx type admin-prohibited\n    }\n    chain forward {\n        type filter hook forward priority -150; policy accept;\n        reject with icmpx type admin-prohibited\n    }\n}\n"

abbrev pub connmark_ruleset : ℕ → Text
connmark_ruleset mark =
    codes
      "table inet mazzy_vpn_connmark {\n    chain premangle {\n        type filter hook prerouting priority -150; policy accept;\n        meta l4proto udp meta mark set ct mark\n    }\n    chain postmangle {\n        type filter hook postrouting priority -150; policy accept;\n        meta l4proto udp mark "
    ++ format_ℕ mark
    ++ codes " ct mark set mark\n    }\n}\n"

-- The deletion before a table is installed anew; its error is ignored.
abbrev pub drop_table : Host → Table → Log → Log
drop_table h t l = (exec h (delete_table t) l).1

unfoldable pub install_ipv6_guard : Host → Text → Log → Bool × Log
unfolding is_iface apply_ruleset
install_ipv6_guard h iface l =
    if not (is_iface iface)
    then (false, l)
    else apply_ruleset h ipv6_guard (ipv6_ruleset iface) (drop_table h ipv6_guard l)

unfoldable pub install_fail_closed : Host → Log → Bool × Log
unfolding apply_ruleset
install_fail_closed h l =
    apply_ruleset h transition_guard transition_ruleset (drop_table h transition_guard l)

unfoldable pub install_connmark : Host → ℕ → Log → Bool × Log
unfolding apply_ruleset
install_connmark h mark l =
    apply_ruleset h connmark (connmark_ruleset mark) (drop_table h connmark l)

-- RemoveConnmark, RemoveIPv6Guard and RemoveFailClosed.
unfoldable pub remove_table : Host → Table → Log → Bool × Log
remove_table h t l = exec h (delete_table t) l
