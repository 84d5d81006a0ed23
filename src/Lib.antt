-- ===== src/Lib.antt =====
-- Mazzy VPN: a model of the Go core (core/) and of parts of its command line
-- (mazzy-vpn-cli/), and what is proved of them.
--
-- The program. `core` is the engine of a VPN client, mazzy-vpn-cli its command line. They fall into five
-- groups.
--   * The control plane (core/control) decides which participant may open a channel to which: an
--     identity is derived from a key, a trust store holds paired keys, a grant book holds signed,
--     scoped and expiring grants, a plane holds the registered participants and the routes between
--     them, and a broker opens a channel if plane, trust and grants all admit it.
--   * The tunnel. core/profile parses a configuration; core/connect arms the IPv6 guard (core/guard),
--     starts the engine, applies addresses and policy routes (core/routes), marks and DNS (core/dns),
--     and reverts all that in reverse. core/bootrecovery keeps a state file whose gate blocks network
--     changes until a safe state is confirmed; core/state keeps the intent (what should be connected);
--     core/livetest tries a candidate connection and commits or rolls back; core/health counts failed
--     ticks and fires a recovery.
--   * Advice. core/verify, core/doctor, core/diagnose, core/provider, core/stealth, core/measure,
--     core/zonescore and core/netadapter turn observations into a verdict, a report or a choice.
--   * The way in. core/api checks the body of a request and dispatches it; core/lock lets one process
--     change the network at a time; core/catalog keeps the profiles, core/settings what the user has set.
--     The service (mazzy-vpn-cli/cmd/mazzy-vpn/daemon.go) holds one connection, checks it every tick
--     with core/livecheck and moves to another zone; recover.go clears what is left on the host, and
--     update.go swaps the binary.
--   * Probes and texts. core/pathtrace, core/netdiag and core/dnscheck judge a connection,
--     core/mimicry gives a country its time zone, core/i18n chooses a language.
--
-- Which file models which part.
--   * Base: what the others share. Go strings as lists of code points (`Text`), maps as association
--     lists (Base/Dict), the functions of `strings`, `strconv` (Base/Decimal) and `sort`
--     (Base/Sort, Base/StableSort) that the code calls, a clock read at each turn (Base/Clocks), int and
--     int64 as ℤ over the native numbers.
--   * Protocols: core/types.go.
--   * Control/Identity, Trust, Grants, Plane, Channel: the file of that subject under core/control
--     (identity.go, trust.go, grant.go, control.go, channel.go); Control/Json is the canonical JSON
--     of a grant's signing bytes. The modules under each prove what it keeps.
--   * Health: core/health/health.go. Boot: core/bootrecovery/bootrecovery.go; Boot/File is the atomic
--     write that it shares with core/state. Intent: core/state/state.go. LiveTest:
--     core/livetest/livetest.go.
--   * Profile: the types of core/profile/config.go, endpoint.go and validate.go; Profile/Parse is the
--     parser of config.go, Profile/Uapi the text for the engine of
--     uapi.go.
--   * Network: the commands that the network packages run, one constructor for each, with their
--     words (`argv`), and the kernel that a log of them leaves. Network/Guard, Network/Dns and
--     Network/Routes are core/guard, core/dns and core/routes; Connect is core/connect/connect.go.
--   * Verify, Doctor, Diagnose, Provider, Stealth, Measure, ZoneScore, NetAdapter: the package of that
--     name.
--   * Api: core/api/router.go and envelope.go; Api/Tokens is the check for duplicate keys on the tokens
--     of encoding/json, Api/Value the values, their tokens and the decoding of a request. Lock:
--     core/lock/lock.go. Catalog: core/catalog/catalog.go, Catalog/FileName the
--     names in it, Catalog/Country country.go beside it.
--   * Daemon, Recover, Update: daemon.go, recover.go and update.go of mazzy-vpn-cli/cmd/mazzy-vpn.
--   * JsonFile: the JSON files written by rename: core/settings/settings.go, the file of
--     core/zonescore/zonescore.go, desired.go and control_cmd.go of the command line.
--   * LiveCheck, PathTrace, NetDiag, DnsCheck, Mimicry, I18n: the package of that name; Mimicry/Tables
--     holds the tables of its countries.
--   * Examples: tests of the models.
--
-- How state and effects are modelled. A Go object is a record, a method a function from it to it, an
-- error an Option or a data type. A map is an association list with one binding for each key; where Go
-- visits a map in an unknown order, the order is a parameter (`v6_first`) or the result is sorted.
-- Mutexes are not modelled: each locked method is one step. Time is an argument (`now`). The host is
-- a parameter: `Host` answers each command with success or failure as a function of the whole log so
-- far, `Faults` each system call of an atomic write, `Answers` and `Observation` the injected
-- interfaces of core/livetest (whether Up and Down of the connector work, too) and core/health. `Env`
-- of Lock and LiveCheck gives the clock and what others do at each turn of a wait; the daemon's
-- `Event` brings the answers of the world with it, and its
-- actions are a list; each `Calls` says which system calls of an operation succeed. A kernel command
-- that fails changes nothing, and one that removes a rule, a route or the nameservers of an interface takes
-- away only what it names; the engine counts as closed after its Down in any case. A temporary file has a
-- content, which a write, sync or close that fails leaves torn (`torn`); a rename puts that content in place.
--
-- What is a parameter. Ed25519 and SHA-256 (`Crypto`, with the lengths that they document and the law
-- that a signature verifies); package net/netip (`parse_addr`, `parse_prefix`); strings.ToLower,
-- strings.ToUpper and strings.EqualFold; net.ParseCIDR; the decoding of base64; the amneziawg-go engine,
-- one step that can fail.
-- encoding/json is `Codec` where a file is only read back, and modelled token by token where the router
-- looks at tokens; crypto/sha256 of the catalog is `fingerprint`, the order of a map the list of its pairs.
--
-- Bounds. Most loops are structural recursion, decimal notation is recursion on `Acc`. Three loops run on
-- fuel: the check of the keys (one round more than there are tokens), the wait for the lock (the sleeps
-- of 100 ms that fit into it and three attempts) and the wait for traffic (the pauses of a second and
-- three checks). That is enough since a round takes a token and a pause its time by the clock. The failure
-- counter of core/health is compared as Go compares it, where the limit plus one wraps at the largest
-- int; deadlines are read as int64, marks as uint32; the counter of the daemon is a number without bound.
--
-- Not modelled: HTTP, ICMP and os/exec (core/probe, core/netexec, the requests of core/livecheck and
-- update.go), the catalogs of translated texts, logs, notifications, the terminal interface and the
-- printing of the commands, the dashboard of mazzy-vpn-cli/cmd/mazzy-vpn/connect.go and up_cmd.go, the
-- desktop and Android front ends, the shell scripts, and vendored code.
pub mod Base
pub mod Protocols
pub mod Control
pub mod Health
pub mod Boot
pub mod Intent
pub mod LiveTest
pub mod Profile
pub mod Network
pub mod Connect
pub mod Verify
pub mod Doctor
pub mod Diagnose
pub mod Provider
pub mod Stealth
pub mod Measure
pub mod ZoneScore
pub mod NetAdapter
pub mod Api
pub mod Daemon
pub mod Lock
pub mod Catalog
pub mod JsonFile
pub mod Recover
pub mod Update
pub mod LiveCheck
pub mod PathTrace
pub mod NetDiag
pub mod DnsCheck
pub mod Mimicry
pub mod I18n
pub mod Examples
