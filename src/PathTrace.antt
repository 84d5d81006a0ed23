-- ===== src/PathTrace.antt =====
-- core/pathtrace/pathtrace.go: the steps of a connection's path. net.SplitHostPort and net.ParseIP are
-- parameters; durations are left out.
use mazzy_vpn.Base.{
  ℕ, ◌≡◌, Bool, true, false, not, ◌&&◌, ◌||◌, Option, none, some, List, [], ◌∷◌, ◌++◌,
  if◌then◌else◌, Text, codes, ◌==◌, format_ℕ, any, nat_beq, arith,
}

pub data StepStatus : Type 0 where
  ok warn fail : StepStatus

pub record Step : Type 0 where
  pub name : Text
  pub status : StepStatus
  pub detail : Text

pub record Trace : Type 0 where
  pub endpoint : Text
  pub steps : List Step

-- An answer with an error, as Go pairs them: the value, and the error's text if there is one.
pub record Answered (A : Type 0) : Type 0 where
  pub value : A
  pub error : Option Text

-- The parts of a Tracer; each is none where the source has nil. A ping answers its time as text.
pub record Tracer : Type 0 where
  pub resolver : Option (Text → Answered ℕ)
  pub pinger : Option (Text → Option Text)
  pub egress : Option (Text → Answered Text)
  pub link : Option (Text → Bool)
  pub split_host_port : Text → Answered Text
  pub is_ip : Text → Bool

-- errStr
abbrev pub err_str : Option Text → Text
err_str none = codes "unknown"
err_str (some e) = e

abbrev pub has_error : Option Text → Bool
has_error none = false
has_error (some e) = true

abbrev pub is_zero : ℕ → Bool
is_zero n = nat_beq n 0

abbrev pub resolved : Text → Option (Text → Answered ℕ) → Step
resolved host none = record {
  name = codes "1. resolve endpoint";
  status = warn;
  detail = codes "no resolver";
}
resolved host (some lookup) =
    let r = lookup host in
    if has_error r.error || is_zero r.value
    then record {
      name = codes "1. resolve endpoint";
      status = fail;
      detail = codes "DNS failed: " ++ err_str r.error;
    }
    else record {
      name = codes "1. resolve endpoint";
      status = ok;
      detail = host ++ codes " → " ++ format_ℕ r.value ++ codes " address(es)";
    }

-- stepDNS
unfoldable pub step_dns : Tracer → Text → Step
step_dns t host =
    if t.is_ip host
    then record {
      name = codes "1. resolve endpoint";
      status = ok;
      detail = host ++ codes " (literal IP)";
    }
    else resolved host t.resolver

abbrev pub pinged : Option Text → Step
pinged none = record {
  name = codes "2. reach server";
  status = warn;
  detail = codes "no ICMP reply (may be firewalled or down)";
}
pinged (some rtt) = record {
  name = codes "2. reach server";
  status = ok;
  detail = codes "ICMP " ++ rtt ++ codes " ms";
}

abbrev pub ping_by : Text → Option (Text → Option Text) → Step
ping_by host none = record {
  name = codes "2. reach server";
  status = warn;
  detail = codes "no pinger";
}
ping_by host (some ping) = pinged (ping host)

-- stepPing
unfoldable pub step_ping : Tracer → Text → Step
step_ping t host = ping_by host t.pinger

abbrev pub link_missing : Text → Option (Text → Bool) → Bool
link_missing iface none = false
link_missing iface (some link) = not (link iface)

-- stepLink
unfoldable pub step_link : Tracer → Text → Step
step_link t iface =
    if iface == []
    then record { name = codes "3. tunnel interface"; status = warn; detail = codes "not up yet" }
    else if link_missing iface t.link
    then record {
      name = codes "3. tunnel interface";
      status = fail;
      detail = iface ++ codes " missing";
    }
    else record { name = codes "3. tunnel interface"; status = ok; detail = iface ++ codes " up" }

abbrev pub not_up : Step
not_up = record {
  name = codes "4. egress via tunnel";
  status = warn;
  detail = codes "tunnel not up";
}

abbrev pub egress_by : Text → Option (Text → Answered Text) → Step
egress_by iface none = not_up
egress_by iface (some egress) =
    let r = egress iface in
    if iface == []
    then not_up
    else if has_error r.error || r.value == []
    then record {
      name = codes "4. egress via tunnel";
      status = fail;
      detail = codes "no traffic through tunnel: " ++ err_str r.error;
    }
    else record {
      name = codes "4. egress via tunnel";
      status = ok;
      detail = codes "egress " ++ r.value;
    }

-- stepEgress
unfoldable pub step_egress : Tracer → Text → Step
step_egress t iface = egress_by iface t.egress

abbrev pub parse_failed : Text → Step
parse_failed e = record { name = codes "parse endpoint"; status = fail; detail = e }

abbrev pub steps_of : Tracer → Answered Text → Text → List Step
steps_of t r iface = elim r.error [
  | some e ↦ parse_failed e ∷ []
  | none ↦ step_dns t r.value ∷ step_ping t r.value ∷ step_link t iface ∷ step_egress t iface ∷ []
]

-- The method Run.
unfoldable pub trace : Tracer → Text → Text → Trace
unfolding step_dns step_ping step_link step_egress
trace t endpoint iface = record {
  endpoint = endpoint;
  steps = steps_of t (t.split_host_port endpoint) iface;
}

abbrev pub is_fail : StepStatus → Bool
is_fail fail = true
is_fail _ = false

-- The method Healthy.
unfoldable pub is_healthy : Trace → Bool
unfolding any
is_healthy tr = not (any (λ s. is_fail s.status) tr.steps)

-- The faults of a path: a name that does not resolve, an interface that is missing, no traffic.
abbrev dns_fault : Tracer → Text → Bool
dns_fault t host = not (t.is_ip host) && elim t.resolver [
  | none ↦ false
  | some lookup ↦ has_error (lookup host).error || is_zero (lookup host).value
]

abbrev link_fault : Tracer → Text → Bool
link_fault t iface = not (iface == []) && link_missing iface t.link

abbrev egress_fault : Tracer → Text → Bool
egress_fault t iface = not (iface == []) && elim t.egress [
  | none ↦ false
  | some egress ↦ has_error (egress iface).error || (egress iface).value == []
]

-- For an endpoint that parses, a trace is healthy exactly when no name fails to resolve, no interface that
-- was asked for is missing and no request through it fails: a ping without an answer, or a tunnel that
-- is not up yet, only warn. For one that does not parse it is never healthy.
pub healthy-trace :
    (t : Tracer) (endpoint iface : Text)
    → let r = t.split_host_port endpoint in
      is_healthy (trace t endpoint iface) ≡ (
        not (has_error r.error)
        && not (dns_fault t r.value)
        && not (link_fault t iface)
        && not (egress_fault t iface))
unfolding trace is_healthy any step_dns step_ping step_link step_egress
healthy-trace t endpoint iface = ground arith
