-- ===== src/Server/ClientIp.antt =====
-- internal/server/auth.go: the address of the client, from the connection and the headers that a
-- proxy sets. The types and functions of Go's net and net/netip are parameters: `parse_addr` is
-- netip.ParseAddr, `unmap` Unmap, `contains` Prefix.Contains, `text` String, and `split_host` the host
-- of net.SplitHostPort.
pub mod Chosen
use wacht.Shared.{
  ℕ, String, Bool, true, false, not, Option, none, some, List, [], ◌∷◌, ◌++◌, ◌==◌, nat_eq,
  if◌then◌else◌,
}
use wacht.Shared.Rows.{any}
use wacht.Shared.Text.{trim_space}
use Prim.Native.Char.{Char, code}

-- What clientIP reads of the request.
pub record Request : Type 0 where
  pub remote_addr : String
  pub x_forwarded_for : String
  pub x_real_ip : String

abbrev bracket : ℕ
bracket = 0x5b

abbrev closing_bracket : ℕ
closing_bracket = 0x5d

abbrev comma : ℕ
comma = 0x2c

-- strings.TrimPrefix(s, "[")
unfoldable pub trim_bracket : String → String
trim_bracket String.[] = String.[]
trim_bracket (String.◌∷◌ c s) = if nat_eq (code c) bracket then s else String.◌∷◌ c s

-- strings.TrimSuffix(s, "]")
unfoldable pub trim_closing_bracket : String → String
trim_closing_bracket String.[] = String.[]
trim_closing_bracket (String.◌∷◌ c s) =
    let rest = trim_closing_bracket s in
    if nat_eq (code c) closing_bracket
    then if s == "" then String.[] else String.◌∷◌ c rest
    else String.◌∷◌ c rest

abbrev add_to_first : Char → List String → List String
add_to_first c [] = String.◌∷◌ c String.[] ∷ []
add_to_first c (part ∷ parts) = String.◌∷◌ c part ∷ parts

-- strings.Split(s, ",")
unfoldable pub split_commas : String → List String
split_commas String.[] = "" ∷ []
split_commas (String.◌∷◌ c s) =
    let parts = split_commas s in if nat_eq (code c) comma then "" ∷ parts else add_to_first c parts

module _ {Addr Prefix : Type 0} (parse_addr : String → Option Addr) (unmap : Addr → Addr)
    (contains : Prefix → Addr → Bool) (text : Addr → String)
    (split_host : String → Option String) where
  abbrev unmapped : Option Addr → Option Addr
  unmapped none = none
  unmapped (some ip) = some (unmap ip)

  unfoldable pub parse_ip : String → Option Addr
  unfolding trim_bracket trim_closing_bracket
  parse_ip raw =
      let trimmed = trim_closing_bracket (trim_bracket (trim_space raw)) in
      if trimmed == "" then none else unmapped (parse_addr trimmed)

  abbrev host_of : String → Option String → String
  host_of remote_addr none = remote_addr
  host_of remote_addr (some host) = host

  unfoldable pub parse_request_ip : String → Option Addr
  unfolding parse_ip
  parse_request_ip remote_addr = parse_ip (host_of remote_addr (split_host remote_addr))

  abbrev keep_parsed : Option Addr → List Addr → List Addr
  keep_parsed none ips = ips
  keep_parsed (some ip) ips = ip ∷ ips

  unfoldable pub parse_each : List String → List Addr
  unfolding parse_ip
  parse_each [] = []
  parse_each (part ∷ parts) = keep_parsed (parse_ip part) (parse_each parts)

  unfoldable pub parse_forwarded_for : String → List Addr
  unfolding parse_each split_commas
  parse_forwarded_for header = if header == "" then [] else parse_each (split_commas header)

  unfoldable pub ip_in_prefixes : Addr → List Prefix → Bool
  ip_in_prefixes ip prefixes = any (λ (p : Prefix). contains p (unmap ip)) prefixes

  -- The loop from the end of the chain.
  abbrev pub or_this : Option Addr → Addr → Bool → Option Addr
  or_this (some ip) this trusted = some ip
  or_this none this true = none
  or_this none this false = some this

  unfoldable pub last_untrusted : List Prefix → List Addr → Option Addr
  unfolding ip_in_prefixes
  last_untrusted trusted [] = none
  last_untrusted trusted (ip ∷ ips) =
      or_this (last_untrusted trusted ips) ip (ip_in_prefixes ip trusted)

  abbrev pub first_of : List Addr → Option Addr
  first_of [] = none
  first_of (ip ∷ ips) = some ip

  abbrev pub choose : Option Addr → List Addr → Option Addr
  choose (some ip) chain = some ip
  choose none chain = first_of chain

  -- X-Real-IP stands in for an X-Forwarded-For without an address.
  abbrev real_chain : Option Addr → List Addr
  real_chain none = []
  real_chain (some ip) = ip ∷ []

  abbrev pub forwarded_chain : Request → List Addr → List Addr
  forwarded_chain r [] = real_chain (parse_ip r.x_real_ip)
  forwarded_chain r (ip ∷ ips) = ip ∷ ips

  unfoldable pub forwarded_client_ip : Request → Addr → List Prefix → Option Addr
  unfolding last_untrusted parse_forwarded_for parse_ip
  forwarded_client_ip r peer trusted =
      let chain = forwarded_chain r (parse_forwarded_for r.x_forwarded_for) ++ (peer ∷ []) in
      choose (last_untrusted trusted chain) chain

  abbrev text_or : Addr → Option Addr → String
  text_or peer none = text peer
  text_or peer (some client) = text client

  abbrev client_of_peer : List Prefix → Request → Option Addr → String
  client_of_peer trusted r none = r.remote_addr
  client_of_peer trusted r (some peer) =
      if ip_in_prefixes peer trusted
      then text_or peer (forwarded_client_ip r peer trusted)
      else text peer

  unfoldable pub client_ip : List Prefix → Request → String
  unfolding parse_request_ip forwarded_client_ip ip_in_prefixes
  client_ip trusted r = client_of_peer trusted r (parse_request_ip r.remote_addr)
