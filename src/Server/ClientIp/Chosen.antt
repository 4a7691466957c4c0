-- ===== src/Server/ClientIp/Chosen.antt =====
-- clientIP (internal/server/auth.go): what a client can choose of the address it is given.
use wacht.Shared.{
  ◌≡◌, refl, String, Bool, true, false, Option, none, some, List, [], ◌∷◌, ◌++◌, All, inl, inr,
  Bool-cases, ap, ◌∙◌, sym, arith,
}
use wacht.Server.ClientIp
use wacht.Server.ClientIp.{Request, or_this, choose}

module _ {Addr Prefix : Type 0} (parse_addr : String → Option Addr) (unmap : Addr → Addr)
    (contains : Prefix → Addr → Bool) (text : Addr → String)
    (split_host : String → Option String) where
  abbrev trusted_ip : List Prefix → Addr → Bool
  trusted_ip trusted ip =
      ClientIp.ip_in_prefixes parse_addr unmap contains text split_host ip trusted

  abbrev last : List Prefix → List Addr → Option Addr
  last = ClientIp.last_untrusted parse_addr unmap contains text split_host

  last_append :
      (trusted : List Prefix) (front chain : List Addr) (ip : Addr)
      → last trusted chain ≡ some ip
      → last trusted (front ++ chain) ≡ some ip
  unfolding ClientIp.last_untrusted
  last_append trusted [] chain ip h = h
  last_append trusted (x ∷ xs) chain ip h =
      ap
        (λ (o : Option Addr).
          ClientIp.or_this parse_addr unmap contains text split_host o x (trusted_ip trusted x))
        (last_append trusted xs chain ip h)

  last_trusted :
      (trusted : List Prefix) (chain : List Addr)
      → All (λ (ip : Addr). trusted_ip trusted ip ≡ true) chain
      → last trusted chain ≡ none
  unfolding ClientIp.last_untrusted
  last_trusted trusted [] h = refl
  last_trusted trusted (x ∷ xs) h = rw (last_trusted trusted xs h.1, h.0) refl

  last_untrusted :
      (trusted : List Prefix) (front back : List Addr) (ip : Addr)
      → trusted_ip trusted ip ≡ false
      → All (λ (other : Addr). trusted_ip trusted other ≡ true) back
      → last trusted (front ++ (ip ∷ back)) ≡ some ip
  unfolding ClientIp.last_untrusted
  last_untrusted trusted front back ip h k =
      last_append trusted front (ip ∷ back) ip (rw (last_trusted trusted back k, h) refl)

  -- When the connection has an address, and in the chain of the addresses that the headers name,
  -- with that of the connection at its end, `ip` is the last one that no trusted prefix contains, the
  -- client is `ip`: nothing that stands before it in the headers matters, and where the connection's
  -- own address is not trusted, no header matters.
  pub client_ip-last :
      (trusted : List Prefix) (r : Request) (peer ip : Addr) (front back : List Addr)
      → ClientIp.parse_request_ip parse_addr unmap contains text split_host r.remote_addr
        ≡ some peer
      → ClientIp.forwarded_chain parse_addr unmap contains text split_host r (
            ClientIp.parse_forwarded_for parse_addr unmap contains text split_host
              r.x_forwarded_for)
          ++ (peer ∷ [])
        ≡ front ++ (ip ∷ back)
      → ClientIp.ip_in_prefixes parse_addr unmap contains text split_host ip trusted ≡ false
      → All
          (λ (other : Addr).
            ClientIp.ip_in_prefixes parse_addr unmap contains text split_host other trusted ≡ true)
          back
      → ClientIp.client_ip parse_addr unmap contains text split_host trusted r ≡ text ip
  unfolding ClientIp.client_ip ClientIp.forwarded_client_ip
  client_ip-last trusted r peer ip front back from chain h k =
      let forwarded = ClientIp.forwarded_chain parse_addr unmap contains text split_host r (
        ClientIp.parse_forwarded_for parse_addr unmap contains text split_host r.x_forwarded_for) in
      let found : last trusted (forwarded ++ (peer ∷ [])) ≡ some ip =
        ap (last trusted) chain ∙ last_untrusted trusted front back ip h k in
      elim (Bool-cases (trusted_ip trusted peer)) [
        | inl proxy ↦ rw (from, proxy) (rw found refl)
        | inr direct ↦
            let own : some peer ≡ some ip =
              sym (last_untrusted trusted forwarded [] peer direct tt) ∙ found in
            rw (from, direct) (ground (arith, own))
      ]
