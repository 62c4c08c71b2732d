-- ===== src/Ratelimit/Proxies.antt =====
-- The client address of authkit/ratelimit/ratelimit.go: whose word is taken for it, and the ranges of
-- trusted proxies.
use gouncer.Base.{
  ℕ, ◌-◌, Bool, true, false, not, ◌&&◌, Option, none, some, List, [], ◌∷◌, GoString, ltb, nat_eq,
  string_eq, ◌==◌, any, if◌then◌else◌, map,
}
use gouncer.Base.Int.{ℤ, pos, negsuc}
use gouncer.Core.Errors.{Error, foreign, wrap}
use gouncer.Core.Results.{Result, ok, err, bind}
use gouncer.Go.Strings.{split, trim_space}

-- What net, netip, chi's middleware and httprate do. An address of a request is `none` where none is
-- recorded; `from_remote_addr` is `ClientIPFromRemoteAddr` and reads the peer of the connection, and
-- `from_xff` is what the middleware of `ClientIPFromXFF` does, which reads headers too. `is_readable`
-- says whether `ClientIPFromXFF` parses the text of a range: it panics on one that it does not.
-- `masked_from` is `PrefixFrom` followed by `Masked`, whose bits are an integer of either sign.
pub record Network (Addr Prefix Request : Type 0) : Type 0 where
  pub split_host_port : GoString → Option GoString
  pub parse_addr : GoString → Option Addr
  pub parse_prefix : GoString → Result Prefix
  pub prefix_addr : Prefix → Addr
  pub prefix_bits : Prefix → ℕ
  pub is_4in6 : Addr → Bool
  pub unmap : Addr → Addr
  pub without_zone : Addr → Addr
  pub masked_from : Addr → ℤ → Prefix
  pub prefix_contains : Prefix → Addr → Bool
  pub prefix_text : Prefix → GoString
  pub canonicalize_ip : GoString → GoString
  pub remote_addr : Request → GoString
  pub from_remote_addr : GoString → Option GoString
  pub is_readable : GoString → Bool
  pub from_xff : List GoString → Request → Option GoString

-- The error of a mapped range that is too short.
abbrev pub short_range : Error
short_range = foreign 102

-- The panic of `ClientIPFromXFF`.
abbrev pub unreadable_range : Error
unreadable_range = foreign 103

module _ {Addr Prefix Request : Type 0} (net : Network Addr Prefix Request) where
  open net use {
    split_host_port, parse_addr, parse_prefix, prefix_addr, prefix_bits, is_4in6, unmap,
    without_zone, masked_from, prefix_contains, prefix_text, canonicalize_ip, remote_addr,
    from_remote_addr, is_readable, from_xff,
  }

  -- `bits - 96`, as an integer
  abbrev pub unmapped_bits : ℕ → ℤ
  unmapped_bits bits = if ltb bits 96 then negsuc (95 - bits) else pos (bits - 96)

  -- `unmappedPrefix`
  unfoldable pub unmapped_prefix : Prefix → Prefix
  unmapped_prefix prefix =
      if not (is_4in6 (prefix_addr prefix))
      then prefix
      else masked_from (unmap (prefix_addr prefix)) (unmapped_bits (prefix_bits prefix))

  abbrev pub long_enough : Result Prefix → Result Prefix
  long_enough (err e) = err (wrap e)
  long_enough (ok prefix) =
      if is_4in6 (prefix_addr prefix) && ltb (prefix_bits prefix) 96
      then err short_range
      else ok prefix

  -- `trustedPrefix`
  unfoldable pub trusted_prefix : GoString → Result Prefix
  trusted_prefix raw = long_enough (parse_prefix raw)

  -- The loop of `ParseTrustedProxies`, on the parts.
  unfoldable pub parse_ranges : List GoString → Result (List GoString)
  unfolding trusted_prefix
  parse_ranges [] = ok []
  parse_ranges (raw ∷ rest) =
      let part = trim_space raw in
      let others = parse_ranges rest in
      if part == []
      then others
      else bind (trusted_prefix part) λ _. bind others λ ranges. ok (part ∷ ranges)

  -- `ParseTrustedProxies`. The code of a comma is 44.
  unfoldable pub parse_trusted_proxies : GoString → Result (List GoString)
  unfolding parse_ranges split trim_space
  parse_trusted_proxies raw = parse_ranges (split 44 raw)

  abbrev pub host_of : GoString → GoString
  host_of remote = elim (split_host_port remote) [ some host ↦ host | none ↦ remote ]

  abbrev pub in_ranges : List Prefix → Option Addr → Bool
  in_ranges prefixes none = false
  in_ranges prefixes (some peer) = any (λ p. prefix_contains p (without_zone (unmap peer))) prefixes

  -- `peerTrusted`
  unfoldable pub peer_trusted : GoString → List Prefix → Bool
  peer_trusted remote prefixes = in_ranges prefixes (parse_addr (host_of remote))

  -- `peerWhenUnset`, after what is recorded.
  abbrev pub peer_when_unset : Option GoString → Request → Option GoString
  peer_when_unset (some ip) r = some ip
  peer_when_unset none r = from_remote_addr (remote_addr r)

  -- The prefixes of `clientIPResolver`, where the first range that is refused panics.
  unfoldable pub trusted_prefixes : List GoString → Result (List Prefix)
  unfolding trusted_prefix unmapped_prefix
  trusted_prefixes [] = ok []
  trusted_prefixes (raw ∷ rest) =
      let others = trusted_prefixes rest in
      bind (trusted_prefix raw)
        λ prefix. bind others λ prefixes. ok (unmapped_prefix prefix ∷ prefixes)

  -- The address that the resolver records for a request.
  unfoldable pub recorded_ip : List Prefix → Request → Option GoString
  unfolding peer_trusted
  recorded_ip prefixes r =
      if peer_trusted (remote_addr r) prefixes
      then peer_when_unset (from_xff (map prefix_text prefixes) r) r
      else from_remote_addr (remote_addr r)

  -- Whether `ClientIPFromXFF` parses each of the ranges it is given.
  unfoldable pub all_readable : List Prefix → Bool
  all_readable [] = true
  all_readable (prefix ∷ prefixes) = is_readable (prefix_text prefix) && all_readable prefixes

  abbrev pub resolver_of : Result (List Prefix) → Result (Request → Option GoString)
  resolver_of (ok prefixes) =
      if all_readable prefixes then ok (recorded_ip prefixes) else err unreadable_range
  resolver_of (err e) = err e

  -- `clientIPResolver`, where an error is its panic: that of a range it refuses, or that of
  -- `ClientIPFromXFF` on a range it cannot parse.
  unfoldable pub client_ip_resolver : List GoString → Result (Request → Option GoString)
  unfolding trusted_prefixes recorded_ip all_readable
  client_ip_resolver [] = ok λ r. from_remote_addr (remote_addr r)
  client_ip_resolver (raw ∷ rest) = resolver_of (trusted_prefixes (raw ∷ rest))

  abbrev pub ip_or_host : Option GoString → GoString → GoString
  ip_or_host none remote = host_of remote
  ip_or_host (some ip) remote = if ip == [] then host_of remote else ip

  -- `keyByRemoteIP` of a request, with the address that is recorded for it.
  unfoldable pub key_by_remote_ip : Option GoString → Request → GoString
  key_by_remote_ip recorded r = canonicalize_ip (ip_or_host recorded (remote_addr r))
