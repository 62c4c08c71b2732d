-- ===== src/Ratelimit/Trust.antt =====
-- What the ranges of trusted proxies promise.
use gouncer.Base.{
  ℕ, ◌+◌, ◌-◌, ltb, ◌≡◌, refl, sym, ap, true, false, Option, List, [], ◌∷◌, GoString, arith, inl,
  inr, Bool-cases, nat_eq, string_eq, ◌==◌,
}
use gouncer.Base.Int.{pos}
use gouncer.Core.Results.{Result, ok, err, Result-cases}
use gouncer.Go.Strings.{split, trim_space}
use gouncer.Ratelimit.Proxies.{
  Network, trusted_prefix, parse_ranges, parse_trusted_proxies, trusted_prefixes, peer_trusted,
  unmapped_prefix, all_readable, unreadable_range, recorded_ip, client_ip_resolver,
  key_by_remote_ip,
}

abbrev value_or {ℓ} : {A : Type ℓ} → A → Result A → A
value_or a (ok b) = b
value_or a (err e) = a

ok_injective {ℓ} : {A : Type ℓ} (a b : A) → ok a ≡ ok b → a ≡ b
ok_injective a b h = ap (value_or a) h

-- What netip and chi document of the ranges they parse and write: `ClientIPFromXFF` parses the text of a
-- parsed prefix of an address that is not IPv4-mapped, and that of the IPv4 prefix made of a mapped one
-- with a length that is not negative.
pub record WritesRanges {Addr Prefix Request : Type 0} (net : Network Addr Prefix Request)
    : Type 0 where
  pub plain :
      (raw : GoString) (p : Prefix)
      → net.parse_prefix raw ≡ ok p
      → net.is_4in6 (net.prefix_addr p) ≡ false
      → net.is_readable (net.prefix_text p) ≡ true
  pub mapped :
      (raw : GoString) (p : Prefix) (n : ℕ)
      → net.parse_prefix raw ≡ ok p
      → net.is_4in6 (net.prefix_addr p) ≡ true
      → net.prefix_bits p ≡ 96 + n
      → net.is_readable (net.prefix_text (net.masked_from (net.unmap (net.prefix_addr p)) (pos n)))
        ≡ true

module _ {Addr Prefix Request : Type 0} (net : Network Addr Prefix Request) where
  -- A prefix that is trusted is readable once it is unmapped.
  trusted_prefix-readable :
      (raw : GoString) (p : Prefix)
      → WritesRanges net
      → trusted_prefix net raw ≡ ok p
      → net.is_readable (net.prefix_text (unmapped_prefix net p)) ≡ true
  unfolding trusted_prefix unmapped_prefix
  trusted_prefix-readable raw p writes good = elim (Result-cases (net.parse_prefix raw)) [
    | inl (e, bad) ↦ absurd (ground arith)
    | inr (q, read) ↦ elim (Bool-cases (net.is_4in6 (net.prefix_addr q))) [
      | inr other ↦
          let same : q ≡ p = ground arith in
          rw (sym same) (rw other (writes.plain raw q read other))
      | inl in6 ↦ elim (Bool-cases (ltb (net.prefix_bits q) 96)) [
        | inl short ↦ absurd (ground arith)
        | inr long ↦
            let same : q ≡ p = ground arith in
            rw (sym same) (
              rw in6
                (rw long (writes.mapped raw q (net.prefix_bits q - 96) read in6 (ground arith))))
      ]
    ]
  ]

  -- Ranges that were parsed are trusted prefixes, each readable.
  parse_ranges-trusted :
      (parts l : List GoString)
      → WritesRanges net
      → parse_ranges net parts ≡ ok l
      → (prefixes : List Prefix) × (trusted_prefixes net l ≡ ok prefixes)
        × (all_readable net prefixes ≡ true)
  unfolding parse_ranges trusted_prefixes all_readable
  parse_ranges-trusted [] l writes parsed =
      let nothing : [] ≡ l = ok_injective [] l parsed in ([], rw (sym nothing) refl, refl)
  parse_ranges-trusted (raw ∷ rest) l writes parsed = elim (Bool-cases (trim_space raw == [])) [
    | inl blank ↦ parse_ranges-trusted rest l writes (rw blank at parsed)
    | inr part ↦ elim (Result-cases (trusted_prefix net (trim_space raw))) [
      | inl (e, bad) ↦
          let failed : err e ≡ ok l = rw bad at (rw part at parsed) in absurd (ground arith)
      | inr (prefix, good) ↦ elim (Result-cases (parse_ranges net rest)) [
        | inl (e, bad) ↦
            let failed : err e ≡ ok l = rw bad at (rw good at (rw part at parsed)) in
            absurd (ground arith)
        | inr (others, read) ↦
            let (prefixes, trusted, all) = parse_ranges-trusted rest others writes read in
            let whole : trim_space raw ∷ others ≡ l =
              ok_injective (trim_space raw ∷ others) l
                (rw read at (rw good at (rw part at parsed))) in
            (
              unmapped_prefix net prefix ∷ prefixes,
              rw (sym whole) (rw good (rw trusted refl)),
              rw (trusted_prefix-readable (trim_space raw) prefix writes good) all,
            )
      ]
    ]
  ]

  -- A list that `ParseTrustedProxies` answers never makes the resolver panic: the resolver refuses none
  -- of its ranges, and `ClientIPFromXFF` parses each range as the resolver writes it. That holds where
  -- `ClientIPFromXFF` parses the text of a plain prefix, and of an IPv4 prefix made of a mapped one with
  -- a length that is not negative.
  pub parse_trusted_proxies-client_ip_resolver :
      (raw : GoString) (l : List GoString)
      → WritesRanges net
      → parse_trusted_proxies net raw ≡ ok l
      → (resolve : Request → Option GoString) × (client_ip_resolver net l ≡ ok resolve)
  unfolding parse_trusted_proxies client_ip_resolver
  parse_trusted_proxies-client_ip_resolver raw [] writes parsed = (_, refl)
  parse_trusted_proxies-client_ip_resolver raw (x ∷ l) writes parsed =
      let (prefixes, trusted, all) = parse_ranges-trusted (split 44 raw) (x ∷ l) writes parsed in
      (recorded_ip net prefixes, rw trusted (rw all refl))

  -- Two requests from one remote address that is in no trusted range count under one key, whatever their headers
  -- say: no client names the address that its failures count for.
  pub client_ip_resolver-untrusted :
      (l : List GoString) (resolve : Request → Option GoString) (prefixes : List Prefix)
      (r q : Request)
      → client_ip_resolver net l ≡ ok resolve
      → trusted_prefixes net l ≡ ok prefixes
      → peer_trusted net (net.remote_addr r) prefixes ≡ false
      → net.remote_addr r ≡ net.remote_addr q
      → key_by_remote_ip net (resolve r) r ≡ key_by_remote_ip net (resolve q) q
  unfolding client_ip_resolver key_by_remote_ip
  client_ip_resolver-untrusted [] resolve prefixes r q made ranges untrusted same =
      let resolved = ok_injective _ resolve made in
      rw (sym resolved) (rw (same, key_by_remote_ip) refl)
  client_ip_resolver-untrusted (x ∷ l) resolve prefixes r q made ranges untrusted same =
      elim (Bool-cases (all_readable net prefixes)) [
        | inr bad ↦
            let failed : err unreadable_range ≡ ok resolve = rw bad at (rw ranges at made) in
            absurd (ground arith)
        | inl good ↦
            let resolved : recorded_ip net prefixes ≡ resolve =
              ok_injective _ resolve (rw good at (rw ranges at made)) in
            let same_untrusted : peer_trusted net (net.remote_addr q) prefixes ≡ false =
              rw same at untrusted in
            rw (sym resolved) (
              unfold recorded_ip in
              rw untrusted (rw same_untrusted (rw (same, key_by_remote_ip) refl)))
      ]
