-- ===== src/Ratelimit/Examples.antt =====
-- A counter that keeps every increment, and a network of three peers.
use gouncer.Base.{
  ℕ, ◌+◌, ◌-◌, ◌≡◌, ◌≤◌, refl, Bool, true, false, not, ◌&&◌, Option, none, some, List, [], ◌∷◌,
  GoString, arith, ◌==◌, nat_eq, string_eq, eq_refl, if◌then◌else◌, any, ltb,
}
use gouncer.Core.Errors.{foreign}
use gouncer.Core.Results.{ok, err}
use gouncer.Go.Strings.{split, trim_space}
use gouncer.Ratelimit.Limiter.{
  Counter, Limiter, truncate, check, record_failure, limit_enter, limit_leave,
}
use gouncer.Ratelimit.Traffic.{Event, enter, leave, Traffic, pass}
use gouncer.Ratelimit.Budget.{CountsIn, failures, lost, Within, failures-limit}
use gouncer.Ratelimit.Proxies.{
  Network, parse_trusted_proxies, parse_ranges, trusted_prefix, trusted_prefixes, unmapped_prefix,
  client_ip_resolver, all_readable, recorded_ip, peer_trusted, key_by_remote_ip,
}
use gouncer.Base.Int.{pos, negsuc}
use gouncer.Ratelimit.Trust.{
  WritesRanges, parse_trusted_proxies-client_ip_resolver, client_ip_resolver-untrusted,
}

abbrev Events : Type 0
Events = List (GoString × (ℕ × ℕ))

abbrev count_events : GoString → ℕ → Events → ℕ
count_events k b [] = 0
count_events k b ((j, (a, n)) ∷ events) =
    let rest = count_events k b events in if j == k && a == b then rest + n else rest

abbrev minute : ℕ
minute = 60000000000

abbrev ledger : Counter Events
ledger = record {
  status = λ k now c. ok (count_events k (truncate now minute) c);
  increment_by = λ k b n c. (ok tt, (k, (b, n)) ∷ c);
}

ledger_raised :
    (k j : GoString) (b n : ℕ) (c : Events)
    → count_events k b (ledger.increment_by j b n c).1
      ≡ count_events k b c + (if j == k then n else 0)
ledger_raised k j b n c = let here = eq_refl b in ground arith

ledger-CountsIn : CountsIn ledger minute count_events
ledger-CountsIn = record {
  raised = λ k j b n c _. ledger_raised k j b n c;
  at_least = λ k j b n c. let more = ledger_raised k j b n c in omega arith;
  at_most = λ k j b n c. let more = ledger_raised k j b n c in omega arith;
  rated = λ k now r c h. ground arith;
}

abbrev twice : Limiter
twice = record { limit = 2; window = minute }

abbrev peer : GoString
peer = 5 ∷ []

-- Two logins side by side, both failed, then a third, which is checked at the limit.
abbrev guesses : List Event
guesses = enter peer 1 ∷ enter peer 2 ∷ leave peer 3 401 ∷ leave peer 4 401 ∷ enter peer 5 ∷ []

abbrev idle : Traffic Events
idle = record { counter = []; serving = λ j. 0 }

guesses-Within : Within ledger twice peer 2 guesses idle
unfolding Within pass limit_enter limit_leave check record_failure gouncer.Base.string_dec
    gouncer.Base.ℕ_discrete
guesses-Within = (omega arith, (omega arith, (omega arith, (omega arith, (omega arith, tt)))))

failures-limit_example :
    failures ledger twice peer guesses idle + count_events peer 0 []
    ≤ 3 + lost ledger twice peer guesses idle
failures-limit_example =
    failures-limit ledger twice count_events peer 0 1 guesses idle ledger-CountsIn
      (refl, (refl, (refl, (refl, (refl, tt))))) guesses-Within (omega arith)

-- A request is its remote address and what its header says; the prefix of the text 1 holds one peer, and
-- that of the text 2 is IPv4-mapped.
abbrev wire : Network GoString GoString (GoString × GoString)
wire = record {
  split_host_port = λ t. none;
  parse_addr = λ t. some t;
  parse_prefix = λ t. if t == [] then err (foreign 7) else ok t;
  prefix_addr = λ p. p;
  prefix_bits = λ p. if p == 50 ∷ [] then 128 else 32;
  is_4in6 = λ a. a == 50 ∷ [];
  unmap = λ a. a;
  without_zone = λ a. a;
  masked_from = λ a n. elim n [ pos _ ↦ a | negsuc _ ↦ [] ];
  prefix_contains = λ p a. p == a;
  prefix_text = λ p. p;
  canonicalize_ip = λ t. t;
  remote_addr = λ r. r.0;
  from_remote_addr = λ t. some t;
  is_readable = λ t. not (t == []);
  from_xff = λ l r. some r.1;
}

wire-WritesRanges : WritesRanges wire
wire-WritesRanges = record {
  plain = λ raw p read other. ground arith;
  mapped = λ raw p n read in6 long. ground arith;
}

parsed : parse_trusted_proxies wire (49 ∷ 44 ∷ 50 ∷ []) ≡ ok ((49 ∷ []) ∷ (50 ∷ []) ∷ [])
unfolding parse_trusted_proxies parse_ranges split trim_space trusted_prefix gouncer.Base.string_dec
    gouncer.Base.ℕ_discrete
parsed = refl

parse_trusted_proxies-client_ip_resolver_example :
    (resolve : (GoString × GoString) → Option GoString) × (client_ip_resolver wire
        ((49 ∷ []) ∷ (50 ∷ []) ∷ [])
      ≡ ok resolve)
parse_trusted_proxies-client_ip_resolver_example =
    parse_trusted_proxies-client_ip_resolver wire (49 ∷ 44 ∷ 50 ∷ []) ((49 ∷ []) ∷ (50 ∷ []) ∷ [])
      wire-WritesRanges parsed

abbrev forged : GoString → GoString × GoString
forged header = (51 ∷ [], header)

ranged : trusted_prefixes wire ((49 ∷ []) ∷ []) ≡ ok ((49 ∷ []) ∷ [])
unfolding trusted_prefixes trusted_prefix unmapped_prefix gouncer.Base.string_dec
    gouncer.Base.ℕ_discrete
ranged = refl

resolved : client_ip_resolver wire ((49 ∷ []) ∷ []) ≡ ok (recorded_ip wire ((49 ∷ []) ∷ []))
unfolding client_ip_resolver trusted_prefixes trusted_prefix unmapped_prefix all_readable
    gouncer.Base.string_dec gouncer.Base.ℕ_discrete
resolved = refl

outside : peer_trusted wire (51 ∷ []) ((49 ∷ []) ∷ []) ≡ false
unfolding peer_trusted any gouncer.Base.string_dec gouncer.Base.ℕ_discrete
outside = refl

client_ip_resolver-untrusted_example :
    key_by_remote_ip wire (recorded_ip wire ((49 ∷ []) ∷ []) (forged (1 ∷ []))) (forged (1 ∷ []))
    ≡ key_by_remote_ip wire (recorded_ip wire ((49 ∷ []) ∷ []) (forged (2 ∷ []))) (forged (2 ∷ []))
client_ip_resolver-untrusted_example =
    client_ip_resolver-untrusted wire ((49 ∷ []) ∷ []) (recorded_ip wire ((49 ∷ []) ∷ []))
      ((49 ∷ []) ∷ []) (forged (1 ∷ [])) (forged (2 ∷ [])) resolved ranged outside refl
