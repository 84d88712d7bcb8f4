-- ===== src/HttpApi/ClientIp.antt =====
-- httpapi/middleware.go, `NewClientIP`: the name under which a caller without an identity is limited. The
-- addresses of net/netip and the split of a host and a port are parameters.
use mathlib.Core.List.{reverse, reverse-append}
use call_it.Prelude.{
  ℕ, Str, str_eq, split_on, split_on-append, List, [], ◌∷◌, ◌++◌, Bool, true, false, Bool-cases,
  Option, Option-cases, none, some, ◌≡◌, refl, ap, ◌∙◌, arith, if◌then◌else◌, inl, inr,
}

pub record NetIp : Type 1 where
  pub Addr : Type 0
  pub Prefix : Type 0
  pub split_host_port : Str → Option Str
  pub parse_addr : Str → Option Addr
  pub unmap : Addr → Addr
  pub contains : Prefix → Addr → Bool
  pub addr_string : Addr → Str
  pub trim_space : Str → Str

abbrev pub comma : ℕ
comma = b','

-- `strings.Join` of the header's values.
unfoldable pub join_values : List Str → Str
join_values [] = []
join_values (v ∷ []) = v
join_values (v ∷ w ∷ values) = v ++ (comma ∷ join_values (w ∷ values))

module _ (net : NetIp) (trusted : List net.Prefix) where
  unfoldable pub any_contains : List net.Prefix → net.Addr → Bool
  any_contains [] a = false
  any_contains (p ∷ ps) a = let rest = any_contains ps a in if net.contains p a then true else rest

  unfoldable pub is_trusted : net.Addr → Bool
  unfolding any_contains
  is_trusted a = any_contains trusted a

  -- The loop over the entries, the last one first.
  unfoldable pub scan : Str → List Str → Str
  unfolding is_trusted
  scan host [] = host
  scan host (e ∷ es) =
      let rest = scan host es in
      let entry = net.trim_space e in
      if str_eq entry [] then rest else elim (net.parse_addr entry) [
        | none ↦ host
        | some a ↦ if is_trusted (net.unmap a) then rest else net.addr_string (net.unmap a)
      ]

  unfoldable pub entries_of : List Str → List Str
  unfolding join_values
  entries_of values = reverse (split_on comma (join_values values))

  -- The peer, unless it is a trusted proxy.
  unfoldable pub from_peer : Str → List Str → Str
  unfolding scan entries_of is_trusted
  from_peer host values = elim (net.parse_addr host) [
    | none ↦ host
    | some peer ↦ if is_trusted (net.unmap peer) then scan host (entries_of values) else host
  ]

  unfoldable pub client_ip : Str → List Str → Str
  unfolding from_peer
  client_ip remote_addr values = elim (net.split_host_port remote_addr) [
    | none ↦ remote_addr
    | some host ↦ from_peer host values
  ]

  -- Whether the loop comes to an entry that it does not pass over: one that is no address, or that is
  -- no trusted proxy's.
  unfoldable pub stops : List Str → Bool
  stops [] = false
  stops (e ∷ es) =
      let rest = stops es in
      if str_eq (net.trim_space e) [] then rest else elim (net.parse_addr (net.trim_space e)) [
        | none ↦ true
        | some a ↦ if is_trusted (net.unmap a) then rest else true
      ]

  scan-append :
      (host : Str) (es fs : List Str) → stops es ≡ true → scan host (es ++ fs) ≡ scan host es
  unfolding stops scan
  scan-append host [] fs h = ground arith
  scan-append host (e ∷ es) fs h = elim (Bool-cases (str_eq (net.trim_space e) [])) [
    | inl empty ↦ rw empty (scan-append host es fs (ground arith))
    | inr full ↦ elim (Option-cases (net.parse_addr (net.trim_space e))) [
      | inl bad ↦ rw (full, bad) refl
      | inr (a, good) ↦ elim (Bool-cases (is_trusted (net.unmap a))) [
        | inr stranger ↦ rw (full, good, stranger) refl
        | inl proxy ↦ rw (full, good, proxy) (scan-append host es fs (ground (arith, good, proxy)))
      ]
    ]
  ]

  entries-forged :
      (forged s : Str)
      → reverse (split_on comma (forged ++ (comma ∷ s)))
        ≡ reverse (split_on comma s) ++ reverse (split_on comma forged)
  entries-forged forged s =
      ap reverse (split_on-append comma forged s)
      ∙ reverse-append (split_on comma forged) (split_on comma s)

  scan-forged :
      (host forged s : Str)
      → stops (reverse (split_on comma s)) ≡ true
      → scan host (reverse (split_on comma (forged ++ (comma ∷ s))))
        ≡ scan host (reverse (split_on comma s))
  scan-forged host forged s h =
      ap (scan host) (entries-forged forged s)
      ∙ scan-append host (reverse (split_on comma s)) (reverse (split_on comma forged)) h

  from_peer-forged :
      (host forged v : Str) (values : List Str)
      → stops (entries_of (v ∷ values)) ≡ true
      → from_peer host (forged ∷ v ∷ values) ≡ from_peer host (v ∷ values)
  unfolding from_peer entries_of
  from_peer-forged host forged v values h = elim (Option-cases (net.parse_addr host)) [
    | inl bad ↦ rw (bad, from_peer) refl
    | inr (peer, good) ↦ elim (Bool-cases (is_trusted (net.unmap peer))) [
      | inr stranger ↦ rw (good, stranger, from_peer) refl
      | inl proxy ↦
          rw (good, proxy, from_peer) (scan-forged host forged (join_values (v ∷ values)) h)
    ]
  ]

  -- Where the entries that the own proxies wrote hold one that is no address or no trusted proxy's, no
  -- value of X-Forwarded-For that comes ahead of theirs changes the name of the caller, so that nobody
  -- can take fresh limits, or another's, by sending a header.
  pub client_ip-forged :
      (remote_addr forged v : Str) (values : List Str)
      → stops (entries_of (v ∷ values)) ≡ true
      → client_ip remote_addr (forged ∷ v ∷ values) ≡ client_ip remote_addr (v ∷ values)
  unfolding client_ip
  client_ip-forged remote_addr forged v values h =
      elim (Option-cases (net.split_host_port remote_addr)) [
        | inl bad ↦ rw (bad, client_ip) refl
        | inr (host, good) ↦ rw (good, client_ip) (from_peer-forged host forged v values h)
      ]
