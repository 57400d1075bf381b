-- ===== src/Http01/Resolution.antt =====
-- `_resolve_and_check`: the address that is contacted.
use jackdaw.Base.{
  List, Option, String, none, ◌≡◌, some, ◌≢◌, All, ◌∷◌, if◌then◌else◌, false, refl, [], arith, Bool,
  ◌↔◌, ap, some-injective, ◌∙◌, ◌<>◌, ◌==◌, eq_iff, true, subst, sym,
}
use jackdaw.Http01.{
  Resolver, AddrInfo, is_blocked, chosen, check_all, resolve_and_check, passed, keep_first,
  validation_error, found, keep_ipv4, Lookup, os_error, check_results,
}
use jackdaw.AcmeErrors.{dns}

-- The first address of a list, and its first IPv4 address.
abbrev pub first_host : List AddrInfo → Option String
first_host [] = none
first_host (a ∷ rest) = some a.host

abbrev pub first_ipv4 : List AddrInfo → Option String
first_ipv4 [] = none
first_ipv4 (a ∷ rest) = if a.is_inet then some a.host else first_ipv4 rest

-- IPv4 is preferred.
abbrev pub preferred : List AddrInfo → Option String
preferred results = elim (first_ipv4 results) [ some ip ↦ some ip | none ↦ first_host results ]

abbrev or_else : Option String → Option String → Option String
or_else none w = w
or_else (some v) w = some v

-- No chosen address is the empty text.
abbrev IsText : Option String → Type 0
IsText none = Unit
IsText (some ip) = ip ≢ ""

module _ (r : Resolver) (hostname : String) (no_empty : r.ip_address "" ≡ none) where
  host-IsText : (ip : String) → is_blocked r ip ≡ false → ip ≢ ""
  unfolding is_blocked
  host-IsText ip h e = absurd (ground (arith, no_empty))

  chosen-or_else : (v w : Option String) → chosen v w ≡ chosen (or_else v none) (or_else w none)
  chosen-or_else none none = refl
  chosen-or_else none (some w) = refl
  chosen-or_else (some v) none = refl
  chosen-or_else (some v) (some w) = refl

  check_all_passes :
      (v4 any : Option String) (rs : List AddrInfo)
      → All (λ a. is_blocked r a.host ≡ false) rs
      → check_all r hostname v4 any rs
        ≡ chosen (or_else v4 (first_ipv4 rs)) (or_else any (first_host rs))
  unfolding check_all
  check_all_passes v4 any [] h = chosen-or_else v4 any
  check_all_passes v4 any (a ∷ rs) h =
      rw h.0
        (check_all_passes (keep_ipv4 v4 a) (keep_first any a.host) rs h.1 ∙ kept (a.is_inet) v4 any)
    where
      kept :
          (b : Bool) (v w : Option String)
          → chosen
              (or_else (if b then keep_first v a.host else v) (first_ipv4 rs))
              (or_else (keep_first w a.host) (first_host rs))
            ≡ chosen
                (or_else v (if b then some a.host else first_ipv4 rs))
                (or_else w (some a.host))
      kept true none none = refl
      kept true (some v) none = refl
      kept true none (some w) = refl
      kept true (some v) (some w) = refl
      kept false none none = refl
      kept false (some v) none = refl
      kept false none (some w) = refl
      kept false (some v) (some w) = refl

  check_all_refuses :
      (v4 any : Option String) (rs : List AddrInfo) (ip : String)
      → check_all r hostname v4 any rs ≡ passed ip
      → All (λ a. is_blocked r a.host ≡ false) rs
  unfolding check_all
  check_all_refuses v4 any [] ip h = tt
  check_all_refuses v4 any (a ∷ rs) ip h =
      at (is_blocked r a.host) refl h
        (check_all_refuses (keep_ipv4 v4 a) (keep_first any a.host) rs ip)
    where
      at :
          (b : Bool)
          → is_blocked r a.host ≡ b
          → (if b
              then validation_error dns (
                  "Domain "
                  <> (r.repr hostname <> (" resolves to blocked address " <> r.repr a.host)))
              else check_all r hostname (keep_ipv4 v4 a) (keep_first any a.host) rs)
            ≡ passed ip
          → (check_all r hostname (keep_ipv4 v4 a) (keep_first any a.host) rs ≡ passed ip
              → All (λ x. is_blocked r x.host ≡ false) rs)
          → All (λ x. is_blocked r x.host ≡ false) (a ∷ rs)
      at true e k ih = absurd (cc)
      at false e k ih = (e, ih k)

  -- With addresses that are no empty text, the first IPv4 address is chosen, or else the first.
  chosen-preferred :
      (a : AddrInfo) (rs : List AddrInfo)
      → All (λ x. is_blocked r x.host ≡ false) (a ∷ rs)
      → (ip : String)
      → (chosen (first_ipv4 (a ∷ rs)) (some a.host) ≡ passed ip) ↔ (preferred (a ∷ rs) ≡ some ip)
  chosen-preferred a rs h ip = at (first_ipv4 (a ∷ rs)) (texts (a ∷ rs) h)
    where
      texts :
          (xs : List AddrInfo) → All (λ x. is_blocked r x.host ≡ false) xs → IsText (first_ipv4 xs)
      texts [] k = tt
      texts (x ∷ xs) k = here x.is_inet (texts xs k.1)
        where
          here :
              (b : Bool)
              → IsText (first_ipv4 xs)
              → IsText (if b then some x.host else first_ipv4 xs)
          here true t = host-IsText x.host k.0
          here false t = t

      passed-injective : (u v : String) → passed u ≡ passed v → u ≡ v
      passed-injective u v k = cc

      at :
          (o : Option String)
          → IsText o
          → (chosen o (some a.host) ≡ passed ip)
            ↔ ((elim o [ some x ↦ some x | none ↦ some a.host ]) ≡ some ip)
      at none t = (
        (λ k. ap some (passed-injective a.host ip k)),
        (λ k. ap passed (some-injective a.host ip k)),
      )
      at (some x) t = nonempty (x == "") (ground (arith, eq_iff x "", t))
        where
          nonempty :
              (b : Bool)
              → b ≡ false
              → ((if b then passed a.host else passed x) ≡ passed ip) ↔ (some x ≡ some ip)
          nonempty true e = absurd (cc)
          nonempty false e =
              ((λ k. ap some (passed-injective x ip k)), (λ k. ap passed (some-injective x ip k)))

  -- If the parser takes the empty text for no IP address: a name resolves to an address exactly when
  -- the resolver finds addresses, none of them is blocked, and the address is the first IPv4 address
  -- among them, or the first of all if there is none.
  pub resolve_and_check_iff :
      (ip : String)
      → (resolve_and_check r hostname ≡ passed ip) ↔ (
          (rs : List AddrInfo) × (r.getaddrinfo hostname ≡ found rs)
          × All (λ a. is_blocked r a.host ≡ false) rs
          × (preferred rs ≡ some ip))
  unfolding resolve_and_check
  resolve_and_check_iff ip = at (r.getaddrinfo hostname)
    where
      found-injective : (u v : List AddrInfo) → found u ≡ found v → u ≡ v
      found-injective u v k = ap (λ l. elim l [ os_error t ↦ u | found w ↦ w ]) k

      no_none : preferred [] ≢ some ip
      no_none k = cc

      no_host : (xs : List AddrInfo) → found [] ≡ found xs → preferred xs ≢ some ip
      no_host xs p q =
          no_none (subst (λ l. preferred l ≡ some ip) (sym (found-injective [] xs p)) q)

      at :
          (l : Lookup)
          → ((elim l [
            | os_error text ↦
                validation_error dns
                  ("DNS resolution failed for " <> (r.repr hostname <> (": " <> text)))
            | found results ↦ check_results r hostname results
          ])
              ≡ passed ip)
            ↔ ((rs : List AddrInfo) × (l ≡ found rs)
                × All (λ a. is_blocked r a.host ≡ false) rs
                × (preferred rs ≡ some ip))
      at (os_error text) =
          ((λ h. absurd (cc)), (λ h. let (xs, p, unblocked, pref) = h in absurd (cc)))
      at (found []) = (
        (λ h. absurd (cc)),
        (λ h. let (xs, p, unblocked, pref) = h in absurd (no_host xs p pref)),
      )
      at (found (a ∷ rs)) = (
        (λ h.
            let unblocked = check_all_refuses none none (a ∷ rs) ip h in
            (
              a ∷ rs,
              refl,
              unblocked,
              (chosen-preferred a rs unblocked ip).0
                  (sym (check_all_passes none none (a ∷ rs) unblocked) ∙ h),
            )),
        (λ h.
            let (xs, p, unblocked, pref) = h in
            let (unblocked', pref') =
              subst (λ l. All (λ x. is_blocked r x.host ≡ false) l × (preferred l ≡ some ip))
                (sym (found-injective (a ∷ rs) xs p)) (unblocked, pref) in
            check_all_passes none none (a ∷ rs) unblocked'
            ∙ (chosen-preferred a rs unblocked' ip).1 pref'),
      )
