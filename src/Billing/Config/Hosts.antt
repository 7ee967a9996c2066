-- ===== src/Billing/Config/Hosts.antt =====
-- Which hosts `isPrivateHostname` lets through, said without its tests.
use tomafix_backend.Prelude.{
  ◌≡◌, ◌≢◌, refl, ap, sym, ◌∙◌, true, false, List, [], ◌∷◌, ◌++◌, Text, codes, trim, lower,
  starts_with, ◌==◌, ◌||◌, nat_eq, list_eq, arith, All, Bool-cases, inl, inr,
}
use tomafix_backend.Billing.Config.{in_172_block, is_private_hostname}

-- How the addresses from 172.16.0.0 to 172.31.255.255 begin.
abbrev block_172 : List Text
block_172 =
    codes "172.16."
    ∷ codes "172.17."
    ∷ codes "172.18."
    ∷ codes "172.19."
    ∷ codes "172.20."
    ∷ codes "172.21."
    ∷ codes "172.22."
    ∷ codes "172.23."
    ∷ codes "172.24."
    ∷ codes "172.25."
    ∷ codes "172.26."
    ∷ codes "172.27."
    ∷ codes "172.28."
    ∷ codes "172.29."
    ∷ codes "172.30."
    ∷ codes "172.31."
    ∷ []

-- A host that is not this machine by its name or its IPv4 or IPv6 address, and whose text does not
-- begin like an IPv4 address of a private network.
abbrev pub IsPublicHost : Text → Type 0
IsPublicHost host =
    (host ≢ codes "localhost")
    × (host ≢ codes "127.0.0.1")
    × (host ≢ codes "::1")
    × All (λ prefix. starts_with host prefix ≡ false) (codes "10." ∷ codes "192.168." ∷ block_172)

begins-append : (s p : Text) → starts_with s p ≡ true → (rest : Text) × (s ≡ p ++ rest)
unfolding starts_with
begins-append s [] h = (s, refl)
begins-append [] (d ∷ p) h = cc
begins-append (c ∷ s) (d ∷ p) h =
    let first : c ≡ d = ground (arith, h, nat_eq.same_iff c d) in
    let (rest, e) = begins-append s p (ground (arith, h)) in
    (rest, ap (λ c. c ∷ s) first ∙ ap (λ s. d ∷ s) e)

in_block : All (λ prefix. (rest : Text) → in_172_block (prefix ++ rest) ≡ true) block_172
unfolding is_private_hostname
in_block = (
  λ _. refl,
  (
    λ _. refl,
    (
      λ _. refl,
      (
        λ _. refl,
        (
          λ _. refl,
          (
            λ _. refl,
            (
              λ _. refl,
              (
                λ _. refl,
                (
                  λ _. refl,
                  (
                    λ _. refl,
                    (
                      λ _. refl,
                      (λ _. refl, (λ _. refl, (λ _. refl, (λ _. refl, (λ _. refl, tt))))),
                    ),
                  ),
                ),
              ),
            ),
          ),
        ),
      ),
    ),
  ),
)

outside_block :
    (host : Text) (prefixes : List Text)
    → All (λ prefix. (rest : Text) → in_172_block (prefix ++ rest) ≡ true) prefixes
    → in_172_block host ≡ false
    → All (λ prefix. starts_with host prefix ≡ false) prefixes
outside_block host [] inside h = tt
outside_block host (prefix ∷ prefixes) (inside, more) h =
    elim (Bool-cases (starts_with host prefix)) [
      | inl begins ↦
          let (rest, e) = begins-append host prefix begins in
          absurd (cc (sym (inside rest) ∙ ap in_172_block (sym e) ∙ h))
      | inr other ↦ (other, outside_block host prefixes more h)
    ]

tested :
    (host : Text)
    → (host == codes "localhost"
        || host == codes "127.0.0.1"
        || host == codes "::1"
        || starts_with host (codes "10.")
        || starts_with host (codes "192.168.")
        || in_172_block host)
      ≡ false
    → IsPublicHost host
tested host h =
    let block : in_172_block host ≡ false = ground (arith, h) in
    (
      λ e. ground (arith, h, (list_eq.same_iff host (codes "localhost")).1 e),
      λ e. ground (arith, h, (list_eq.same_iff host (codes "127.0.0.1")).1 e),
      λ e. ground (arith, h, (list_eq.same_iff host (codes "::1")).1 e),
      (ground (arith, h), (ground (arith, h), outside_block host block_172 in_block block)),
    )

pub is_private_hostname-IsPublicHost :
    (hostname : Text) → is_private_hostname hostname ≡ false → IsPublicHost (lower (trim hostname))
unfolding is_private_hostname
is_private_hostname-IsPublicHost [] h = unfold trim lower starts_with in tested [] refl
is_private_hostname-IsPublicHost (c ∷ cs) h = tested (lower (trim (c ∷ cs))) h
