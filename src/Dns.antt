-- ===== src/Dns.antt =====
-- src/jackdaw/dns: the interface of the providers (base.py), their loader (loader.py), and the
-- provider that does nothing (providers/null.py).
pub mod Namecheap
pub mod Rest
pub mod Cloudflare
pub mod Porkbun
pub mod Sigv4
pub mod Route53
pub mod Samples
mod Tests
use jackdaw.Exec.{Exec, pure}
use jackdaw.Result.{Result, ok, uncaught}
use jackdaw.Base.{String, ◌==◌, if◌then◌else◌, List, none, ◌∷◌, Option, some, []}

-- The interface, over a state `S` of the name servers. A raised exception is `uncaught`.
pub record DnsProvider (S : Type 0) : Type 0 where
  pub set_txt : (domain name value : String) → Exec S (Unit {0})
  pub delete_txt : (domain name : String) → Exec S (Unit {0})

-- The classes that the registry names.
pub data ProviderClass : Type 0 where
  porkbun cloudflare route53 namecheap null : ProviderClass

unfoldable pub registry : List (String × ProviderClass)
registry =
    ("porkbun", porkbun)
    ∷ ("cloudflare", cloudflare)
    ∷ ("route53", route53)
    ∷ ("namecheap", namecheap)
    ∷ ("null", null)
    ∷ []

abbrev pub registry_entry {ℓ} : {A : Type ℓ} → String → List (String × A) → Option A
registry_entry name [] = none
registry_entry name ((key, value) ∷ rest) =
    let found = registry_entry name rest in if name == key then some value else found

-- `construct` is `cls()`, which raises if a credential is missing.
unfoldable pub get_provider :
    {S : Type 0} → (ProviderClass → Result (DnsProvider S)) → String → Result (DnsProvider S)
unfolding registry
get_provider construct name = elim (registry_entry name registry) [
  | none ↦ uncaught
  | some class ↦ construct class
]

abbrev pub null_provider : {S : Type 0} → DnsProvider S
null_provider = record {
  set_txt = λ domain name value. pure tt;
  delete_txt = λ domain name. pure tt;
}

-- `s.removesuffix(t)` for a text `t` that is not empty.
unfoldable pub remove_suffix : String → String → String
remove_suffix String.[] t = String.[]
remove_suffix (String.◌∷◌ c s) t =
    let rest = remove_suffix s t in if String.◌∷◌ c s == t then String.[] else String.◌∷◌ c rest
