-- ===== src/Config.antt =====
-- src/jackdaw/config.py: the settings that the modelled code reads. The integers are natural
-- numbers; a negative setting is not modelled.
use Prim.Native.Char.{Char, code}
use Prim.Native.Nat.{ℕ}
use jackdaw.Base.{
  String, ◌<>◌, ◌≡◌, refl, Bool, true, ◌||◌, List, [], ◌∷◌, map, eqb, if◌then◌else◌, ◌==◌,
  starts_with,
}
use jackdaw.Base.Text.{strip, rstrip_char}

pub record Settings : Type 0 where
  pub relay_domain : String
  pub nonce_ttl : ℕ
  pub nonce_max : ℕ
  pub serve_tls : Bool
  pub allowed_domains : String
  pub challenge_http_port : ℕ
  pub challenge_retries : ℕ
  pub dns_zone_overrides : String
  pub order_rate_limit : ℕ
  pub order_rate_window : ℕ

-- Puts a character in front of the first part.
abbrev push_first : Char → List String → List String
push_first c [] = String.◌∷◌ c "" ∷ []
push_first c (p ∷ ps) = String.◌∷◌ c p ∷ ps

-- `text.split(ch)` for a text of one character.
unfoldable pub split_at : ℕ → String → List String
split_at n String.[] = "" ∷ []
split_at n (String.◌∷◌ c s) =
    let parts = split_at n s in if eqb (code c) n then "" ∷ parts else push_first c parts

-- `[d.strip() for d in parts if d.strip()]`
unfoldable pub strip_all : List String → List String
unfolding strip
strip_all [] = []
strip_all (d ∷ ds) = let rest = strip_all ds in if strip d == "" then rest else strip d ∷ rest

unfoldable pub relay_base_url : Settings → String
unfolding rstrip_char
relay_base_url s =
    if starts_with s.relay_domain "http://" || starts_with s.relay_domain "https://"
    then rstrip_char b'/' s.relay_domain
    else "https://" <> s.relay_domain

unfoldable pub allowed_domain_list : Settings → List String
unfolding split_at strip_all
allowed_domain_list s =
    if s.allowed_domains == "" then [] else strip_all (split_at b',' s.allowed_domains)

unfoldable pub dns_zone_override_list : Settings → List String
unfolding split_at strip_all rstrip_char
dns_zone_override_list s =
    if s.dns_zone_overrides == ""
    then []
    else map (rstrip_char b'.') (strip_all (split_at b',' s.dns_zone_overrides))

abbrev pub defaults : Settings
defaults = record {
  relay_domain = "relay.example.com";
  nonce_ttl = 600;
  nonce_max = 10000;
  serve_tls = true;
  allowed_domains = "";
  challenge_http_port = 80;
  challenge_retries = 3;
  dns_zone_overrides = "";
  order_rate_limit = 0;
  order_rate_window = 604800;
}

base_url : relay_base_url defaults ≡ "https://relay.example.com"
unfolding relay_base_url
base_url = refl

two_domains :
    allowed_domain_list (record defaults { allowed_domains = "example.com, ,corp.test" })
    ≡ "example.com" ∷ "corp.test" ∷ []
unfolding allowed_domain_list
two_domains = refl
