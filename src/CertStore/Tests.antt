-- ===== src/CertStore/Tests.antt =====
-- Serial numbers in hexadecimal.
use jackdaw.CertStore.{serial_hex}
use jackdaw.Base.{◌≡◌, refl}

hex_small : serial_hex 10 ≡ "a"
unfolding serial_hex
hex_small = refl

hex_large : serial_hex 48879 ≡ "beef"
unfolding serial_hex
hex_large = refl
