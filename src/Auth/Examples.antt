-- ===== src/Auth/Examples.antt =====
-- cmux/src/socket/auth.rs: tests of authorization, of hexadecimal and of the comparison.
use cmux_gtk.Prelude.{
  ℕ, ◌≡◌, ◌↔◌, refl, Str, codes, true, false, Option, none, some, List, [], ◌∷◌, ◌++◌, ◌==◌, arith,
  if◌then◌else◌,
}
use cmux_gtk.Auth.{
  PeerInfo, cmux_only, hex_encode, hex_decode, is_authorized, verify_hmac, verify_hmac_raw,
}
use cmux_gtk.Auth.Hex.{hex_decode-hex_encode}
use cmux_gtk.Auth.Compare.{verify_hmac_raw_iff}
use cmux_gtk.Auth.Ancestry.{Within, is_authorized_iff}

-- Process 30 is a child of 20, and 20 of 10.
abbrev status_of : ℕ → Option Str
status_of pid =
    if pid == 30
    then some (codes "Name:\tsh\nPPid:\t20\n")
    else if pid == 20
    then some (codes "Name:\tcmux\nPPid:\t10\n")
    else none

abbrev peer : PeerInfo
peer = record { pid = 30; uid = 1000; gid = 1000 }

lets_descendant_in :
    (is_authorized status_of 1000 peer cmux_only 10 ≡ true)
    × (is_authorized status_of 1000 peer cmux_only 40 ≡ false)
unfolding is_authorized
lets_descendant_in = (refl, refl)

-- One character of two bytes is not hexadecimal, and decodes to no bytes.
decode_lone : hex_decode (0xe9 ∷ []) ≡ some []
unfolding hex_decode
decode_lone = refl

abbrev toy_hash : List ℕ → List ℕ → List ℕ
toy_hash key message = key ++ message

is_authorized_iff_example :
    (is_authorized status_of 1000 peer cmux_only 10 ≡ true)
    ↔ ((peer.uid ≡ 1000) × Within status_of 30 10)
is_authorized_iff_example = is_authorized_iff status_of 1000 peer 10 (omega arith)

hex_decode-hex_encode_example :
    hex_decode (hex_encode (0 ∷ 171 ∷ 255 ∷ [])) ≡ some (0 ∷ 171 ∷ 255 ∷ [])
hex_decode-hex_encode_example =
    hex_decode-hex_encode (0 ∷ 171 ∷ 255 ∷ []) (omega arith, (omega arith, (omega arith, tt)))

verify_hmac_raw_iff_example :
    ((verify_hmac_raw toy_hash (1 ∷ []) (2 ∷ []) (codes "0102") ≡ true)
      ↔ (codes "0102" ≡ hex_encode (1 ∷ 2 ∷ [])))
    × (verify_hmac toy_hash (1 ∷ []) (2 ∷ []) (codes "0102")
        ≡ verify_hmac_raw toy_hash (1 ∷ []) (2 ∷ []) (codes "0102"))
verify_hmac_raw_iff_example = verify_hmac_raw_iff toy_hash (1 ∷ []) (2 ∷ []) (codes "0102")
