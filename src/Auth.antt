-- ===== src/Auth.antt =====
-- cmux/src/socket/auth.rs: who may use the control socket. The user of the process, the text of
-- /proc/PID/status and the keyed hash (the crates hmac and sha2, which take a key of any length)
-- are parameters.
use cmux_gtk.ProcStatus.{read_ppid}
pub mod Hex
pub mod Bits
pub mod Compare
pub mod Ancestry
pub mod Examples
use Prim.Native.Nat.{bit_or, bit_xor}
use cmux_gtk.Prelude.{
  ℕ, zero, suc, ◌+◌, ◌-◌, ◌*◌, ◌/◌, ◌%◌, ◌==◌, ltb, leb, Str, codes, byte_len, list_eq, Bool, true,
  false, not, ◌&&◌, Option, none, some, List, [], ◌∷◌, ◌++◌, length, if◌then◌else◌,
}

pub record PeerInfo : Type 0 where
  pub pid : ℕ
  pub uid : ℕ
  pub gid : ℕ

pub data SocketControlMode : Type 0 where
  off cmux_only local_user automation allow_all : SocketControlMode

-- The variable CMUX_SOCKET_MODE, if it is set.
pub from_env : Option Str → SocketControlMode
from_env none = local_user
from_env (some mode) =
    if list_eq mode (codes "off")
    then off
    else if list_eq mode (codes "allowAll")
    then allow_all
    else if list_eq mode (codes "cmuxOnly")
    then cmux_only
    else if list_eq mode (codes "automation")
    then automation
    else local_user

-- A digit of `{:02x}`
hex_digit : ℕ → ℕ
hex_digit d = if ltb d 10 then 48 + d else 87 + d

pub hex_encode : List ℕ → Str
unfolding hex_digit
hex_encode [] = []
hex_encode (b ∷ bytes) = hex_digit (b / 16) ∷ hex_digit (b % 16) ∷ hex_encode bytes

-- `char::to_digit(16)`
to_digit : ℕ → Option ℕ
to_digit c =
    if leb 48 c && leb c 57
    then some (c - 48)
    else if leb 97 c && leb c 102
    then some (c - 87)
    else if leb 65 c && leb c 70
    then some (c - 55)
    else none

abbrev push_front : ℕ → ℕ → Option (List ℕ) → Option (List ℕ)
push_front hi lo none = none
push_front hi lo (some bytes) = some (bit_or (hi * 16) lo % 256 ∷ bytes)

-- The loop of `hex_decode`: it ends when fewer than two characters are left.
pub decode_pairs : Str → Option (List ℕ)
unfolding to_digit
decode_pairs [] = some []
decode_pairs (a ∷ []) = some []
decode_pairs (a ∷ b ∷ s) =
    let rest = decode_pairs s in
    elim (to_digit a) [
      | none ↦ none
      | some hi ↦ elim (to_digit b) [ none ↦ none | some lo ↦ push_front hi lo rest ]
    ]

pub hex_decode : Str → Option (List ℕ)
unfolding decode_pairs
hex_decode s = if byte_len s % 2 == 0 then decode_pairs s else none

-- `zip(..).fold(0u8, |acc, (a, b)| acc | (a ^ b))`
pub difference : ℕ → List ℕ → List ℕ → ℕ
difference acc (a ∷ s) (b ∷ t) = difference (bit_or acc (bit_xor a b)) s t
difference acc _ _ = acc

-- A text whose characters are all ASCII is its bytes; `response` is the bytes of `response_hex`.
pub same_bytes : List ℕ → List ℕ → Bool
unfolding difference
same_bytes expected response =
    if length expected == length response then difference 0 expected response == 0 else false

module _ (hmac : List ℕ → List ℕ → List ℕ) where
  pub compute_hmac_sha256 : List ℕ → List ℕ → List ℕ
  compute_hmac_sha256 key data_bytes = hmac key data_bytes

  pub verify_hmac_raw : List ℕ → List ℕ → List ℕ → Bool
  unfolding hex_encode same_bytes
  verify_hmac_raw key message response = same_bytes (hex_encode (hmac key message)) response

  -- `password` is its bytes.
  pub verify_hmac : List ℕ → List ℕ → List ℕ → Bool
  unfolding hex_encode same_bytes
  verify_hmac password challenge response =
      same_bytes (hex_encode (hmac password challenge)) response

-- `getuid` gives the user of the process.
pub is_same_user : ℕ → PeerInfo → Bool
is_same_user getuid peer = peer.uid == getuid

-- The loop of `is_descendant`, with the rounds that are left.
pub walk : (ℕ → Option ℕ) → ℕ → ℕ → ℕ → Bool
walk parent zero current ancestor_pid = false
walk parent (suc n) current ancestor_pid =
    if current == ancestor_pid
    then true
    else if leb current 1
    then false
    else elim (parent current) [
      | none ↦ false
      | some ppid ↦ if ppid == current then false else walk parent n ppid ancestor_pid
    ]

module _ (read_status : ℕ → Option Str) where
  pub is_descendant : ℕ → ℕ → Bool
  unfolding walk read_ppid
  is_descendant pid ancestor_pid =
      if pid == 0 then false else walk (read_ppid read_status) 64 pid ancestor_pid

  pub is_authorized : ℕ → PeerInfo → SocketControlMode → ℕ → Bool
  unfolding is_same_user is_descendant
  is_authorized getuid peer off server_pid = false
  is_authorized getuid peer allow_all server_pid = true
  is_authorized getuid peer local_user server_pid = is_same_user getuid peer
  is_authorized getuid peer automation server_pid = is_same_user getuid peer
  is_authorized getuid peer cmux_only server_pid =
      is_same_user getuid peer && is_descendant peer.pid server_pid
