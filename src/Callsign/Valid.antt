-- ===== src/Callsign/Valid.antt =====
-- What a valid callsign is, and what follows for the packets that carry it.
use openfsd.Prelude.{◌≤◌, ◌≡◌, refl, ◌≢◌, ◌↔◌, true, [], ◌∷◌, arith, length, All, all}
use openfsd.Prelude.Bytes.{Bytes, codes, bytes_eq_iff}
use openfsd.Packet.Fields.Join.{IsField}
use openfsd.Callsign.{is_callsign_byte, is_valid_client_callsign}

pub record IsCallsign (callsign : Bytes) : Type 0 where
  pub at_least : 2 ≤ length callsign
  pub at_most : length callsign ≤ 10
  pub spelled : All (λ b. is_callsign_byte b ≡ true) callsign
  pub not_server : callsign ≢ codes "SERVER"
  pub not_client : callsign ≢ codes "CLIENT"
  pub not_fp : callsign ≢ codes "FP"

All-all : (s : Bytes) → all is_callsign_byte s ≡ true → All (λ b. is_callsign_byte b ≡ true) s
All-all [] h = tt
All-all (b ∷ s) h = (ground arith, All-all s (ground arith))

all-All : (s : Bytes) → All (λ b. is_callsign_byte b ≡ true) s → all is_callsign_byte s ≡ true
all-All [] h = refl
all-All (b ∷ s) (p, h) = ground (arith, all-All s h)

-- `isValidClientCallsign` accepts exactly the texts of 2 to 10 capitals, digits, hyphens and
-- underscores that are not reserved.
pub is_valid_client_callsign_iff :
    (callsign : Bytes) → (is_valid_client_callsign callsign ≡ true) ↔ IsCallsign callsign
unfolding is_valid_client_callsign
is_valid_client_callsign_iff callsign = (
  λ h. record {
    at_least = ground arith;
    at_most = ground arith;
    spelled = All-all callsign (ground arith);
    not_server = ground (arith, bytes_eq_iff callsign (codes "SERVER"));
    not_client = ground (arith, bytes_eq_iff callsign (codes "CLIENT"));
    not_fp = ground (arith, bytes_eq_iff callsign (codes "FP"));
  },
  λ v. ground (
    arith,
    all-All callsign v.spelled,
    bytes_eq_iff callsign (codes "SERVER"),
    bytes_eq_iff callsign (codes "CLIENT"),
    bytes_eq_iff callsign (codes "FP"),
  ),
)

IsField-spelled : (s : Bytes) → All (λ b. is_callsign_byte b ≡ true) s → IsField s
IsField-spelled [] h = tt
IsField-spelled (b ∷ s) (p, h) = ((ground arith, ground arith), IsField-spelled s h)

-- A valid callsign can stand as a field of a packet: it holds no colon and no carriage return.
pub IsCallsign-IsField : (callsign : Bytes) → IsCallsign callsign → IsField callsign
IsCallsign-IsField callsign v = IsField-spelled callsign v.spelled
