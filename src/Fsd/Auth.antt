-- ===== src/Fsd/Auth.antt =====
-- fsd/vatsimauth.go: the answers to a client's challenges. MD5 is a parameter.
use openfsd.Prelude.{
  ℕ, ◌+◌, ◌/◌, ◌%◌, [], ◌∷◌, ◌++◌, Option, none, some, length, take, drop, ltb, ◌==◌, if◌then◌else◌,
}
use openfsd.Prelude.Bytes.{Bytes, codes}
use openfsd.Fsd.Client.{AuthState}

abbrev hex_digit : ℕ → ℕ
hex_digit d = if ltb d 10 then d + 48 else d + 87

-- `hex.Encode`.
unfoldable pub hex : Bytes → Bytes
hex [] = []
hex (b ∷ s) = hex_digit (b / 16) ∷ hex_digit (b % 16) ∷ hex s

-- `vatsimAuthKeys`.
unfoldable pub auth_key : ℕ → Option Bytes
auth_key id =
    if id == 8464
    then some (codes "945507c4c50222c34687e742729252e6")
    else if id == 10452
    then some (codes "0ad74157c7f449c216bfed04f3af9fb9")
    else if id == 24515
    then some (codes "3424cbcebcca6fe95f973b350ff85cef")
    else if id == 27095
    then some (codes "3518a62c421937ffa46ac3316957da43")
    else if id == 33456
    then some (codes "52d9343020e9c7d0c6b04b0cca20ad3b")
    else if id == 35044
    then some (codes "fe28334fb753cf0e3d19942197b9ce3e")
    else if id == 48312
    then some (codes "bc2eb1ef4d96709c683084055dd5e83f")
    else if id == 55538
    then some (codes "ImuL1WbbhVuD8d3MuKpWn2rrLZRa9iVP")
    else if id == 56862
    then some (codes "3518a62c421937ffa46ac3316957da43")
    else none

module _ (md5 : Bytes → Bytes) where
  -- The order of the parts: two halves of the challenge, three parts of 12, 10 and 10 of the key.
  unfoldable pub obfuscate : ℕ → Bytes → Bytes → Bytes
  obfuscate id key challenge =
      let half = length challenge / 2 in
      let odd = id % 2 == 1 in
      let c1 = if odd then drop half challenge else take half challenge in
      let c2 = if odd then take half challenge else drop half challenge in
      let s1 = take 12 key in
      let s2 = take 10 (drop 12 key) in
      let s3 = take 10 (drop 22 key) in
      md5 (
        if id % 3 == 0
        then s1 ++ (c1 ++ (s2 ++ (c2 ++ s3)))
        else if id % 3 == 1
        then s2 ++ (c1 ++ (s3 ++ (c2 ++ s1)))
        else s3 ++ (c1 ++ (s1 ++ (c2 ++ s2))))

  -- `Initialize`; none is the error, which leaves the state as it was.
  unfoldable pub initialize : ℕ → Bytes → Option AuthState
  initialize id challenge = elim (auth_key id) [
    | none ↦ none
    | some key ↦
        let start = obfuscate id key challenge in
        some (record { init = start; curr = start; client_id = id })
  ]

  -- `GetResponseForChallenge`.
  unfoldable pub response : AuthState → Bytes → Bytes
  response s challenge = hex (obfuscate s.client_id (hex s.curr) challenge)

  -- `UpdateState`.
  unfoldable pub update_state : AuthState → Bytes → AuthState
  update_state s answer = record s { curr = md5 (hex s.init ++ answer) }
