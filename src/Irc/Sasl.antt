-- ===== src/Irc/Sasl.antt =====
-- pkg/irc/sasl.go: the mechanisms and their steps. The SCRAM conversation is the library's: a record of
-- its answers is a parameter, and a conversation is known by the challenges that it has been given.
pub mod Chunks
use dispatch.Base.{
  ℕ, zero, suc, Bytes, Bool, true, false, not, ◌&&◌, List, [], ◌∷◌, ◌++◌, Option, none, some, codes,
  ◌==◌, bytes_eq, if◌then◌else◌, contains, map, length, leb, drop, is_empty, has_prefix,
}
use dispatch.Base.Base64.{encode64, decode64}

pub record Scram : Type 0 where
  -- `NewClient(username, password, "")` of a hash returns no error
  pub accepts : Bytes → Bytes → Bytes → Bool
  -- hash, username, password, earlier challenges, challenge: the response and `Done()`; `none` is an error
  pub respond : Bytes → Bytes → Bytes → List Bytes → Bytes → Option (Bytes × Bool)

pub data Mech : Type 0 where
  plain : Bytes → Bytes → Mech
  external : Mech
  scram : Bytes → Bytes → Bytes → Option (List Bytes) → Mech

-- `Name`
unfoldable pub mech_name : Mech → Bytes
mech_name (plain username password) = codes "PLAIN"
mech_name external = codes "EXTERNAL"
mech_name (scram username password hash conv) = codes "SCRAM-" ++ hash

abbrev scram_hashes : List Bytes
scram_hashes = map codes ("SHA-512" ∷ "SHA-256" ∷ "SHA-1" ∷ [])

-- `s.conv`, begun if there is none; `none` is an error
abbrev begin_conv : Scram → Bytes → Bytes → Bytes → Option (List Bytes) → Option (List Bytes)
begin_conv lib username password hash (some past) = some past
begin_conv lib username password hash none =
    if contains scram_hashes hash
    then if lib.accepts hash username password then some [] else none
    else none

-- The response to a challenge, once there is a conversation.
abbrev scram_answer :
    Scram → Bytes → Bytes → Bytes → List Bytes → Option Bytes → Mech × Option Bytes
scram_answer lib username password hash past none = (scram username password hash (some past), none)
scram_answer lib username password hash past (some challenge) =
    elim (lib.respond hash username password past challenge) [
      | none ↦ (scram username password hash (some (past ++ challenge ∷ [])), none)
      | some (res, done) ↦
          if done
          then (scram username password hash none, some (codes "+"))
          else (scram username password hash (some (past ++ challenge ∷ [])), some (encode64 res))
    ]

-- `Step`: the mechanism after it and the response, `none` for an error.
unfoldable pub mech_step : Scram → Mech → Bytes → Mech × Option Bytes
unfolding encode64 decode64
mech_step lib (plain username password) response =
    (plain username password, some (encode64 (username ++ (0 ∷ (username ++ (0 ∷ password))))))
mech_step lib external response = (external, some (codes "+"))
mech_step lib (scram username password hash conv) response =
    elim (begin_conv lib username password hash conv) [
      | none ↦ (scram username password hash conv, none)
      | some past ↦
          scram_answer lib username password hash past
            (if not (response == codes "+") then decode64 response else some [])
    ]

-- The loop of `handleSASL` that sends a response, with a bound on its rounds.
unfoldable auth_chunks_from : ℕ → Bytes → List Bytes
auth_chunks_from zero auth = (if is_empty auth then codes "+" else auth) ∷ []
auth_chunks_from (suc rounds) auth =
    let rest = auth_chunks_from rounds (drop 400 auth) in
    if leb 400 (length auth) then auth ∷ rest else (if is_empty auth then codes "+" else auth) ∷ []

-- What is authenticated with, line by line. Every round drops 400 bytes, so the length bounds them.
unfoldable pub auth_chunks : Bytes → List Bytes
unfolding auth_chunks_from
auth_chunks auth = auth_chunks_from (length auth) auth

abbrev pub sasl_config : Bytes → Bytes → Bool
sasl_config account password = not (is_empty account) && not (is_empty password)

-- `initSASL`: the mechanisms that the configuration allows, in its order.
unfoldable pub init_mechanisms : Bool → Bytes → Bytes → List Bytes → List Mech
init_mechanisms has_cert account password [] = []
init_mechanisms has_cert account password (m ∷ ms) =
    let rest = init_mechanisms has_cert account password ms in
    if m == codes "EXTERNAL"
    then if has_cert then external ∷ rest else rest
    else if sasl_config account password
    then if m == codes "PLAIN"
      then plain account password ∷ rest
      else if has_prefix m (codes "SCRAM-")
      then scram account password (drop 6 m) none ∷ rest
      else rest
    else rest
