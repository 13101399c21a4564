-- ===== src/Fsd/Metar.antt =====
-- fsd/metar.go: the queue of METAR requests, its workers, and the answer to a request.
pub mod File
pub mod Rounds
pub mod Served
use openfsd.Prelude.{
  ℕ, zero, suc, ◌+◌, Bool, not, List, [], ◌∷◌, ◌++◌, Option, none, some, drop, ◌==◌, if◌then◌else◌,
  ◌<◌, ◌≡◌, length,
}
use openfsd.Prelude.Bytes.{Bytes, codes, crlf}
use openfsd.Packet.Code
use openfsd.Packet.Fields.{count_byte, cut_at}
use openfsd.Fsd.Env.{Env}
use openfsd.Fsd.Client.{Client, send, error_packet}
use openfsd.Fsd.PostOffice.{World, modify}

-- What the weather service comes to: no connection, or a status with a body, none where it breaks
-- off.
pub data Fetched : Type 0 where
  unreachable : Fetched
  answered : ℕ → Option Bytes → Fetched

-- `buildMetarRequestURL`.
abbrev pub request_url : Bytes → Bytes
request_url icao =
    codes "https://tgftp.nws.noaa.gov/data/observations/metar/stations/" ++ (icao ++ codes ".TXT")

unfoldable pub zeros : ℕ → Bytes
zeros zero = []
zeros (suc n) = 0 ∷ zeros n

-- What stands behind the first line end.
unfoldable pub after_line : Bytes → Bytes
after_line [] = []
after_line (c ∷ s) = if c == 10 then s else after_line s

-- `resBody[:IndexByte(resBody, '\n')+1]`, where there is a line end.
abbrev pub first_line : Bytes → Bytes
first_line s = cut_at 10 s ++ (10 ∷ [])

-- The second line with its end; none where there are not two line ends. The buffer starts with 512
-- zeros, which stand in front of the first line.
unfoldable pub metar_of : Bytes → Option Bytes
unfolding after_line count_byte cut_at
metar_of body =
    if count_byte 10 (zeros 512 ++ body) == 2
    then some (first_line (after_line (zeros 512 ++ body)))
    else none

abbrev pub metar_of_answer : Fetched → Option Bytes
metar_of_answer unreachable = none
metar_of_answer (answered status none) = none
metar_of_answer (answered status (some body)) = if status == 200 then metar_of body else none

unfoldable pub build_metar_response_packet : Bytes → Bytes → Bytes
build_metar_response_packet callsign metar =
    codes "$ARSERVER:" ++ (callsign ++ (codes ":METAR:" ++ (metar ++ crlf)))

module _ (env : Env) where
  -- The packet that `handleMetarRequest` sends.
  unfoldable pub metar_reply : Bytes → Bytes → Fetched → Bytes
  unfolding metar_of build_metar_response_packet
  metar_reply callsign icao answer = elim (metar_of_answer answer) [
    | none ↦ error_packet env Code.no_weather_profile (codes "Error fetching METAR for " ++ icao)
    | some metar ↦ build_metar_response_packet callsign metar
  ]

  -- `handleMetarRequest` behind the answer of the weather service.
  unfoldable pub serve_request : ℕ × Bytes → Fetched → World env → World env
  unfolding metar_reply
  serve_request (id, icao) answer w =
      modify env id (send env (metar_reply (w.clients id).callsign icao answer)) w

  -- The world and the requests that the workers have taken: a worker that has taken none waits for
  -- the channel.
  pub record Service : Type 0 where
    pub world : World env
    pub busy : List (ℕ × Bytes)

  -- The rounds of so many workers: an idle worker takes the oldest request, and any busy worker's
  -- request is answered.
  pub data Works (workers : ℕ) : Service → Service → Type 0 where
    takes :
        {s : Service} (q : ℕ × Bytes) (rest : List (ℕ × Bytes))
        → s.world.metar_requests ≡ q ∷ rest
        → length s.busy < workers
        → Works workers s
            (record { world = record s.world { metar_requests = rest }; busy = q ∷ s.busy })
    answers :
        {s : Service} (before after : List (ℕ × Bytes)) (q : ℕ × Bytes) (answer : Fetched)
        → s.busy ≡ before ++ (q ∷ after)
        → Works workers s
            (record { world = serve_request q answer s.world; busy = before ++ after })
