-- ===== src/Lib.antt =====
-- openfsd.
--
-- openfsd is a flight simulation network: an FSD server (fsd/, Go) that pilots' and controllers'
-- clients connect to with a line protocol, a web server (web/, Go) with an API over the users'
-- database (db/, Go), and web pages (web/static/js/openfsd/, JavaScript) that call this API.
--
-- A client of the FSD server sends packets. The server checks each one (fsd/packet.go), and its
-- handlers write positions to the post office (fsd/postoffice.go), which finds other clients by
-- callsign and by range, and put packets into other clients' channels (fsd/util.go, fsd/client.go).
-- A connection first logs in with two packets and a password or a token (fsd/conn.go, fsd/jwt.go),
-- and METARs come from a pool of workers (fsd/metar.go). The web pages keep two tokens in the browser's
-- storage (api.js), which web/auth.go gives out; their requests reach the endpoints of web/user.go
-- and web/config.go, which write to the tables of users and settings (db/user_sqlite.go,
-- db/config_sqlite.go), and web/fsdconn.go, which asks the FSD server's service to end a client's
-- connection (fsd/http_service.go). Both servers read the same table of settings for the secret that
-- signs the tokens.
--
-- Files:
--   Prelude           shared names, lists, bytes, integers and decimal texts
--   Packet/Fields     fsd/util.go: countFields, rebaseToNextField, getField; Split and Join have the
--                     list of fields that a packet stands for
--   Packet/Types      fsd/packet.go: packet types, getPacketType, getPacketPrefix, minFields
--   Packet/Verify     fsd/packet.go: getSourceCallsign, verifySourceCallsign, verifyPacket
--   Packet/Code       fsd/util.go: the error codes
--   Callsign          fsd/util.go: isValidClientCallsign; Facility: isAllowedFacilityType
--   Fsd/Env           float64, strconv and the R-tree of github.com/tidwall/rtree, as parameters with
--                     the laws that the server relies on
--   Fsd/Client        fsd/client.go: Client, send, sendError
--   Fsd/PostOffice    fsd/postoffice.go: all operations, on a store of clients by their addresses, the
--                     map from callsigns and the tree; Invariant says when map and tree agree
--   Fsd/Broadcast     fsd/util.go: the broadcasts, sendDirectOrErr, forwardClientQuery
--   Fsd/Numbers       the integers that the handlers read with strconv
--   Fsd/Auth          fsd/vatsimauth.go; MD5 is a parameter
--   Fsd/Handlers      fsd/handler.go: Text, Query and Position have the handlers; Plans is about the
--                     flight plan packets of fsd/util.go
--   Fsd/Server        fsd/client.go, eventLoop, and getHandler: one packet of one client; Steps has the
--                     server's steps with the connections of fsd/conn.go, Distinct and Everyone
--                     are about the map and the broadcasts to all, and Directory is the abstract
--                     view of the post office with the steps as changes of it
--   Fsd/Jwt           fsd/jwt.go, and mostLikelyJwt of fsd/util.go
--   Fsd/Login         fsd/conn.go: Read has readLoginPackets, Authenticate attemptAuthentication, Conn
--                     handleConn with the packets that it sends; Vouching, Needs and Entered are about
--                     who gets in, Reached about the states behind, FieldsRead and Announced about
--                     the packets by their fields
--   Fsd/Metar         fsd/metar.go: the queue, the workers' rounds in any order, and the answers
--   Fsd/Service       fsd/http_service.go: the middleware and the two handlers
--   Db/Users          db/user_sqlite.go: CreateUser, GetUserByCID, UpdateUser
--   Db/Config         db/config_repository.go and db/config_sqlite.go
--   Session           web/auth.go; Issued has its getFsdJwt, and web/api_tokens.go; Kick has
--                     web/fsdconn.go with the request of web/data.go that it makes, and the FSD
--                     server's answer to it
--   Configuration     web/config.go
--   Users             web/user.go: getUserByCID, updateUser, createUser
--   Web/Base64        what api.js uses of window.atob, and its replacement of characters
--   Web/Api           web/static/js/openfsd/api.js, all functions
--   Web/UserEditor    web/static/js/openfsd/usereditor.js: Forms, and the password meter
--   Web/ConfigEditor  web/static/js/openfsd/configeditor.js: the form of the settings
--                     and NewToken for an API token; Web/Dates has what it uses of Date
--   Web/Messages      the alerts and messages of configeditor.js, usereditor.js and dashboard.js
--   Web/Dashboard     web/static/js/openfsd/dashboard.js: the panel and the map
--   Web/Login         web/static/js/openfsd/login.js
--
-- State is passed explicitly. A JavaScript function that awaits an answer is two steps, before and
-- behind the wait, so that what the page does in between can stand between them. An operation of the
-- post office, and the handling of a packet, is one step: locks and the interleaving of handlers are
-- not modelled. What a client was sent is a list, since the channel's bound only makes a sender wait.
-- Loops go along a list. Two loops are on fuel: a decimal number n is printed with fuel n + 1, and has
-- at most that many digits (Prelude/Decimal); a date that is n days behind the first of a month is
-- found with fuel n + 1, since every month that is passed takes 28 days at least (Web/Dates).
--
-- A connection's scanner and socket are inputs: two lines, and how many packets the socket takes
-- before a write fails. Times are whole seconds, and the ids and random bytes that the servers draw are
-- arguments. What a token says is what golang-jwt signed, by the laws of Fsd/Jwt: a token parses as its
-- claims under its own secret and issuer until it expires, and under no other secret.
--
-- Texts are lists of bytes or code units where the code looks into them. Integers are unbounded where
-- the code only compares them, and have their bounds in Fsd/Numbers. Floats, bcrypt, MD5, the JSON
-- reader and the browser's reading of HTML are parameters.
--
-- Not modelled: the start of the servers, their listeners, routes, environment and goroutines; the data
-- feed's cache and the page templates of the web server; SQL itself and the migrations; the server's
-- wait for a full channel; the map library that draws the dashboard's markers; and what is only shown
-- (the opening of modal windows, popups' texts, the console).
pub mod Prelude
pub mod Packet
pub mod Callsign
pub mod Web
pub mod Db
pub mod Users
pub mod Fsd
pub mod Session
pub mod Configuration
