-- ===== src/Lib.antt =====
-- MtProGo: a Telegram client library. This library models its protocol layer (mtproto/), its
-- update layer (updates/, filters/) and the bot and client that stand on both (mtproto_bot.go,
-- client.go).
--
-- The protocol layer, from the wire upwards. Abridged models the packets on a connection
-- (mtproto/abridged.go), Unencrypted the messages before a session has a key. Tl models the TL
-- serialization (mtproto/tl.go): Tl.Writer is `tlBuffer`, Tl.Reader is `tlReader`, with parsers as
-- functions from a reader to a value and a reader or to an error. Crypto is xor, comparison,
-- AES-IGE and the uses of SHA-1 (mtproto/crypto.go), with Crypto.Big and Crypto.Modular for the
-- numbers of math/big. Auth is the exchange of a key (mtproto/auth.go, mtproto/probe.go,
-- mtproto/rsa_keys.go): Auth.ResPq the first answer, Auth.Factor the factors of pq, Auth.RsaPad
-- and Auth.ServerDh the second request and its answer, Auth.ClientDh the third, Auth.OnConn all
-- three, as `authKeyOnConn` makes them. Password is the login by SRP (mtproto/password.go). Invoke
-- is the encrypted session
-- (mtproto/invoke.go): Invoke.State its numbers and ids, Invoke.Packet the packets, Invoke.Handle
-- what a message does, Invoke.Rpc the results, Invoke.Loop the request with its retries, which
-- writes and reads with Abridged. State and Peers are what a response tells about the update state
-- (mtproto/state.go) and about users and chats (mtproto/peers.go), InputPeer how a query names them
-- (mtproto/client.go), Highlevel the other queries and the users of a response
-- (mtproto/highlevel.go), Account the queries of a login, the wrapping of a first query and the
-- search for a data center (mtproto/account.go, mtproto/client.go), Session what a client keeps
-- for later runs (mtproto/session.go), Media files in parts (mtproto/media.go), and Difference the
-- parser of `updates.getDifference` (mtproto/difference.go), which uses State and Peers.
--
-- The update layer. Message is a message and its dialog id (updates/message.go), Filters the
-- filters (filters/filters.go), Cache the ring of messages and the bounded peer cache
-- (updates/cache.go), and Dispatcher the routes that bring them together
-- (updates/dispatcher.go, updates/options.go). What a handler does outside is a change of a state
-- of any type.
--
-- Client is the configuration of a client and of a bot (client.go). Bot is the polling bot
-- (mtproto_bot.go): Bot.Peers its map of peers, Bot.State its state of updates, Bot.Poll what it
-- does with a difference, for which it calls the Dispatcher, Bot.Backoff and Bot.Retry its waits,
-- with Bot.FloodWait for the errors that ask for them (mtproto/invoke.go), and Bot.Methods what it
-- sends.
--
-- Prelude holds the shared names: native numbers with the library's list functions over them, the
-- integers, machine words with their wrap-around, Go's errors, maps as association lists, and
-- strings as bytes. Tests runs the models on concrete inputs.
--
-- Fuel. `handle_message` nests as deep as containers do, and is given one more than the length of
-- the message. `read_replies` takes a byte of the connection in every round, and is given one more
-- than the bytes that wait. The scans of Peers and State are given a unit for each byte of the
-- body. The padding and alignment loops take at most three rounds. The bytes of a number take a
-- unit for each unit of the number, and the factorisation a unit for each unit of pq. A download
-- takes one for each byte and one more. The loops that wait for a good draw, for the end of a flood
-- wait or for the right data center have no bound of their own: they are given fuel, and end as
-- soon as what they wait for is there.
--
-- Parameters: SHA-1, SHA-256, HMAC with SHA-512, MD5, AES, gzip, the trimming of white space, the
-- numbers of strconv.Atoi, JSON and base64, the base of a path, the primality test of math/big, the
-- table of RSA keys, the clock and the random source. The key exchange takes any factors of pq.
--
-- Not modelled: HTTP and files; deadlines and locks; nil receivers; the opening of connections, the
-- ticker and the reconnection of the bot; how much memory `make` takes.
pub mod Prelude
pub mod Tl
pub mod Abridged
pub mod Account
pub mod Auth
pub mod Bot
pub mod Cache
pub mod Media
pub mod Message
pub mod Password
pub mod Filters
pub mod Dispatcher
pub mod Peers
pub mod Unencrypted
pub mod Highlevel
pub mod InputPeer
pub mod Invoke
pub mod Client
pub mod Crypto
pub mod Session
pub mod State
pub mod Difference
pub mod Tests
