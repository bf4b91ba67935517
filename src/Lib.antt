-- ===== src/Lib.antt =====
-- GSM2MQTT: a gateway between GSM modems and MQTT, in Go. This library models the parts of it that
-- compute: the SMS PDU codec, the security policies that guard what is sent, the choice among several
-- modems, the checks, transliteration, delivery tracking and assembly of messages, the services that
-- send and receive messages and handle voice calls, and the topics and the bookkeeping of the MQTT client.
--
-- How the parts interact. A text to send comes from MQTT or HTTP to the SMS service; the number filter
-- and the rate limiter decide whether it may go, the PDU encoder turns it into one or more units,
-- and the modem driver writes them to the device. A unit that the device receives comes back through
-- the PDU decoder: a part of a message goes to the assembler, which puts messages together, a status
-- report to the tracker, which knows the messages that wait for one. The call service dials, answers
-- and hangs up, and follows what the modem reports of calls. The recipients' list says who is alerted.
-- With several modems, the pool orders those that are ready and tries them in turn. A raw AT command
-- from outside passes the sanitizer first.
--
-- The files and the code they model, by paths from the repository's root:
--   Base                 nothing of the program: lists, tests, bit operations, and what the program
--                        uses of Go's strings and encoding/hex (Base/Text)
--   Pdu/Septets          internal/sms/pdu/gsm7.go: PackSeptets, UnpackSeptets
--   Pdu/Alphabet         internal/sms/pdu/gsm7.go: the tables, IsGSM7, EncodeGSM7, DecodeGSM7
--   Pdu/Ucs2             internal/sms/pdu/ucs2.go, with Go's unicode/utf16 as documented
--   Pdu/Address          internal/sms/pdu/address.go
--   Pdu/Timestamp        internal/sms/pdu/timestamp.go
--   Pdu/Types            internal/sms/pdu/types.go, errors.go, and the type of a time
--   Pdu/Encode           internal/sms/pdu/encoder.go
--   Pdu/Decode           internal/sms/pdu/decoder.go, status_report.go
--   Security/Filter      internal/security/filter.go
--   Security/RateLimit   internal/security/ratelimit.go
--   Security/Sanitizer   internal/security/sanitizer.go
--   Security/Recipients  internal/security/recipients.go
--   Security/Mask        internal/security/mask.go
--   Security/Errors      internal/security/errors.go
--   Pool                 internal/pool/pool.go, strategy.go, errors.go; its child Facade: the requests
--                        other than SendSMS
--   Sms/Tracker          internal/sms/tracker.go
--   Sms/Validator        internal/sms/validator.go
--   Sms/Translit         internal/sms/translit.go
--   Sms/Assembler        internal/sms/assembler.go
--   Services/Call        internal/services/call.go; Services/Call/Urc: internal/services/call_urc.go
--   Services/Sms         internal/services/sms.go; Services/Sms/Urc: internal/services/sms_urc.go;
--                        Services/Sms/Storage: internal/services/sms_storage.go
--   Services/Inbox       internal/services/inbox.go; Services/History: internal/services/call_history.go
--   Services/Ussd        internal/services/ussd.go; Services/Manager: internal/services/manager.go
--   Ussd                 internal/ussd/parser.go, types.go, errors.go
--   Modem/Lines          internal/modem/at/urc.go
--   Modem/Engine         internal/modem/at/engine.go: the read loop and the routing of lines
--   Config/Dotenv        internal/config/dotenv.go
--   Mqtt/Topics          internal/mqtt/topics.go
--   Mqtt/Client          internal/mqtt/client_tcp.go: patterns, identifiers, Publish and its
--                        acknowledgements, handlers
-- The children of a module hold its proofs, and Runs its tests and witnesses.
--
-- How the code is rendered. A function of the source keeps its name in snake_case. A string is the
-- list of its code points, a slice of bytes a list of numbers below 256; the source's uint8 and
-- uint16 arithmetic is written with its remainder. A Go int that comes from bytes or lengths is a
-- natural number, and no such int of the modelled code is negative. An error is a constructor of the
-- component's error type. In the PDU decoder, UnpackSeptets and DecodeTimestamp,
-- an index or a slice out of range is the error `panic` of Pdu/Types, so that its absence can be stated;
-- DecodeAddress, DecodeUCS2 and DecodeGSM7 go through a slice element by element. State that the source mutates is passed and returned: the reference
-- counter, the rate limiter. Locks make each method one step, so a run is a sequence of calls; a
-- method of the call service that gives up its lock while the modem works is split there, and
-- Services/Call/Machine interleaves the parts. A map
-- is an association list. The clock's reading is an argument, in nanoseconds. The tables of Go's
-- package unicode are the parameter Security/Unicode; strings.ToLower and strings.EqualFold are
-- arguments. A timer that runs out is a call of its handler, at any time. A callback or a command to a device is an
-- effect, in the list of those that a call returns, and what a device answers is an argument. A modem
-- of the pool is a record of what it says of itself, and what it answers to a request is an argument.
-- The pool's counter wraps at 2 ^ 64, that of MQTT packets at 2 ^ 32. A key that the source prints
-- from several values stays their pair. A connection and a handler of the MQTT client are numbers.
--
-- Fuel. split_plain of Pdu/Encode runs on fuel, the number of the characters to split, of which each
-- round takes at least one, so that the fuel is enough; decimal of Base/Text on one more than the number, of
-- which each round takes away a digit. next_msg_id of Mqtt/Client has a bound on its rounds, of which two
-- are enough.
--
-- Not modelled: logging, the formatted texts of errors, files, sockets and the serial port, the
-- commands of the AT engine and the drivers, the bytes of MQTT packets, dialling and reconnecting, discovery payloads, HTTP,
-- YAML configuration, metrics, tariffs and the runner that connects the services.
pub mod Base
pub mod Pdu
pub mod Security
pub mod Pool
pub mod Sms
pub mod Mqtt
pub mod Services
pub mod Ussd
pub mod Config
pub mod Modem
