-- ===== src/Lib.antt =====
-- at-message-forward: a daemon that reads text messages (SMS) from a cellular modem over AT commands
-- and pushes them to Telegram.
--
-- The parts of the program and the files that model them:
--   internal/sms/sms.go              Sms: Hex, Alphabet, Gsm7, Ucs2, Pdu, Indication. `ParseCMTIndication` is
--     `parse_cmt_indication`, `DecodePDU` is `decode_pdu`, `decodeDeliverTPDU` is `decode_deliver_tpdu`, and
--     so on, each under the name of the source. A closure that reads from a position is a reader that
--     takes the text that is left and returns what is left behind it. Delivery is about whole indications.
--   internal/notifier/notifier.go    Notifier: the messages.
--   internal/modem/modem.go          Modem: Init for `Init`, `initModem` and `waitForCPINReady`, Channels for
--     the indication handlers of `NewAT`, `emitRawLines` and `emitSMSEvent`.
--   internal/forwarder/forwarder.go  Forwarder: Backoff for `runReconnectLoopWithOptions` and
--     `nextBackoff`, Watchdog for `runSerialWatchdog`, Executor for `reconnectableExecutor`, Sender for
--     `sender`, Session for `runModemSession` and `runOpenedModemSession`, Start for `Run`.
--   internal/notifier/telegram       Telegram: Parse, Format and Explain for the files of those names, Menu
--     for menu.go and actions.go, Service for the handlers of telegram.go, Notify for its set-up and its
--     notifications. Markup is the grammar of the HTML that the messages may hold.
--   internal/config/config.go        Config.
--   internal/transport/transport.go  Transport.Select: `New`, `parseHexID`.
--   internal/transport/serial        Transport.Serial: Score and Rank for the candidates, Probe for `ProbeAT`,
--     Detect for `AutoDetectWithBaud`, `Open` and `Transport.Open`.
--   internal/transport/usb           Transport.Usb: Descriptor for `candidateInterfaces`, Handles for what is
--     opened and closed, Open for `openLink` with `findDevice`, `claimInterface` and `probeAT`, Listing for
--     `List`, Reader for `Read`.
-- Prelude, Text, Number and Sorting hold the helpers: tests, lists, results and integers over the native
-- numbers, and what the program uses of the packages strings, strconv and sort.
--
-- The modem's lines reach the handlers of Modem.Channels, which parse them with Sms and fill two
-- bounded channels; the loop of Forwarder.Session empties these and hands messages to Forwarder.Sender,
-- whose worker calls the notifier. Forwarder.Backoff runs one session after another,
-- Forwarder.Executor holds the modem of the session that is on, and Forwarder.Watchdog probes it. A
-- session opens its link by the transport that Transport.Select makes of a configuration.
--
-- Representation. A text is a list of Unicode code points. In `decode_pdu` positions and lengths count
-- characters, which are the source's bytes for ASCII text; `ParseCMTIndication` passes hex digits only.
-- An octet is a number, and where the source computes in a byte (the length of an address) the
-- remainder by 256 is written out. Times are numbers, and `time.Now()` is an argument. A
-- `time.Duration` is an integer of 64 bits whose wrap-around is written out. Goroutines are steps that
-- may be taken in any order, and a choice of `select` is the choice of the next step. Logging is left
-- out.
--
-- Fuel. Two loops run on fuel. The wait for the SIM takes one unit for each attempt; it is enough if
-- that many retry delays are longer than the timeout. The probe of a serial port takes one for each
-- round; it is enough if a round begins at or behind the deadline. Every other loop is structural
-- recursion.
--
-- Parameters: the modem library (the answer to a command, given the commands sent before), the clock,
-- the file system and the JSON decoder, the serial library and libusb (what each call returns), the
-- Bot API client, and the order in which the environment acts. A session takes what its transport's
-- `Open` returns as an argument.
--
-- Not modelled: cmd/atmsgfwd (flags and process set-up), the printing of the candidates, and the Telegram
-- client: a handler returns what it asks the client to send.
mod Prelude
mod Text
pub mod Number
pub mod Sms
pub mod Config
mod Notifier
pub mod Sorting
pub mod Modem
pub mod Forwarder
pub mod Telegram
pub mod Transport
