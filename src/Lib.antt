-- ===== src/Lib.antt =====
-- Lattix: the client of a messenger with post-quantum encryption over an untrusted relay.
--
-- The parts of the program and the files that model them:
--
--   * client/js/crypto.js, the cryptographic envelope: Crypto.antt and its children. Encoding has
--     bytesToB64, b64ToBytes and fingerprintOf; Transcript has buildTranscript; Wrap has deriveKek,
--     wrapCekForParties and unwrapCek; Message has encryptMessage and decryptMessage; File has the
--     functions for files in both formats; Vault has the vault and the backups; Identity has
--     generateIdentity. Binding is about what a signature covers. Primitives is what the code calls
--     and does not define (btoa, TextEncoder, crypto.subtle, JSON, the post-quantum library): a
--     record of operations, and the laws that the code relies on as a second record. Randomness is
--     a function from the number of the request.
--   * client/js/app.js, key trust: Trust.antt. Its State is the part of `state` that pins, alerts
--     and the key cache make up, with what localStorage holds; there is one function per function
--     of the source (adoptPeerKeys, getPeerKeys, ensureGroupLoaded's loop, acceptNewKey,
--     setVerified, processDeepLink, openFingerprint, recipientsFor, assertSendable). What the
--     relay answers is an argument. Session has the steps of a session as a relation,
--     Effects, Guard and Cache its invariants, Sending, Alerts, Persist and Stale what follows.
--   * client/js/app.js, conversations: History.antt, with ingestion split at its first `await`
--     (begin_ingest) and after its last (finish_ingest), so that ingestions can be interleaved.
--     Order and Ingest are about single ingestions, Races about interleaved ones, Paging about
--     pullHistory, Loading about what a load shows, alone and after a live message.
--   * client/js/app.js, the way of a message: Delivery.antt joins key trust, the envelope and the
--     conversations, from sendCurrent and sendFile to what the receiver is shown; Arrival is about
--     an exchange over a relay that hands payloads on, Authentic about what a relay can make of it.
--   * client/js/api.js, requests: Api.antt, with one round of the loop of `_req` as a function, the
--     loop as recursion, statusMessage, and _relogin. The answers of the network are an argument,
--     one exchange for each sending. Bounds is about the number of sendings, Outcomes about what a
--     request comes to. Session has the fields of the client and `_relogin` with any number of
--     callers, which SingleFlight is about, and Probe the check of a relay. Endpoints has the
--     methods that name a path, a method and a body; `encodeURIComponent` is an argument there.
--   * client/js/api.js, the WebSocket: Socket.antt has one function per handler, timer and call, on
--     a state that also holds what is pending (timers, awaited requests and renewals). An `async`
--     method is split at its `await`: open_socket and health_done are `_openSocket`, handle_close and
--     relogin_done `_handleClose`. Socket/Watch has the timers and the watchdog, Socket/Step the
--     events; Alive and its children are about the states that events in any order lead to.
--   * client/js/config.js, the choice of the relay: Config.antt, with the regular expressions
--     written out as functions (those for hosts in Hosts) and `new URL` as a parameter; Choice is
--     about what is accepted and what is then used. Saving is the dialog of client/js/app.js that
--     stores a relay, Status what the app tells of one.
--   * client/js/app.js, signing in: Enroll.antt, with one function for each form's handler. The
--     relay's replies and the user's answers are a record, the vaults an interface, which
--     Enroll/Instance fills with those of crypto.js. Keeping and Unlocking are about the vault that
--     the device holds.
--   * client/js/app.js, the message box: Composer.antt. A text on its way is a Flight, so that
--     anything may happen before send_succeeds or send_fails. Drafts is about texts that are kept,
--     Files about which files are taken, Ttl about the time set for disappearing messages,
--     Keys has the keys and the clipboard.
--   * client/js/app.js, dialogs: Dialog.antt, with the stack of modals and `askModal`; Settling is
--     about its promises.
--   * client/js/app.js, what is shown: View.antt has the values that rendering computes, from the
--     HTML of a message to the order of the sidebar; Html, Sidebar and Scheduling are about them.
--     View/Timeline has the rows of a conversation and the labels of days, View/Cards files, quotes
--     and menus.
--   * client/js/app.js, share links and the drawing of QR codes: Share.antt. Links is about a link from
--     its owner to whoever opens it, Drawing about the pixels.
--   * client/js/app.js, images and files: Media.antt, with the sizes of images (Sizes), the overlay
--     while files are dragged (Dragging) and object URLs (Urls).
--   * client/js/app.js, groups: Groups.antt has the dialog for a new group, the metadata and the panel
--     of a group; Picking is about the members that are picked.
--   * client/js/app.js, the rest of the shell: Shell.antt has shortcuts, the rejected session, the check
--     of one's own keys, the key banner, the searches and the first screen; Searching is about answers
--     that come late.
--   * client/js/app.js, backups and groups: Backup.antt, on the conversations of History; Restoring is
--     about restoring a backup twice, Merging and RoundTrip about the conversations that it restores.
--   * client/js/app.js, presence: Presence.antt, with notifications and the fetching of what was
--     missed; Since is about the users believed to be online.
--   * client/background.js: Extension.antt, with the browser's tabs as a record of operations; Single is
--     about the number of tabs that show the app.
--   * client/js/theme.js, preload.js and sound.js: Appearance.antt; Agreement compares the two files
--     that resolve the theme.
--   * Prelude.antt and its children: texts as lists of code units, bytes as lists of numbers,
--     plain objects and maps as association lists in insertion order, sets as lists. The name
--     `__proto__`, under which a plain object keeps no property, is heeded where pins are written.
--
-- A file message is known by its name and by whether it has what its contents are fetched by; its type
-- and size are arguments where they are shown, its payload where it is decrypted.
--
-- Key trust reads the cache that conversations and sending use; conversations take from key trust
-- only whether an alert stands for a sender, and from the envelope only what decryption gave.
--
-- Bounds and fuel: pullHistory is recursion on the guard of its own loop, and the theorem about it
-- asks for a guard above the number of envelopes; bytesToB64's loop has as much fuel as there are
-- bytes, and join_chunks_lem shows that to be enough; decimal digits have the number as fuel.
-- A request has a round for each attempt and one more for a renewed token, which request-bounded
-- shows to be enough.
-- Ids, times and sizes are natural numbers; no code modelled here depends on the limits of doubles.
-- The scale of an image is an exact fraction, where the code has the nearest double.
--
-- The backoff of the WebSocket is kept in microseconds, where its growth by 1.6 from one second is
-- whole up to its limit; `Math.random()` is given in thousandths.
--
-- Not modelled: the DOM and everything that only renders the state; the playing of sounds; the
-- formatting of dates by the locale; the words of messages and notices; client/js/qr.js, a port of
-- another project's generator, and client/vendor; the relay in
-- server/; tests, installers and deployment.
pub mod Prelude
pub mod Trust
pub mod Crypto
pub mod History
pub mod Api
pub mod Socket
pub mod Config
pub mod Enroll
pub mod Composer
pub mod Dialog
pub mod View
pub mod Backup
pub mod Presence
pub mod Appearance
pub mod Share
pub mod Delivery
pub mod Media
pub mod Groups
pub mod Shell
pub mod Extension
