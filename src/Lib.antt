-- ===== src/Lib.antt =====
-- The PHC bridge: a library about the Go program in bridge/, which connects browsers to the STM
-- control unit of a PHC house installation.
--
-- The parts of the program and the files about them:
--
-- bridge/internal/domain is the project model that the others share: Domain has its types, the
-- stable identities (StableDeviceID, StableFloorID) and the event plans; Domain/Ids and
-- Domain/FloorIds are about the identities.
--
-- bridge/internal/controller owns the STM. Controller/Types has types.go (Config.normalized,
-- amdBusAddress, Snapshot, Event). Controller/Commands has commands.go (capabilitiesFor, supports,
-- executeDevice, sendInputPlan), with the STM client as a record of two calls over a state of the
-- STM; Commands/Plans states the calls of each action as a table. Controller/State has events.go:
-- each function is one critical section under stateMu and returns the events that are published
-- after it; State/Mirror and State/Power are about the event stream and the module replies.
-- Controller/Subscribers has the event channels of controller.go under subsMu (a channel is its
-- buffer, a dropped send leaves it), Controller/Build has New, Controller/Sessions has Subscribe,
-- its cancel function and Close. Controller/Run has Execute, Controller/Polling has polling.go, one
-- function for each case of the select of pollLoop. Controller/Scheduler has scheduler.go: each
-- function is what the goroutine does between two channel operations.
--
-- Execute and pollModule hand an operation to the scheduler and wait. In Controller/Run and
-- Controller/Polling what the scheduler answers is an argument (Turn): it ran the operation, or the
-- context or the scheduler ended before or while it ran. Controller/Lifecycle puts the poll loop,
-- the subscriptions and the commands together as a step relation on the controller, the loop and
-- the STM, for any such answers.
--
-- bridge/internal/project reads the project from the STM. Project/Download has Download, over the
-- call ReadFile as a parameter; Project/Archive has Extract and readEntry, over the entries that
-- the zip reader finds. Project/Reader has collectPPFX over the tokens that the XML decoder gives,
-- Project/Labels the grammar and the words of channel labels (parseChannelParts, classifyOutput,
-- motorDirection), Project/Tools and Project/Actions collectToolActions, Project/Order naturalLess,
-- Project/Parse Parse and ParsePPFX, and Project/Builder, with Project/Channels and Project/Motors,
-- buildProject: the orders in which Go ranges over its two maps are arguments. Startup joins
-- buildProject and New.
--
-- bridge/internal/stm is the connection to the STM. Stm/Value has the values and the errors of
-- xmlrpc.go, Stm/Request encodeCall, Stm/Xml the decoder (decodeResponse, decodeValue,
-- decodeStruct) over the tokens of the XML decoder, Stm/Base64 the base64 decoder; below Stm/Xml a
-- writer of responses in any style is the independent description of what the decoder reads.
-- Stm/Client has client.go over an Exchange, which answers one HTTP request and is a parameter;
-- Client/Chunks joins ReadFile and Download, Client/Telegrams is about SendTelegram, Stm/Endpoint
-- has ParseEndpoint. Stm/Transport has transport.go over the bytes that arrive.
--
-- bridge/internal/cache is the project cache: Cache has it over a disk of named files, where a
-- record (Run) says how each call of the file system goes, and what JSON leaves out of a project is
-- written out; Cache/Atomic is about a Save that fails half way.
--
-- bridge/internal/web is the website. Web/Server has the types of server.go, New and loadAssets,
-- Web/Guards the tests of a request (security, requireMethod, requireMutation) and the static
-- files, Web/Api api.go, Web/Reload Reload, swap, install and Close, Web/Events events.go as one
-- function for each case of the select of eventsAPI, Web/Pages, with the words in Web/Labels and
-- Web/Translations and the views in Web/Views and Web/Devices, pages.go, and Web/Handler the
-- routes. Backend is a record of what the handlers call; Web/Backends fills it with the controller,
-- over Controller/Access, which has Project, Device, Snapshot, Capabilities and RunBackground.
--
-- bridge/cmd/phc-bridge is the program: Bridge has the start from the cache, the reload function
-- and the background loader of main.go and the reading of the environment, composed from the other
-- parts; Bridge/Reloads is about what a reload leaves for the next start, Bridge/Waits about the
-- back-off.
--
-- bridge/cmd/stm-probe is a diagnostic tool: Probe has what it computes, Probe/Addresses compares
-- the modules that it reads with those that a controller polls, and Probe/Loading its loadProject
-- with the reload of the bridge.
--
-- Text has strings as lists of code points with the functions of strings and unicode that the code
-- calls (the lower case of a code point is the parameter Unicode), Prelude the shared types, tests
-- and dictionaries.
--
-- Bounds: integers are unbounded, except where the code wraps: the revision and the subscription
-- counters are kept modulo 2^64, and a bit mask is read as a uint64. The loop of Download runs on
-- the number of rounds left before MaxChunks, which is the code's own bound; that of naturalLess on
-- the length of the left text, of which each round takes a character. The XML decoder runs on two
-- steps for each token and one more, the header loop of the transport on one for each byte that is
-- left and one more; both are shown to be enough. A timer is armed or not; how long it runs is not
-- modelled.
--
-- Parameters: the HTTP exchange, encoding/json, the zip reader, the XML decoder's tokens, SHA-256,
-- the functions of net/url and mime, and the case folding of a host, as functions of the code's
-- arguments.
--
-- Outside the model by the program's own construction: a server after Close, whose backend is nil
-- (in Web/Server the backend is there from New to Close); and module classes and device kinds that
-- are none of the constants, which only a cache file from elsewhere could hold, with the default
-- cases for them.
--
-- Not modelled: HTTP itself, the rendering of templates and JSON, and what ServeMux does with a
-- path before a handler; deadlines and cancellation inside a call of the STM; flags, signals and
-- the HTTP server of the program; the flags, the printing, the timings and the floating-point
-- percentile of bridge/cmd/stm-probe; and the interleaving of two calls inside their critical
-- sections: a call of a client, or a turn of the loop, is one step.
pub mod Prelude
pub mod Text
pub mod Domain
pub mod Controller
pub mod Project
pub mod Stm
pub mod Cache
pub mod Web
pub mod Bridge
pub mod Probe
pub mod Startup
pub mod Tests
