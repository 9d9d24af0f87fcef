-- ===== src/Lib.antt =====
-- Verification of WireGate, the management plane of WireGuard interfaces.
--
-- An agent with privileges changes interfaces, peers and their files; a web server asks it to. The
-- agent runs each change as a durable operation of ordered steps, which it recovers after a crash,
-- and edits the files of wg-quick line by line.
--
-- Prelude holds shared names, Boolean tests, lists, and results of fallible code. Stdlib holds what
-- the program uses of Go's standard library: byte strings (Stdlib/Bytes), base64 and the test of a
-- key (Stdlib/Base64), and net/netip (Stdlib/Netip, Stdlib/NetipText, Stdlib/NetipShow). Case
-- folding is that of ASCII there.
--
-- Operation models src/internal/agent/operation/engine.go. Its states and tables of transitions are
-- in Operation/State, its errors and the actions that keep what was written before an error in
-- Operation/Action, verifyStep, applyStep and stepTransition in Operation/Step, their loops and
-- recoverExecuting's in Operation/Loops, rollback and failAndRollback in Operation/Rollback,
-- validatePlan in Operation/Plan, Execute and Recover in Operation/Engine. The journal and the
-- effects are parameters: functions of a world that the journal and the adapters change. The
-- context is left out; its cancellation shows as an error of these functions. The loops are
-- structural, so they need no fuel. The other files of Operation hold proofs.
--
-- Configdoc models src/internal/agent/configdoc/document.go: splitLines, parseNodes, renderNodes and
-- their helpers in Configdoc/Nodes, the records of the analysis in Configdoc/Peers, analyze in
-- Configdoc/Analyze, Parse, AdoptionSafe, findPeer, PeerSecrets and replaceNodeRange in
-- Configdoc/Document, PatchPeer, AddPeer, RemovePeer and RestorePeerBlock in Configdoc/Edit. The
-- messages of warnings and the clearing of memory are left out. Fuel is used in trimming spaces and
-- in printing numbers only, the length of the text and the number itself being enough.
--
-- Ipam models src/internal/agent/ipam/allocator.go in Ipam/Allocator: Allocate, whose scan has the
-- source's limit of 2 ^ 20 candidates, and ValidatePool. Pools and gateways are valid by their type.
--
-- Web models src/internal/web/repository/auth.go and src/internal/web/auth: the tables in Web/Tables,
-- sessions in Web/Sessions, accounts in Web/Accounts, password.go in Web/Passwords, Allowed in
-- Web/Roles and the manager in Web/Manager. A table is a list of rows (Stdlib/Rows), a statement a
-- function on it, and a transaction that fails leaves the tables as they were; errors of the
-- database itself do so too and are left out, as is the context. Times are numbers of milliseconds,
-- and the clock, random tokens and identifiers are arguments. The hash of a token and the key
-- derivation of argon2 are parameters. Web/Runs has the requests as steps in any order.
--
-- Store models src/internal/agent/repository/operation_store.go, which the engine uses as its journal:
-- the tables in Store/Tables, CreateOperation in Store/Creation, TransitionOperation and
-- TransitionStep in Store/Operations, the reads in Store/Reads, as the repository of Web is
-- modelled. Constraints and indexes of the tables are tests before a statement, and texts are in the
-- order of Stdlib/Texts. Store/Journal composes it with the engine, beside a host for the effects.
--
-- Network models src/internal/agent/validation/validation.go in Network/Validation,
-- src/internal/agent/network/plan.go in Network/Plan, and src/internal/agent/profile in
-- Network/Profiles. Texts that the source writes piece by piece are appended. An address of DNS
-- may have a zone, which is any text, and is written as it is.
--
-- Artifact models src/internal/agent/repository/secret_store.go in Artifact/Tables, and Create and
-- Consume of src/internal/agent/artifact/service.go in Artifact/Service; Artifact/Reuse has the calls
-- of the repository as steps in any order. The sealing and opening of an envelope are parameters.
--
-- Not modelled are the adapters, the agent's other repositories, the HTTP and RPC layers, generated
-- code and the programs' main functions, which are input and output, and the remaining parts of
-- the agent: inventory, adoption and secrets.
pub mod Prelude
pub mod Stdlib
pub mod Operation
pub mod Configdoc
pub mod Ipam
pub mod Web
pub mod Store
pub mod Network
pub mod Artifact
