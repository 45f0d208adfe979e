-- ===== src/Lib.antt =====
-- bluesdp: a Bluetooth SDP client that resolves the RFCOMM channel of a 16-bit service UUID.
--
-- The program. `query_rfcomm_channel` (src/public.rs) parses the address, connects to PSM 1 of the
-- device with at most five attempts (src/transport/live.rs, src/transport/connect.rs) and runs
-- `find_rfcomm_channel` (src/transport/session.rs). That sends ServiceSearchAttributeRequest PDUs
-- (src/codec/encode.rs), reads one PDU back for each (src/transport/socket.rs), takes its frame
-- apart (src/codec/pdu_header.rs, `raw_response` in src/codec/response.rs), and asks again while
-- the page ends in a continuation state. The joined attribute bytes are decoded as data elements
-- (src/codec/descriptor.rs, src/codec/element.rs, `decode_attribute_lists` in
-- src/codec/response.rs), and the first record with a channel gives it (src/codec/extract.rs).
--
-- The modules. Each module under Codec, Transport and Public is named for the source file whose
-- types, constants and functions it has, under their names in the spelling of this library:
--   Codec/PduHeader, Codec/Descriptor, Codec/Element, Codec/Encode, Codec/Response,
--   Codec/Extract, Transport/Connect, Transport/Live, Transport/Socket, Transport/Session, Public.
-- A child module has theorems, and the descriptions that they compare the code with:
--   Codec/Element/Grammar has the data elements as a relation, stated without the parser,
--   and Codec/Element/Wide the integers that it leaves out;
--   Codec/Response/Framing and Records have the layout of a response and the shape of its records;
--   Codec/Extract/Search has the first attribute and the first entry; Codec/Encode/Layout has the
--   bytes of a request; Transport/Socket/Pdu and Peer have a PDU and a peer that answers;
--   Transport/Session/Pages has the pages of one response, and the requests that fetch them;
--   Transport/Session/Fragments has a server that cuts them as it likes;
--   Transport/Session/Server has what the device in the tests of src/transport/session.rs reads;
--   Transport/Session/Steps has the continuation loop as a state machine, with no fuel;
--   Transport/Session/Preserved has what a query may do to the stream, Transport/Time and
--   Public/Time how long it may take, Public/Channels where a channel comes from, and
--   Transport/Session/Failures and Public/Errors where an error does;
--   Codec/Element/Typed and Codec/Response/Typed have the ranges of the decoded numbers.
-- UnitTests has the test functions of the sources, in a module for each file, as functions into an
-- outcome: a test ends well, panics, or returns a message. UnitTests/Passing and PassingExchanges
-- run them all, the latter against the server tasks of the tests, which UnitTests/Duplex has as
-- trees of reads and writes and UnitTests/Memory runs. UnitTests/Serving has the paging test for
-- any pages and any runtime with a duplex stream, in which the client and the task take turns.
-- Prelude has the shared lemmas, Io the code that waits, and Tests runs at concrete inputs.
--
-- State and errors. A `Result` is a value, an error, or the end of the model's fuel. Code that
-- awaits is given the state of what lies outside the program and returns it with its result; the
-- program keeps no state of its own between calls. A byte is a native number, and slices of them
-- are lists; machine arithmetic keeps its wrap-around where the source has any, which outside of
-- the tests is the transaction ID alone. `usize` is taken to hold a 32-bit length.
--
-- Parameters. nom, bytes, tokio and bluer are not part of the repository: Nom, Buf, Io.Stream,
-- Transport.Live.Bluer and, for the tests, UnitTests.Duplex.Runtime are records of what the sources
-- call, and Nom.IsLawful, Buf.IsAppending, Io.IsExact, Transport.Time.IsTimely,
-- Public.Time.IsPrompt, Transport.Socket.Peer.Peer and UnitTests.Duplex.IsDuplex state what a theorem
-- takes of them.
-- Tests/Parsers, Tests/Device and UnitTests/Memory have an instance of each.
--
-- Fuel. `data_element` recurses on the bytes that it is given: twice their number and one more is
-- enough, and the callers in the model give that much. The continuation loop has no bound in the
-- source; its fuel is an argument, one unit for each page behind the first.
--
-- Not modelled: the depth of the call stack, allocation, `Debug`, `Clone` and `PartialEq`
-- where they are derived (structural equality is a helper of the tests), dropping a future
-- before it is done, and the module declarations and re-exports. Errors of the crates are passed on
-- as values and their contents are not described.
pub mod Prelude
pub mod Nom
pub mod Buf
pub mod Io
pub mod Codec
pub mod Transport
pub mod Public
pub mod UnitTests
pub mod Tests
