-- ===== src/Lib.antt =====
-- The core of the driver: the wire format, the choice of nodes, the connection with its streams, the
-- connection pool and the retry loops of the session.
--
-- A command (src/HighLevel/Session.cpp) asks the pool (src/LowLevel/ConnectionPool.cpp) for a
-- connection and a stream of it, prepares its query on the connection's node if needed, sends a
-- request, waits for the message of its stream (src/LowLevel/Connection.cpp) and either ends or goes
-- round again; in every round it gives the connection back. The pool opens connections to nodes that
-- the collection (src/Common/NodeCollectionImpl.cpp) chooses.
--
--   Common      lists, options, the Boolean tests on numbers, the driver's exceptions as values
--   Seastar     seastar::queue, which is not part of the repository, as an interface with its laws
--   Protocol    src/LowLevel/ProtocolTypes: Integer is ProtocolIntegerBase.hpp, SizedString is
--               ProtocolSizedStringBase.hpp with [bytes], [value], [long string], [string] and
--               [short bytes], Lists is ProtocolListBase.hpp, VariableInteger is
--               ProtocolVariableIntegerBase.cpp with ProtocolVint.hpp, Maps is
--               ProtocolMapBase.hpp with ProtocolStringMap.hpp, Timestamp is ProtocolTimestamp.cpp
--   ColumnOption  ProtocolColumnOption.cpp: the static payload objects of decode are a store, and an
--               option is reached by its location; Types is the specification's view of a column
--               type, Payloads has the setters and getters
--   ResultMetadata  ProtocolResultColumn.cpp, ProtocolResultRowsMetadata.cpp and
--               ProtocolResultPreparedMetadata.cpp
--   Query       Parameters is src/Common/Command.cpp with ProtocolQueryParameters.cpp, Requests the
--               bodies of the requests of src/LowLevel/RequestMessages but BATCH, Startup is
--               StartupMessage.cpp
--   Response    src/LowLevel/ResponseMessages: the bodies of the messages of the server; Frames is
--               ResponseMessageFactory.cpp and Connection::decodeMessage, Frames.Prefix and Rows
--               have the theorems
--   Uuid        src/Common/Utility/UUIDUtils.cpp and ProtocolUUID.cpp: Text, Time for versions 1 and
--               4, Generator for makeTimeUUID with the state of its thread
--   Frame       src/LowLevel/MessageHeader.cpp, ConnectionInfo.cpp and Connection::encodeMessage
--   Batch       the body of a BATCH request: src/LowLevel/RequestMessages/BatchMessage.cpp and
--               ProtocolBatchParameters.cpp
--   Nodes       NodeCollectionImpl: chooseOneNode, reportFailure, reportSuccess, the constructor
--   Connection  Stream is src/LowLevel/ConnectionStream.cpp with openStream; State has
--               waitNextMessage, the receiver and close of src/LowLevel/Connection.cpp; Order,
--               Receive, Waiting and Fifo have their theorems
--   Handshake   Connection::ready with src/LowLevel/Authenticators and CompressorFactory.cpp: Outcome
--               is for any server, Agreement for one that keeps to the protocol, Startup has the
--               options of STARTUP and the choice of the compressor
--   Pool        State has tryGetConnection, Steps every other operation of ConnectionPool.cpp, and
--               what its timers and spawned processes do; Choice, Requests, Grants, Feeding,
--               Dropping, Growth and Reach have their theorems
--   Session     Retry is the class RetryFlow, Attempt one round of the loops, Loop the functions
--               query and execute, Batch the function batchExecute; Cache is getPreparedQueryId
--               of src/Common/NodeConfiguration.cpp
--   Tests       the theorems at concrete inputs
--
-- State is passed explicitly: a C++ object is a record, a member function takes the record and
-- returns it changed. Code between two suspensions of a future is one step; what the surroundings do
-- meanwhile is a list of events (Connection), a relation between pools (Pool) or the answers of a
-- list of surroundings (Session). An exception is a value of Common.Results.Error. Shared objects
-- are named by addresses, and the store is a function of the address where aliasing matters.
--
-- Integers of the wire are bit patterns of their width, and a time point is that of its nanoseconds
-- since 1970, as in the system clock of libstdc++. A std::size_t is a number; where an
-- increment can wrap (the retries of an unprepared query) it is written out modulo 2 ^ 64.
-- Loops that C++ leaves unbounded run on fuel: tryGetConnection on one round more than there are
-- connections, since a round that goes on drops one; feedWaiters and cleanWaiters on the number of
-- waiters, since a round that goes on serves one; the decoding of a column option on the number of
-- bytes, since a call takes two; chooseOneNode has its bound in the source. The
-- theorems on these functions include that the fuel is enough.
--
-- Not modelled: sockets, TLS, DNS and compression (seastar and lz4), loggers, the setters of the
-- configuration, and the text of error messages.
pub mod Common
pub mod Protocol
pub mod Seastar
pub mod Nodes
pub mod Connection
pub mod Pool
pub mod Session
pub mod Batch
pub mod ColumnOption
pub mod Frame
pub mod Handshake
pub mod Query
pub mod Response
pub mod ResultMetadata
pub mod Uuid
pub mod Tests
