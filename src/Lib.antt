-- ===== src/Lib.antt =====
-- The StormByte-Buffer library: byte buffers for one thread and for many, and a bridge that moves
-- bytes from an external reader to an external writer. Its code is in lib/public/StormByte/buffer.
--
-- The parts and their files:
--   * Prelude: the library names that all files share, lists over the native numbers
--     (Prelude/Lists), Boolean tests (Prelude/Tests), std::size_t and std::ptrdiff_t (Prelude/Words).
--   * Typedefs: typedefs.hxx and the enumeration FIFO::Operation. A byte is a number; only
--     HexDump looks at its value. The record Helpers stands for append_vector of StormByte/helpers.hxx,
--     which is not in the repository, with the documented effect as its laws.
--   * Exceptions: the classes of exception.hxx, over any StormByte::Exception.
--   * Generic: the virtual methods of ReadOnly and WriteOnly (generic.hxx) that a client calls.
--     Generic/Convert and Generic/Writes have the conversions to bytes and the overloads of Write for
--     ranges and strings, with the cast of an element as an argument; Generic/Counted is about these.
--     Generic/Forward has the overloads that take a forwarding reference, Generic/Moved is about them.
--     Generic/Whole has those of Read and Extract without a count, Fifo/Whole is about them.
--   * Fifo: the class FIFO (fifo.hxx, fifo.cxx). A buffer is m_buffer and m_position_offset. Clean,
--     Seek and Drop are in Fifo, ReadInternal and its callers in Fifo/Reading, WriteInternal, the
--     copies and the moves in Fifo/Writing. A method that is const but casts that away returns the
--     new buffer as the others do. Fifo/Bounds has the well-formedness of a buffer, Tape its
--     abstract view: the bytes passed and the bytes ahead. Fifo/Refine relates the two for each
--     operation, Fifo/Calls and Fifo/Sequence for sequences of calls, Fifo/Stream reads off the order
--     of the bytes. Fifo/UntilEof, Fifo/Into and Fifo/Moves are about the loops, reads into another
--     buffer, and moves, Fifo/Between about one buffer written to another, Fifo/Equality about ==.
--     Fifo/Methods has the methods that only pass on, Fifo/Build the constructors, Fifo/Drain is
--     about one buffer read into another until its end, Fifo/Observe about what a client can tell of a
--     buffer.
--     Fifo/Growth and Fifo/Shrink bound the length of the vector and the bytes available.
--   * Hex: FIFO::HexDump, FormatHexLines and HexDumpHeader (fifo.cxx). A text is the list of its
--     character codes; the stream manipulators are written out. Hex/Digits reads the digits of a byte
--     back, Hex/Lines those of all lines, Hex/Dump is about the whole dump. Hex/Status has the status
--     line of SharedFIFO::HexDump (shared_fifo.cxx).
--   * Shared: the class SharedFIFO (shared_fifo.hxx, shared_fifo.cxx): a FIFO and two flags. One
--     function is what one method does while it holds the mutex. A method that has to wait is cut
--     in two: what it waits for, and what it does after. Whether it calls notify_all is a result.
--     Shared/Into has the reads into another buffer and Shared/Loops the loop of ReadUntilEoF, which
--     Shared/UntilEof and Shared/UntilEofInto are about; Shared/Refine says what a reader is answered.
--     Shared/Build has the constructors, and is about those of FIFO too: Generic is a virtual base
--     of both (Generic/Build), which few of them initialise.
--     Shared/Foreign is about writes of another buffer, which SharedFIFO does not override.
--   * Monitor: threads on one SharedFIFO. A schedule is a list of moves: a thread calls a method, or a
--     thread in m_cv.wait wakes up, for a notification or for no reason. Monitor/Outcomes says what a
--     method leaves, Monitor/Watchers and Monitor/Wakeups are about sleeping threads, Monitor/Stream
--     and Monitor/Order about the order of the bytes, Monitor/Shutdown about Close and SetError,
--     Monitor/Lasting and Monitor/Eof about EoF.
--   * Session: a thread in ReadUntilEoF or ExtractUntilEoF of a SharedFIFO (fifo.cxx), cut at each call
--     and each wait, in any interleaving with calls of other threads. Session/Rounds says what a move
--     of the loop does, Session/Moves and Session/Feeds what it and the other calls keep, Session/All
--     is about the bytes that it has got, Session/Ends about its end.
--   * Chain: threads in a row, each of which reads the SharedFIFO that the one before writes to.
--     Chain/Links and Chain/Result are about one of their buffers, Chain/Turns about an order of moves.
--   * Relay: a pipe function that passes its bytes on as they come, as in the example of README.md, with
--     any function of a byte. Relay/Keeps and Relay/Steps say what all moves keep, Relay/Result is
--     about the bytes at the end, Relay/Finish about how the threads get there.
--   * Flow: any number of such pipe functions in a row, each of which writes some bytes first and some
--     last, as in the example of a pipeline in README.md, which Tests/Flows has. The reader of the last
--     buffer is in ReadUntilEoF or ExtractUntilEoF, as that of a Session. Flow/Nodes says what holds at every point, Flow/Loops, Flow/Works and Flow/Steps that all moves keep it,
--     Flow/Result is about the bytes at the end, Flow/Nears and Flow/Finish about how the threads
--     get there, Flow/Wired about what Process sets up.
--   * Locks: the mutexes of several SharedFIFOs, of which a read of one into another takes two
--     (shared_fifo.cxx). Locks/Ordered, Locks/Progress and Locks/Release are about threads that read in
--     one order only, Locks/Deadlock about others, Pipeline/Locking about the stages of a pipeline.
--   * External: ExternalReader, ExternalWriter and their implementations by a buffer (external.hxx,
--     external.cxx), for any buffer, and with the FIFO as one.
--   * Bridge: the class Bridge (bridge.hxx, bridge.cxx), over any reader and writer. Bridge/Chunks
--     describes the loop by a list of chunks, Bridge/Passthrough and Bridge/Conserve use it,
--     Bridge/Loss is about the cases in which bytes are lost, Bridge/Life about a bridge from its first
--     passthrough to its destructor, Bridge/Moves has its moves, Bridge/Fifos is
--     about one from a FIFO to a FIFO.
--   * Store, Consumer, Producer: the handles of consumer.hxx and producer.hxx. A std::shared_ptr is
--     the place of its SharedFIFO in a store, or null, and a call through null is none. Store/Frame
--     takes a schedule apart into those of the single buffers, Store/Order and Producer/Pipe
--     are about the two ends of one buffer. Consumer/Onward has the methods of Consumer that read
--     into another buffer or until the end.
--   * Pipeline: the class Pipeline (pipeline.hxx, pipeline.cxx), over any type of pipe functions. What
--     Process does to threads is a list of actions. Pipeline/Stages, Pipeline/Process
--     and Pipeline/Handed are about Process, Pipeline/Order about the bytes between the stages,
--     Pipeline/Errors about SetError, Pipeline/Threads about its threads up to the destructor,
--     Pipeline/Moves about its moves.
--   * Tests: runs on concrete buffers, and each theorem at a concrete input.
--
-- Numbers: std::size_t has 64 bits and wraps around where the code adds two of them; a vector holds
-- at most 2^63 - 1 bytes, as std::vector<std::byte> does. Where a theorem asks that the bytes fit into
-- a vector, the code would throw from a noexcept method and end otherwise. std::ptrdiff_t is ℤ, with
-- bounds where they matter.
--
-- Fuel: the loops of ReadUntilEoF and of PassthroughWrite have fuel. One round is enough for the
-- first; the second and the loop over the lines of a dump have one more than the bytes there are.
--
-- Not modelled: the logger of a pipeline (what its stages compute is a parameter); the capacity of a
-- vector; the data race of a method that takes no lock; a buffer read into the vector that it keeps
-- its own bytes in; building and tests.
pub mod Prelude
pub mod Typedefs
pub mod Generic
pub mod Exceptions
pub mod Tape
pub mod Fifo
pub mod Hex
pub mod Shared
pub mod Monitor
pub mod Locks
pub mod Session
pub mod Chain
pub mod Relay
pub mod Flow
pub mod Store
pub mod Consumer
pub mod Producer
pub mod Pipeline
pub mod External
pub mod Bridge
mod Tests
