-- ===== src/Lib.antt =====
-- Molten, a PHP extension that traces the calls of a PHP program and reports them as spans.
--
-- The executor of molten.c stands in the place of Zend's. A call that the interceptor's tables name gets
-- a frame and a span context on the span stack; when the original executor has come back, by its end or
-- by a bailout, the element's record function builds spans in one of the formats and hands them to the
-- log. The sampling control decides for each request whether this happens; its settings lie in shared
-- memory and change over HTTP. Errors of requests are gathered in a report.
--
-- Common: the shared names, Boolean tests, lists, texts as lists of bytes, results that can be a fault
--   (a read or write outside an object, a NULL that is followed), and signed integers.
-- Stack (common/molten_stack.c): a stack as the list of its cells, its top and its size. Contents relates
--   it to the list of its elements, Lifetime follows the calls of the destructor.
-- Ids (molten_util.c): the texts of ids. Hex is about b2hex and rand64hex, Level about the sizes of the
--   buffers. The values of `random()` are arguments.
-- SpanContext (molten_span.c): what a build puts on the span stack. Defs has the interface, a record of
--   operations and the laws that the executor relies on; Random is the build without USE_LEVEL_ID, Level
--   the one with it, each with an instance of the laws.
-- Intercept (molten_intercept.c): mo_intercept_hit over the tables. Hit says when it is defined.
--   Tables has what mo_intercept_ctor fills them with, Reached says that every element is found.
-- Record (molten_intercept.c, repr_zval of molten_util.c): the record and capture functions, as PHP 7 has
--   them. Engine has what they ask of PHP and its extensions, a parameter, and the frame; Args the text of
--   the arguments; Pdo, Cache (Redis, Memcached), Mysqli, Mongo, Client (Guzzle, Elasticsearch) and Curl
--   the functions; Dispatch the choice among them. Safe says what they rely on and when they add a
--   span, Total that they come to their end, Links what the log has then. A function gives the annotations
--   that it puts on its span, in their order; a NULL object or result is a PHP null. The length of a
--   string is that of its bytes, and what C reads of it ends at the first NUL.
-- Execute (molten.c): mo_execute_core, frame_build and frame_destroy, run over a program given as the tree
--   of its calls. Trace tells, as an inductive relation, which spans a program should yield; Books
--   and Core are about the steps of one call, Balance about whole programs. The spans that an
--   element's record function yields, with the state it changes and its faults, the function in the place of
--   curl_exec, the clock and the build's span contexts are parameters; the capture functions, which only fill
--   the frame, are left out there.
-- Log (molten_log.c): the array of spans and the growing buffer. Buffer and Spans are about these,
--   Flush has mo_chain_log_flush, with the encoding of PHP as a parameter, Lifecycle the log of a request. File has the log file of
--   mo_log_write over the names and inodes of a disk, with the answers of write as a list (where it ends
--   before the loop does, the loop is still running), Dirs the making of its directory
--   where `mkdir` needs the parent, Rotation and
--   Written the change of the file with the day, Short the writes that take a part.
-- Zval (php7_wrapper.h): PHP arrays as ordered maps, with the operations that the spans are built by. Find
--   has their laws.
-- Span (molten_span.c, molten_span.h): the formats. Zipkin and OpenTracing have the functions zn_* and
--   ot_*, Builder the interface mo_span_builder, Contract what holds in any format, Links the instances.
--   SkyWalking has the functions sk_* but the registration; its buffers may overflow, so that they are
--   not of the interface. SkyLinks has the ids in its spans, SkyNotes the annotations.
--   A span passed to a function is not NULL, and a time is a whole number, exact in a PHP double.
-- Control (molten_ctrl.c, check_hit_ratio of molten_util.c): sampling and settings. Quota counts the
--   requests of a minute, Update is about the changes. What PHP decodes of a posted text is an argument.
-- Status (molten_status.c, mo_ctrl_serialize_msg of molten_ctrl.c): the page of the metrics and settings, as
--   the answers it sends and the settings after it. Page says when a request changes the settings. The
--   address of the page and the version are arguments; the headers sent with an answer are left out.
-- Balance (common/load_balance.c): smooth weighted round robin. A sum that does
--   not fit an `int` wraps. Exact is the same choice with integers that have no bound; Next is about one call
--   of that, Sums about its weights, Fair about many calls. Bounded and Shares say when the two agree.
-- Shm (common/molten_shm.c): the slots of the shared memory, under the file lock. Slots is about what
--   they keep.
-- Chain (molten_chain.c): the keys of a request's header and mo_build_chain_header. Header says which spans
--   are open then, Main has mo_chain_dtor and the main span, Whole runs a program in between. Outgoing has
--   add_http_trace_header of molten.c, Propagation follows its lines to the called service. The server
--   variables are a function from names; the table of the keys is the record of the five.
-- Overload (molten.c): the functions in the place of curl_setopt, curl_exec, curl_setopt_array and curl_reset,
--   over the state of one request; Exec is about molten_curl_exec; Reload
--   puts them into PHP's function table and takes them out, which Restore is about. What PHP parses of the arguments and what
--   the original functions return are arguments.
-- Report (molten_report.c): the list of errors. Lossless follows it over many requests, Callback has
--   molten_error_cb of molten.c, with the text of an error as an argument.
-- Tests: the theorems at concrete inputs.
--
-- All loops are structural recursion, so no definition has fuel: the calls of a program are a finite
-- tree. The sizes of a log are below 2 ^ 31, where the code cuts them to an `int`; counters wrap as
-- their C types do. The record functions are a parameter of the
-- executor, with the laws that it relies on; so is the function in the place of curl_exec, which Overload
-- has. Not modelled: the sockets and HTTP requests of the sinks, the registration
-- with a SkyWalking server, the request hooks, and the wrappers of the operating system.
pub mod Common
pub mod Stack
pub mod Ids
pub mod SpanContext
pub mod Log
pub mod Intercept
pub mod Execute
pub mod Control
pub mod Zval
pub mod Span
pub mod Balance
pub mod Shm
pub mod Report
pub mod Record
pub mod Status
pub mod Chain
pub mod Overload
pub mod Tests
