-- ===== src/Lib.antt =====
-- Verification of log4cplus, the C++ logging library.
--
-- An application asks the hierarchy (src/hierarchy.cxx) for a logger by its dotted name. A call of
-- `log` on a logger (src/loggerimpl.cxx) compares the event's level with the disabled level and
-- with the logger's effective level, and hands the event to the appenders of the logger and of its
-- ancestors. An appender (src/appender.cxx) checks its threshold and its chain of filters
-- (src/filter.cxx), on the calling thread or in the thread pool. An asynchronous appender puts
-- events in a bounded queue (src/queue.cxx) that its own thread empties (src/asyncappender.cxx); a
-- socket appender writes them in a byte buffer (src/socketbuffer.cxx, src/socketappender.cxx).
-- The property configurator (src/configurator.cxx) reads a file of properties (src/property.cxx),
-- puts the values of variables in place, and sets up appenders, loggers and their levels
-- (src/loglevel.cxx). A pattern layout (src/patternlayout.cxx) turns an event into text.
--
-- Common: numbers, lists, integers, texts as lists of code units, maps as association lists.
-- Hierarchy: src/hierarchy.cxx. The heap of loggers is a function from addresses, the root at
--   address 0; `next` is the next free address. `loggerPtrs` and `provisionNodes` are maps from
--   names. `get_instance` returns `none` where the code dereferences a null pointer. Its children
--   hold the invariant (Inv), the cases of its proof (Names, Prefixes, Closest, Children, Parents,
--   Create, Adopt, GetInstance), the independence of order (Order), the operations on the whole
--   tree (Operations, SameTree, Reset), the tree as a function of the names (History) and a clash
--   of names (Clash).
-- Logger: src/loggerimpl.cxx and src/rootlogger.cxx. A walk along the parents runs on fuel, and
--   gives `diverges` without it; the theorems show that more fuel than the length of the logger's
--   name plus one is enough, since every parent's name is shorter. Chain relates the parents to
--   the names and Walks says what the walks return.
-- Event: the fields of include/log4cplus/spi/loggingevent.h.
-- Filter: src/filter.cxx, with the chain as a list.
-- Appender: src/appender.cxx and `enqueueAsyncDoAppend` of src/global-init.cxx. The thread pool is
--   a submodule: what it does with a task is an argument.
-- Queue: src/queue.cxx and the thread of src/asyncappender.cxx, as a step relation over all
--   interleavings.
-- AsyncAppender: the appender over that queue, in src/asyncappender.cxx; the thread is waited for
--   on fuel, and two rounds are enough.
-- Socket: src/socketbuffer.cxx and the wire format of src/socketappender.cxx, without UNICODE.
-- Ndc, Mdc: src/ndc.cxx and src/mdc.cxx, the diagnostic contexts of a thread. In Mdc a parameter
--   says what an rvalue holds after an `emplace` that found its key.
-- LogLevel: src/loglevel.cxx, the names of levels; the upper case of a character is a parameter.
-- Rolling: the files of `RollingFileAppender` in src/fileappender.cxx, by number; Configured and
--   Sizes are about its sizes, from properties.
-- Attachable: src/appenderattachableimpl.cxx, the appenders of a logger as a list of addresses.
-- Layout: src/patternlayout.cxx. The root holds the width of a field, Converter the converters,
--   with what they write for an event, and Parser the parser of patterns and `PatternLayout::init`;
--   a position in the pattern is the rest of the pattern. The loop of `parse` runs on fuel, and as
--   much fuel as the pattern has characters is enough. Parser/Runs is about the loop, and
--   Parser/Patterns about patterns of text (Texts) and of fields (Fields) with widths (Widths,
--   WidthRuns), and whole patterns (Pieces). Width, Literals, Precision and Depth are about what is
--   written. Fixed models src/layout.cxx.
-- StringHelper: include/log4cplus/helpers/stringhelper.h and src/stringhelper.cxx.
-- Property: src/property.cxx, with Reading for files and Values for typed values (`parse_bool` is
--   in src/env.cxx; Words is about its words). The loop of `substVars` runs on fuel; without recursive expansion one more
--   than the length of the text is enough, and with it no fuel may be. The fuel of `init` is the
--   depth to which files are included.
-- Configurator: src/configurator.cxx. Configure composes the configuration of appenders, loggers
--   and additivity over the models of the hierarchy, the levels, the properties and the tokens.
--   WatchDog is the thread that watches the file, by rounds, with src/fileinfo.cxx and the reset of
--   src/hierarchylocker.cxx (Hierarchy/Locker). Words is about the words of a logger's configuration
--   and Expanding about the end of the replacement of variables: without recursion one round of
--   it is enough, and as much fuel for a text as it has characters and one more.
-- EventCounter: src/eventcounter.cxx and include/log4cplus/helpers/eventcounter.h.
-- Env: the splitting of paths and the making of directories of src/env.cxx, for systems with
--   slashes. The loop of `split_path` runs on fuel; no fuel is enough for the root as its own
--   current directory.
-- TimeHelper: src/timehelper.cxx and include/log4cplus/helpers/timehelper.h. A point in time is its
--   number of microseconds; strftime is a parameter. `getFormattedTime` makes its buffer larger on
--   fuel, and 11 rounds are enough to reach the limit. Fractions is about `%q` and `%Q`, Directives
--   about what the walk over the format does, and Buffer about the loop.
-- Schedule: the schedules of `DailyRollingFileAppender` and the next time of a rollover, in
--   src/fileappender.cxx. localtime and mktime are parameters.
-- FileAppender: the stream of `FileAppenderBase`, the delayed reopening, and the backups on a disk
--   of paths, with Shift for the way they move; Configured and Opening are about the construction
--   from properties.
-- Daily: the rollovers of `DailyRollingFileAppender`. TimeBased: the patterns, with a table of their
--   fields (Fields), the rollovers and the history of `TimeBasedRollingFileAppender`; the loops over a pattern run on as much fuel as
--   it has characters, which is enough.
-- Log4jUdp: the escaping of XML in src/log4judpappender.cxx.
-- Connector: src/connectorthread.cxx with the socket appender that it serves, as steps of a thread
--   in any order with appended events.
-- Pointer: src/pointer.cxx and include/log4cplus/helpers/pointer.h, the counted references.
-- Registry: src/objectregistry.cxx.
-- Syslog: the priorities, messages and frames of src/syslogappender.cxx.
-- Event/Caching: the parts of an event that are read from the thread when they are asked for.
-- Filter/Configured and Appender/Configured: filters and appenders from properties; the loop over
--   the filters runs on fuel, and one more than the number of filters is enough.
-- Tests: the examples.
--
-- Not modelled: mutexes (each operation is one step), the system's sockets and consoles, the local
-- syslog, the lock file, the settings of the thread pool, the encodings of files, the classes that
-- only pass calls on (Logger, the C interface), and the messages of the library's own log.
pub mod Common
pub mod Hierarchy
pub mod Logger
pub mod Tests
pub mod Event
pub mod Filter
pub mod Appender
pub mod Socket
pub mod Queue
pub mod Ndc
pub mod Mdc
pub mod LogLevel
pub mod Rolling
pub mod Attachable
pub mod Layout
pub mod StringHelper
pub mod Property
pub mod Configurator
pub mod EventCounter
pub mod Env
pub mod TimeHelper
pub mod Schedule
pub mod FileAppender
pub mod Daily
pub mod TimeBased
pub mod Log4jUdp
pub mod Connector
pub mod Pointer
pub mod Registry
pub mod Syslog
pub mod AsyncAppender
