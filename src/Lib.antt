-- ===== src/Lib.antt =====
-- NaiveNet: the base library of a network server in C++, under base/ of the repository. The models here
-- are of the parts that compute or keep state; what they call of the C library and of the system is a
-- parameter, with what the code relies on as hypotheses of the theorems.
--
-- Parts and files:
--  * base/Date.h, base/Date.cc: Date. The functions keep the names of the code (getJulianDayNumber is
--    get_julian_day_number); Date/Calendar is the Gregorian calendar that they are held against, Date/March
--    the calendar with years that begin in March, on which Date/RoundTrip, Date/Inverse and Date/Order stand.
--  * base/log/LogStream.h, base/log/LogStream.cc: Log/Buffer is FixedBuffer, its memory a list of bytes and
--    cur_ an offset; Log/Convert is convert and convertHex, Log/Stream the overloads of operator<<, whose
--    arguments are the items of one data type. Log/Stream/Items says which text an item has and which room
--    it wants, and Log/Stream/Laws what a chain of operators adds to the buffer.
--  * base/log/Logging.h, base/log/Logging.cc: Log/Logging, a line of the log from the constructor of Logger
--    to its destructor. It puts items into a stream and takes its date from Timestamp and TimeZone.
--    Log/Logging/Statement has the macros and what a thread keeps from one line to the next, and
--    Log/Logging/Globals the variables of the whole program.
--  * base/log/AsyncLogging.h, base/log/AsyncLogging.cc: Log/Async. Producers and the thread behind them take
--    turns by a list of events, in any order; `run` goes through it, and its result is none where an
--    assertion fails. The buffers are those of Log/Buffer, the calls of the log file a list.
--  * base/log/LogFile.h, base/log/LogFile.cc: Log/LogFile, over the files of File.
--    Log/Pipeline puts AsyncLogging and LogFile together: the calls that the one has made, on the other.
--    Log/Pipeline/Statements goes from the logging statements of many threads to the schedule of AsyncLogging,
--    whose append is the output function.
--  * base/FileUtil.h, base/FileUtil.cc: File, the class AppendFile. The record Stdio of File is the interface
--    to the C library: operations and laws that a client is given. File/Small is ReadSmallFile, over the
--    record Files of the calls that read.
--  * base/ProcessInfo.h, base/ProcessInfo.cc: ProcessInfo, over the record System of what the system tells;
--    it reads the files of /proc by File/Small. ProcessInfo/Text has the searches and atoi.
--  * base/Timestamp.h, base/Timestamp.cc: Timestamp. base/StringPiece.h: StringPiece.
--  * base/TimeZone.h, base/TimeZone.cc: TimeZone/Utc is fillHMS, toUtcTime and fromUtcTime over Date;
--    TimeZone/Data the search findLocaltime, TimeZone/Local the local times, TimeZone/File the reader of zone
--    files, a monad over the bytes that are left and the data that are filled.
--  * base/ThreadPool.h, base/ThreadPool.cc: Thread/Pool, and Thread/Pool/Life from the constructor to the
--    destructor, with the exceptions of tasks. base/BlockingQueue.h: Thread/Queue. Both are
--    relations of steps, over the waiting of base/Condition.h in Thread/Wait; a critical section is one step.
--    So is base/CountDownLatch.h, base/CountDownLatch.cc: Thread/Latch.
--  * base/Mutex.h: Thread/Mutex is MutexLock, with waitForSeconds of base/Condition.cc.
--    Thread/Queue/Statements has put and take statement by statement, with the statements of lock, unlock
--    and wait in between; Thread/Queue/Locking relates its states to those of Thread/Queue, and its child
--    Refinement its steps, from which Order has what a user of the queue relies on.
--  * base/CurrentThread.h, base/Thread.h, base/Thread.cc: Thread/CurrentThread has the variables of one thread,
--    Thread/Life the life of a Thread and of the thread of the system that it starts, as steps.
--  * base/Exception.h, base/Exception.cc: Exception. base/Atomic.h: Atomic.
--  * base/Singleton.h, base/ThreadLocal.h, base/ThreadLocalSingleton.h: Thread/Local.
--  * Common has the names that all share, native-number lists, integers with the division of C, and printf.
--
-- Conventions. A number of the machine is a number without bounds unless a theorem says otherwise; a time or
-- a length that the code never makes negative is a natural number. The cast of toUtcTime to int is
-- modelled. The text of the time in a message about dropped buffers is a function of the number of calls that
-- the LogFile has had, so that each round has a time of its own. A failed assertion, and an access that C++
-- leaves undefined, is none. Parameters are gmtime_r, timegm, strftime with the host name and process id,
-- memcmp, fopen, fwrite, fflush and ferror, the %.12g of printf, strerror, the memory of a new buffer, whose
-- length is the size of the buffer, open, read, pread and fstat, what the system tells of the process, and the
-- numbers of threads. No call of pthread on a mutex or a condition fails, and a wait may end by itself.
--
-- Fuel. convert runs for one round more than the magnitude of its argument, which each round makes smaller;
-- lower_bound for the length of its range; the loop of AppendFile for one round more than the bytes of the
-- line, as each round but the last takes one; the loop of readToString for one round more than the bytes
-- asked for, for the same reason.
--
-- Not modelled: base/Types.h, which has casts only; the test programs of base/tests; the destructors that
-- close a file; a pthread_create that fails in ThreadPool; and the effect of the memory model on `running_`,
-- which AsyncLogging and ThreadPool read outside of the mutex.
pub mod Common
pub mod Date
pub mod Log
pub mod TimeZone
pub mod File
pub mod Thread
pub mod Timestamp
pub mod StringPiece
pub mod ProcessInfo
pub mod Atomic
pub mod Exception
