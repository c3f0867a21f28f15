-- ===== src/Lib.antt =====
-- HylaFAX+: the queue manager faxq with its triggers and tables, the time-of-day restrictions of jobs,
-- sequence numbers, and the coding of pages.
--
-- faxq schedules the outbound jobs of a server. Clients (through hfaxd) submit, suspend and
-- terminate jobs; timers wake a job at its time to send and end it at its kill time; a send program
-- reports back through the job's description file. Each job stands on one doubly-linked list: a run
-- queue, the sleep queue, the active, suspended or dead list, or the list of jobs that wait for one
-- destination.
--
-- Tod: util/TimeOfDay.c++ and util/TimeOfDay.h. `next_time`, `next_day` and `next_time_of_day` are
--   _tod::nextTime, _tod::nextDay and TimeOfDay::nextTimeOfDay; localtime's week day and minute are
--   arguments. Tod/Parse.antt is TimeOfDay::parse on a list of character codes, with what sscanf's
--   "%u-%u" reads written out. The search over the days has seven rounds of fuel, one for each day,
--   and `none` stands for a search that does not end; the loops of parse have the text's length.
-- Faxq/State.antt: the data of faxd/Job.h, faxd/DestInfo.h, faxd/FaxRequest.h, faxd/Modem.h and
--   faxd/faxQueueApp.h. A server is a map from job identifiers to jobs, the lists as sequences, the
--   records of the destinations, the job description files of the queue and doneq directories, and
--   what other processes see of it (`Effect`). A job's `link` is the list that its QLink stands in.
--   `Env` is what comes from outside: the clock, the configuration, the rules for dial strings, the
--   job control program, the file system's answers.
-- Faxq/Link.antt: QLink::insert and QLink::remove of faxd/QLink.c++, Job::remove of faxd/Job.c++.
--   The assertion of QLink::insert that fails sets `relinked`, which the invariant excludes; other
--   assertions, and a list head destroyed with two or more jobs on it, set `faulted` and leave the
--   lists as they are.
-- Faxq/Dest.antt: faxd/DestInfo.c++. The counts wrap at 2 ^ 16, as u_short does.
-- Faxq/Request.antt, Place.antt, Delay.antt, Unblock.antt, Submit.antt, SendDone.antt, Suspend.antt,
--   Start.antt: the operations of faxd/faxQueueApp.c++, each under the name of its function in snake
--   case, with the timers of faxd/Job.c++. suspendJob's wait for a subprocess takes the events that
--   the dispatcher handles meanwhile as a list, and gives `none` if they end before the wait does.
--   The loop of unblockDestJobs and the delay loop of sendJobDone have the length of the blocked
--   list as fuel, of which each round takes a job; a batch has at most 64 jobs.
-- Faxq/Schedule.antt: the loop body of runScheduler up to the assignment of a modem: `verdict` is its
--   chain of tests, `carry_out` what each branch does. Faxq/Grounds.antt: the grounds of each
--   verdict. Faxq/Decided.antt, Limit.antt: where the verdict puts the job, and the calls to its
--   destination.
-- Faxq/Ring.antt: the pointers of faxd/QLink.c++ and the iterator JobIter of faxd/Job.h. A node is a
--   number, a list head too; Ring/Segments.antt, Ring/Refines.antt relate rings and sequences. The
--   walk has fuel, which the length of the ring bounds.
-- Faxq/Modems.antt: isCapable, modemAvailable and findModem of faxd/Modem.c++, assignModem of
--   faxd/faxQueueApp.c++. A modem group's regular expression, a modem's capabilities and the result
--   of locking a device are functions. Each round of assignModem makes a ready modem busy, so that
--   the number of ready modems is fuel enough.
-- Faxq/Linked, Faxq/Reach.antt: the links of jobs and lists under each operation and wait.
--   Faxq/Runs.antt: the runs of the server as a step relation. Faxq/Dead.antt, Accepted.antt, Ended.antt, Waiting.antt, Slept.antt, Asleep.antt, Failed.antt, Order.antt, Filing.antt:
--   what setDead, submitJob, terminateJob, a failed call, the insertion into the queues and
--   deleteRequest come to. Faxq/Counts.antt: the count of a destination's active jobs.
-- Faxq/Tests.antt, Faxq/Ring/Tests.antt, Faxq/Modems/Tests.antt, G3/Tests.antt, G3/Rows/Tests.antt,
--   Triggers/Tests.antt, Dictionary/Tests.antt, Sequence/Tests.antt, Tod/Tests.antt: the theorems at
--   fixed servers, days, tables, texts and rasters.
--
-- G3.antt: faxd/G3Encoder.c++, the coding of a raster in one dimension (MH, and the lines of MR that
--   have no reference line). G3/Finddiff.antt: find0span and find1span, for long words of eight bytes.
--   G3/Rows.antt: the lines that have a reference line (MR, MMR); Rows/Grammar.antt is the grammar of
--   T.4 and T.6, Rows/Pixels.antt, Steps.antt, Coded.antt read the loop's codes by it. A round of the
--   loop goes on in the line, but for one, so that the width and two is fuel enough. G3/Codes.antt,
--   G3/Table.antt are the tables of faxd/t4.h and zeroruns and oneruns; the bit reversal table, which libtiff gives, is the function `bitmap`. G3/Words.antt,
--   Stream.antt, Spans.antt, Runs.antt, Lines.antt, Eol.antt, Encoded.antt: the bit operations as
--   arithmetic, the bits put out, the search for runs, the codes of a run, the runs of a line, the EOL,
--   the whole line. putBits has a round of fuel for each bit, putspan for each pixel, scan for each
--   pixel of the range, and the loop of a line for each pixel of its width, which the theorems show to
--   be enough.
--
-- Triggers.antt: faxd/Trigger.c++ and faxd/TriggerRef.c++: the requests of clients for events, the bitmap
--   of their identifiers by bytes, the lists of references. A trigger is its number; what the names of
--   jobs and modems stand for are functions. The loop of parse has the specification's length as
--   fuel, of which each round takes a character; the search for a word has its 128 words. Bitmap.antt,
--   Words.antt, Ids.antt, Lists.antt, Purged.antt, Grown.antt, Kept.antt, Begun.antt, Cancelled.antt carry
--   the invariant; Written.antt is what specifications are written as; Served.antt, Refused.antt,
--   Parsed.antt, Posted.antt: what runs of requests, refusals, specifications and events come to.
--   WellFormed says nothing of the lists of jobs and modems: a refused specification may leave a
--   reference on one. An event that meets such a reference sets `dangling`, since the code then reads
--   the freed trigger.
--
-- Dictionary.antt: util/Dictionary.c++, the hash tables in which faxq keeps its jobs, clients and
--   destinations. Dictionary/Refines.antt, Served.antt: a table and a finite map; Dictionary/Visited.antt:
--   iterators, whose walk over the buckets has their number as fuel.
--
-- Sequence.antt: Sequence::getNext of util/Sequence.c++, on what the sequence file and its increment file
--   hold; Sequence/Cycle.antt: consecutive calls.
--
-- Not modelled: the batching of runScheduler, the preparation of documents, the FIFO protocol, the hook
-- command of triggers, the purge of a client's triggers, iterators over a table that changes, file
-- locks, the trace and error logs, and every other program of the repository (faxgetty, faxsend, pagesend, hfaxd, the clients). Numbers stand for strings.
pub mod Prelude
pub mod Tod
pub mod Triggers
pub mod Dictionary
pub mod Sequence
pub mod Faxq
pub mod G3
