-- ===== src/Lib.antt =====
-- norcom2kv: a model of the program that reads the files of WMO bulletins that a message switch
-- writes to a directory, splits them into reports and sends these to kvalobs.
--
-- The parts and how they interact. CollectWmoReports polls the directory. A file whose time of
-- change stands still is copied; what is new in the copy (by offset and checksum) goes to
-- WMORaport::split, which finds the messages between ZCZC and NNNN, dispatches each on its header
-- and collects the reports of each type in a map. The maps are sent to kvalobs with the decoder
-- configured for the type; what kvalobs could not save is written to a file and sent later.
--
--   Prelude    tests, lists, bytes; Outcome: a call returns, faults or needs more rounds
--   Stream     std::istream over a string buffer: characters behind and ahead, the state's bits
--   Map        std::map as the list of its entries in the order of the keys
--   Crc        src/crc_ccitt.cc: crc_ccitt (both overloads)
--   Framing    src/WMORaport.cc: validChar, findZCZC (find_zczc), getMessage (get_message; its loops
--              are read_message and read_end)
--   Lines      src/WMORaport.cc: readToEof, skip, skipEmptyLines, readReport; Reports has what they
--              make of a text of reports
--   Raport     src/WMORaport.cc and .h: class WMORaport (WmoRaportState); Kinds has the types of
--              bulletin, Messages the maps, Handlers doSYNOP to doBUFR_SURFACE, Print operator<<;
--              doDispatch, dispatch, decode, split, getRaports and the copies are in Raport itself;
--              Sections and Collected lead from the reports of a bulletin to the maps
--   System     the calls of the operating system and of libkvhttp as a record of functions on a
--              state of the surroundings, and their sequencing; System.File is src/File.h and .cc
--   Files      src/FInfo.h, and of src/CollectWmoReports.cc getNewObsPart, copyFile, readFile and
--              the bodies of the loops over the entries (check_entry, collect_entry); Stuck has what
--              polls come to on a copy that cannot be read
--   Config     src/App.cc: getRaportConf, getRaportsToCollect, getDecoder
--   Delivery   src/App.cc: sendDataToKvalobs; src/CollectWmoReports.cc: sendMessageToKvalobs,
--              sendWMORaport, writeFile; Saved has tryToSendSavedObservations and getFileList
--   Collector  src/CollectWmoReports.cc: checkForNewObservations, collectObservations, doNewObs;
--              StateFile has saveFInfoList and readFInfoList of src/App.cc, Run has run with its two
--              timers
--   Logging    src/InitLogger.cc: getLogLevel, the levels that InitLogger sets, and in Setup the
--              whole of InitLogger
--   Startup    src/App.cc: the constructor of App, getDir, getKvServers, createDir, checkdir,
--              setSigHandlers, options
--   Argv0      src/decodeArgv0.cc
--   Program    src/norcom2kv.cc: main and rundir
--   Tester     src/testWMORaport.cc: printWmoRaport, getDecoder and main; File has readFile
--   Tests      the functions and the theorems at concrete inputs
--
-- A byte is the number of an unsigned char, a std::string a list of bytes. The state of an object is
-- a record that its functions take and return. A read out of the bounds of an array and a position
-- behind the end of a string are faults. A variable that is read before it is set is a parameter
-- (junk). The checksum's arithmetic is that of 32-bit unsigned ints, written out; counters, lengths
-- and times are natural numbers without a bound, which the program's never leave on an input
-- shorter than 2^31 characters. Offsets are never negative in the program, nor are the times of
-- files changed after 1969.
--
-- Loops over a stream take fuel, a unit for each round. A round takes a character or ends the loop,
-- so that one more unit than there are characters suffices for the search for the end mark, and two
-- more for the reading of a report and for a handler; the search for ZCZC may not end, which is a
-- result below.
--
-- Functions of boost (trim, regex_match, to_upper), of miutil (trimstr, encode64, copyfile) and of
-- the system are parameters; the theorems hold for all of them, or name the documented behaviour
-- that they need as a hypothesis. A text printed only to the log is
-- not modelled. An exception of newData goes through the try blocks of sendDataToKvalobs and of
-- sendMessageToKvalobs with their catch clauses. The rounds of run are as many
-- as are given; between two of them the surroundings may change in any way. The configuration is the
-- same whenever it is asked for. An access through a null pointer is a fault. exit ends the process
-- with its status; what destructors do behind it, or behind main, is not modelled.
--
-- Not modelled: the old sender src/wmo2sdecode.cc, which calls an interface that WMORaport no longer
-- has, src/testenv.cc, which is not built, and src/TimeCheck.h, which nothing uses.
pub mod Prelude
pub mod Crc
pub mod Outcome
pub mod Map
pub mod Stream
pub mod Framing
pub mod Lines
pub mod Raport
pub mod System
pub mod Files
pub mod Config
pub mod Delivery
pub mod Collector
pub mod Logging
pub mod Startup
pub mod Argv0
pub mod Program
pub mod Tester
pub mod Tests
