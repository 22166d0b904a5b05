-- ===== src/Lib.antt =====
-- The Wye streaming service: a server that starts, watches and stops the worker processes of
-- streaming jobs at the request of HTTP clients. A request is a JSON object; its field `operation`
-- chooses among creating, listing and deleting jobs and workers. A worker is a child process of one
-- of five classes, which reports on descriptor 3, by lines of text, when it starts.
--
-- The program is src/*.C and src/*.h. Its parts, and the modules that model them:
--   * src/main.C: Service. The coroutines that accept and serve connections, the background thread
--     and the signal handler share the manager; each access of the manager's tables is made under a
--     mutex, so a run is a sequence of events, in any order, on one state. How the children change
--     by themselves is an event too. A run is followed up to the first call that ends the program or
--     never returns. Service.Threads has the smaller steps in which a round of the background thread
--     and the calls of the other thread meet at `workers_mutex`, without what the children do by
--     themselves in the middle of a round. Service.Connections has the turns that the connections
--     take on their thread, each up to its next call on its socket, with rounds between them. What
--     holds over whole runs is in Service.Children, Rounds, Noticed and Stuck, by way of
--     Service.Kept.
--   * src/connection.C: Connection. `connection::operator()` is `serve`: reading (`receive`), the
--     JSON parser, `manager::handle`, and the response, with each `catch` clause; Connection.Steps is
--     the same method as a coroutine.
--   * src/manager.C: Manager. `World` is the state: the two tables and the operating system.
--     `manager::handle` is `handle`, with one definition for each operation in Manager.Workers and
--     Manager.Jobs; a round of the background thread is `sweep` and `manager::stop` is `stop`, both in
--     Manager.Monitor.
--     The clients' view of all of it, without the tables' representation, is Manager.Registry.
--   * src/process.C: Process. A child's life is here; the start-up protocol is Process.Startup and
--     the description for a client is Process.Report.
--   * src/application_process.C, executable_process.C, python_process.C, lua_process.C and
--     lambda_process.C: Models, with one `init_process` each; what all five repeat is
--     Models.Outputs, and what their headers declare is Models.Classes.
--   * python/wye, the package that clients and workers import: Client. Its requests, and the
--     deployment of a job, which puts them one after the other, are put to `handle`; what its lambda
--     workers write on descriptor 3 is read by `read_lines`; how its workers take their arguments
--     apart is Models.Arguments.
--   * src/worker.C, src/job.C and src/invalid_request.h: Worker, Job and Outcome.
--
-- How the code is written here: a method is a function on the state that it can reach, into an
-- outcome and the state it leaves, also when it throws. An outcome is a value, an exception, a wait
-- that never ends, or the end of the whole program by `std::terminate`. `std::string` is a list of
-- bytes (Text), `std::map` a list of entries in the order of its keys (OrderedMap), and positions
-- are narrowed from `size_t` to `int` as the code narrows them.
--
-- Fuel: `while (1)` of `delete_job` gets one round more than the table has entries, and the loop
-- that reads a body gets the fuel of its event; both stand for an endless loop by `blocks` when it
-- runs out. The digits of a number get the number as their fuel.
--
-- Parameters, which are not code of this program: property trees (Ptree), the operating system with
-- launch, SIGTERM and waitpid (Kernel), and sockets and the JSON library (Http). Each is a record of
-- operations with the laws that are documented of them, and Samples fills each one. A law on a key
-- asks for one that is a path of one step: not empty, and without a dot. Which addresses ZeroMQ
-- takes is an argument of `parse_outputs`.
--
-- A request without `outputs` makes the classes of workers iterate over a temporary that is already
-- destroyed; it is modelled as the loop without a round that the code means.
--
-- Not modelled: the log lines, the message loops of the workers of python/wye and its older copy
-- context.py, the copies of Boost.Http (http/) and Boost.Process (process/), and the tools,
-- examples and packaging.
pub mod Common
pub mod Text
pub mod OrderedMap
pub mod Outcome
pub mod Ptree
pub mod Kernel
pub mod Job
pub mod Worker
pub mod Process
pub mod Models
pub mod Manager
pub mod Http
pub mod Connection
pub mod Client
pub mod Service
pub mod Samples
