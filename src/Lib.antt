-- ===== src/Lib.antt =====
-- A model of the core library of the repository, nodejs/core, and of the accounts application built on
-- it, with its proofs.
--
-- The parts, and the files that model them:
-- - TimeSeries (nodejs/core/timeseries.js, class `TimeSeries`): a sorted array of timestamped entries,
--   the in-memory form of the persisted series. The record `TimeSeries` has the two options and the
--   array; `find_`, `find`, `insert`, `get_timestamp`, `wrap`, `consistency_check`, `consistency_fix`
--   and `for_each` are the methods. A timestamp is a natural number of milliseconds. The search loop
--   runs on fuel, the length of the array and one more, which is enough since each round shortens the
--   range. `consistencyFix` relies on a stable sort, which JavaScript has. Not modelled: the estimate
--   of the size in bytes.
-- - Cache2 (nodejs/core/cache2.js, class `Cache2`): collections of values with timeouts and sizes, a
--   fetch that concurrent readers share, and a garbage collector that bounds the size. Cache2.antt has
--   the methods that run at once, with the time as an argument, and Cache2/Garbage.antt the collector;
--   Cache2/Fetch.antt has `get`, cut at its awaits into the steps `attempt` and `settle`, so that an
--   interleaving is a list of steps; Cache2/History.antt runs any list of calls from the constructor on. The function that fetches is
--   the caller's: its value or error is an argument of the step that ends the fetch. Sizes are natural
--   numbers; no subtraction of the code goes below zero while the sizes are accounted for. Not
--   modelled: logging and statistics, `fetch` on a collection's accessor, and how keys are joined.
--
-- - Mutex (nodejs/core/mutex.js): the object, and beside it the timers of the event loop, the callbacks
--   that hold it, and the histories that the theorems speak of. `Step` is what can happen: a call of
--   `lock`, the release by a holder, a timer.
-- - Lock (nodejs/core/lock.js): the chain of promises that `acquire` makes, with a number for each call.
--   `Step` is what can happen: a call, the reaction to the promise before, the end of a callback, and
--   the callback of `finally`, behind which the model takes the promise for settled.
-- - Scopes (nodejs/core/authentication/scopes.js): permissions as paths, their containment, the checks
--   and filters of dictionaries guarded by them. Texts are lists of code units.
-- - Accounts (apps/accounts/backend/users): Subscription, Token (`TokenInfo`), Roles and User, one file
--   per class; the tokens and subscriptions of a user are in Accounts/User. A method that throws
--   returns `none`: `Users.update` stores a user only if its callback returns. The hash of a text and
--   bcrypt are a parameter, the record `Crypto`. Users (Accounts/Users.antt) has the stored users and
--   the requests that change them, over the store in memory. Not modelled: `dataPublic`, the requests
--   that only read, and two updates of one user at the same time.
--
-- - KeyValueStore (nodejs/db/key_value_store/memory.js and key_value_store.js, nodejs/db/utils.js): the
--   store in memory, pages of sorted keys, the iterator over pages, and `dump`. The iterator runs on
--   fuel, the number of keys and one more, which is enough since each page but the last has a key.
--   Not modelled: `listMatch`, and the accessor of one bucket.
-- - PendingActions (apps/accounts/backend/pending_actions/pending_actions.js), in Accounts: codes with a
--   timeout and a number of attempts, over that store. The code that is drawn and the function that
--   an action runs are arguments. `run` is modelled without another call between its read and its
--   write, which it awaits.
-- - RateLimiter (nodejs/core/rate_limit.js): the sliding window of timestamps for each key, kept in a
--   collection of the cache through its `getInstant` and `set`. Its clock is the one of the cache.
-- - Terminal (nodejs/vue/components/terminal/frontend/vt100.vue): Style has the styles, Screen the rows
--   and `write`, Commands the handlers, Stream the regular expressions, written out as functions on
--   lists of code units, and Process `process` and the watcher of the stream. `process` runs on fuel, the
--   length of the stream and one more, which is enough since each round takes a prefix of a command
--   away. The arguments of a command are exact numbers. The stream is empty when a terminal is
--   created. `insertChar` throws beyond the longest array. Not modelled: the limits of memory and of the
--   stack, sizes in pixels, events, and what Vue does.
-- - Storage (nodejs/db/storage): Memory is the virtual file system of memory.js, as a tree of names, and
--   Permissions is permissions.js. Paths has the abstract view, the content of each path. Interface is
--   storage.js: its methods take the implementation as a record of functions, with the laws of a map as
--   hypotheses, which the storage in memory satisfies. Not modelled: streams, walk and listAll.
-- - Router (nodejs/core/router.js): Compile translates a path to the parts of its expression and its
--   variables, Expression is how JavaScript matches these, and Match has `add`, `compileRoutes` and
--   `match`, with the groups of the one expression of all routes as a list. decodeURIComponent, which
--   may throw, and the folding of upper and lower case are parameters; parseInt is exact. Not modelled:
--   `toRoute`, and `dispatch`, which awaits the handler or the fallback.
--
-- Prelude.antt and its children have the shared names, lists and maps; the files under Tests run the
-- code on concrete inputs. A JavaScript `Map` and an object used as one are association lists in the
-- order of insertion.
pub mod Prelude
pub mod Accounts
pub mod Cache2
pub mod KeyValueStore
pub mod Lock
pub mod Mutex
pub mod RateLimiter
pub mod Router
pub mod Scopes
pub mod Storage
pub mod Terminal
pub mod TimeSeries
pub mod Tests
