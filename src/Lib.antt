-- ===== src/Lib.antt =====
-- cpp-url-shortener: a verification library for the C++ short URL service.
-- The program: one epoll thread accepts connections and hands complete requests to a worker pool
-- (webserver.cpp, threadpool/). A worker parses the request (http/http_conn.cpp), routes it
-- (http/router.cpp) and runs a handler (handler/short_url_handler.cpp). Creating a short URL takes
-- an id from the snowflake generator, writes it in base 62 and inserts it into MySQL; redirecting
-- asks the in-process cache, then Redis, then MySQL (shorturl/).
-- Each file names the code that it models. The parts:
-- - Common: shared names, lists, byte texts, maps as association lists, bit fields, decimal text,
--   FNV-1a.
-- - Base62: base62_encode (shorturl/base62.cpp).
-- - Snowflake: SnowflakeIdGenerator (shorturl/snowflake.cpp); the clock is the list of readings
--   that a call makes.
-- - LocalUrlCache: LocalUrlCache (shorturl/short_url_cache.cpp). Eviction has the two tables of a
--   shard and their byte counts, Invariant, Reads and Writes the operations on a shard, Budget the
--   memory bound, History the agreement with the last writes, Hits what is read after a write.
-- - Protocol: http/protocol_utils.h. ContentLength and Location have the proofs.
-- - Router: Router (http/router.cpp) and the routes that main.cpp registers. Segments has the
--   paths, Codes where the path of a code goes.
-- - Response: HttpResponse (http/response.cpp). Lines reads a serialized response back.
-- - BloomFilter: BloomFilter (shorturl/bloom_filter.cpp), with Membership.
-- - ShardRouter: ShardRouter (shorturl/shard_router.cpp). Buckets has the choice of a table, Names
--   the names of tables.
-- - SingleFlight: SingleFlight (shorturl/singleflight.cpp), one step for each section under a
--   lock. Bounds has its limits.
-- - ShortUrlCache: ShortUrlCache and OriginBudgetGuard (shorturl/short_url_cache.cpp), with
--   LocalUrlCache, BloomFilter and SingleFlight in its state. RedisValue has the wire format,
--   Replies the calls of Redis, OriginBudget the slots for MySQL while Redis is down.
-- - ShortUrlRepository: ShortUrlRepository (shorturl/short_url_repository.cpp), the SQL texts and
--   the reading of answers. Listing has the tables that are listed at start-up.
-- - ShortUrlHandler: handler/short_url_handler.cpp. The root has redirect, Shorten the creation;
--   Lookups, Redirects, Locations, Follow, Creates and RoundTrip have the proofs.
-- - HttpConn: http_conn (http/http_conn.cpp). State has the slot and its identity, RequestLine,
--   Headers and Reading the parser, Writing and Process the answer; Steps, Slots, Generations,
--   Sending and Finishing have the proofs on a slot, Lines, Targets, HeaderLines, Bodies and
--   Requests those on a request's text, SplitBody a body in two pieces.
-- - TimerList: sort_timer_lst (timer/lst_timer.cpp) with the calls of webserver.cpp. Order and
--   Reorder have the proofs.
-- - BlockQueue: block_queue (log/block_queue.h). Slots has the places of the elements, Refines the
--   comparison with a queue.
-- - ThreadPool: threadpool (threadpool/threadpool.h), with Fifo and Wakeups.
-- - ConnectionPool: connection_pool (CGImysql/sql_connection_pool.cpp), with Conservation.
-- - Server: the event loop's part in one connection (webserver.cpp, and cb_func of
--   timer/lst_timer.cpp), with HttpConn, TimerList and ThreadPool in its state. Counts, Clients
--   and Timers have the proofs on timers, Pipelined a response that is sent in part.
-- - ClickEvents: ClickEventProducer (analytics/click_event_producer.cpp), with Delivery.
-- State is a record, and an operation is a function that returns the new state; a mutex-protected
-- section is one step. What the code takes from outside is an argument: clock readings, random
-- draws, the answers of Redis and MySQL, parsed JSON. Texts are lists of byte values. Machine
-- integers are natural numbers with the wrap written out (`% 2 ^ 64`, and `wrap_int` for a sum
-- that may not fit an int); loops are structural or recursive on the accessibility of `<`, so they
-- need no fuel; the loop of HttpConn.Reading has as fuel twice the bytes received and two, since
-- each of its turns consumes a byte or is the one turn that looks for a body.
-- Not modelled: socket and epoll calls, the server loop, threads as such, the log writers,
-- metrics, the calls of the Kafka client, YAML loading, and the third-party libraries
-- (nlohmann/json, redis++, MySQL client, librdkafka), which the code only calls.
pub mod Common
pub mod Base62
pub mod Snowflake
pub mod LocalUrlCache
pub mod Protocol
pub mod Router
pub mod Response
pub mod BloomFilter
pub mod ShardRouter
pub mod ShortUrlCache
pub mod SingleFlight
pub mod ShortUrlRepository
pub mod ShortUrlHandler
pub mod HttpConn
pub mod TimerList
pub mod BlockQueue
pub mod ThreadPool
pub mod ConnectionPool
pub mod Server
pub mod ClickEvents
