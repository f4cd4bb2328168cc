-- ===== src/Lib.antt =====
-- Verification of the search engine: a server that recommends words, searches pages, and answers
-- clients over a socket. The development models the C++ code under src/, include/, client/,
-- pageDump/ and recommanderDump/, as functions into Option, where none is undefined behaviour or
-- an uncaught exception of the source.
--
-- Parts, on the server's side: Prelude has the shared names, association lists, ordered sets and
-- text helpers. Lru models src/cache/LRUCache.cc (get, put, writeToFile, readFromFile, updateP2M,
-- updateM2M); its list has cells with identities that stand for the iterators in _umap, and
-- Lru/Invariant gives the abstract view: the entries in order of use; Lru/Map forgets the order
-- by a quotient. Manager models src/cache/CacheManager.cc (init, getCache, updateCache).
-- Manager/Actions takes updateCache apart into the single actions of the timer's thread, and
-- Timer models start, its loop and stop of src/cache/Timerfd.cc, whose callback it is, with a
-- step of its own for each access to _isStarted and each system call. Recommender models
-- KeyRecommander::doQuery of src/recommander/KeyRecommander.cc over an interface of the
-- dictionary, and Recommender/Service lets queries and the actions of updateCache fall between
-- one another. Utf8 models nBytesCode and length in include/recommander/minDistance.h,
-- src/recommander/Dictionary.cc and src/WebPageSearcher.cc. Distance models
-- MinEditDist::editDistance of include/recommander/minDistance.h. Dictionary models initDict,
-- initIndex, splitSought, doQuery and getSolitaireKeys of src/recommander/Dictionary.cc;
-- Dictionary/Answers fills the interface that Recommender asks for. Searcher models
-- src/WebPageSearcher.cc: its two files, the pages of one and of several keys, their ranking, the
-- snippets and doQuery.
--
-- Parts, between server and client: Protocol models parse and process of src/cache/MyTask.cc, and
-- pack and parse of client/clientTest.cc. Sockets models readn, readline and writen of
-- src/reactorpool/SocketIO.cc, with receive and send of src/reactorpool/TcpConnection.cc, over a
-- list of what the calls of recv and send come to. Pool models src/reactorpool/TaskQueue.cc and
-- the threads and stop of src/reactorpool/Threadpool.cc as a step relation, Pool/Steps.
-- Configuration models src/Configrution.cc. Reactor models the handlers of connections and the
-- pending functors of src/reactorpool/EventLoop.cc, the latter as a step relation, Reactor/Steps;
-- Reactor/Dispatch models loop and waitEpollFd over what epoll_wait returns, with isClosed of
-- src/reactorpool/TcpConnection.cc. Server puts the parts together as onMessage of
-- src/EchoServer.cc does, and has getRandKeys. Client models the loops of client/clientTest.cc,
-- test0 and unpack.
--
-- Parts that produce the files: Vocabulary models buildCnDict of recommanderDump/DictProducer.cc,
-- which counts the words of the material. Producer models createIndex and store of
-- recommanderDump/DictProducer.cc; store writes the files that initDict and initIndex read. Pages
-- models buildripepage and store of pageDump/PageProducer.cc, which gather the items of the RSS
-- files and write the page library and the offsets that initOffset reads. Indexing models
-- pageDump/PagePreProcessor.cc, which makes and stores the inverted index that initInvertIndex
-- reads.
--
-- How they interact: a request is received by Sockets, handed to the pool, parsed and dispatched
-- by Protocol; a recommendation goes to Recommender, which looks in the cache of its thread (Lru)
-- and then asks the dictionary, which orders its words by Distance; Manager brings the caches of
-- the threads together from time to time; a page search goes to Searcher, which cuts the pages
-- out of the library at the offsets.
--
-- Bounds: strings are lists of bytes, sizes are taken to fit their integer types, and a message
-- has to fit the 4096 bytes of the source's buffers. Loops recur on the rounds that are left or
-- on the rest of the text. Recommender/Service takes the list of what happens, and
-- Reactor/Dispatch the list of what epoll_wait returns. Three loops have fuel: that of
-- splitSought has a unit for each byte of the word, and more changes nothing; that of readline
-- has one unit more than there are events, and each round consumes an event; the client's test0
-- takes the number of its rounds.
--
-- utf8::next and the heap of std::priority_queue, double, the XML reader of tinyxml2, the JSON
-- reader and printer, jieba's segmentation, regex_replace, accept, and rand are parameters, with
-- what the code relies on as the laws of an interface or as a hypothesis.
--
-- Not modelled: what is only printed; the wrappers of system calls (sockets, addresses, threads,
-- epoll and timer descriptors, the listing of directories); data races, since a step of a thread
-- is taken as a whole; cosines that are NaN, for which a std::set has no defined order; the older
-- pageDump/WebPageSearcher.cc but for its initInvertIndex (Indexing/OlderReader), since the rest
-- is the text of src/WebPageSearcher.cc; and the copies of tinyxml2, json.hpp, utf8-cpp and
-- cppjieba.
pub mod Prelude
pub mod Lru
pub mod Manager
pub mod Recommender
pub mod Protocol
pub mod Utf8
pub mod Distance
pub mod Dictionary
pub mod Producer
pub mod Searcher
pub mod Sockets
pub mod Pages
pub mod Client
pub mod Pool
pub mod Indexing
pub mod Vocabulary
pub mod Timer
pub mod Server
pub mod Reactor
pub mod Configuration
