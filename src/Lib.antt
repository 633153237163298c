-- ===== src/Lib.antt =====
-- NanoDB: a small SQL-like database. A text goes through the lexer (src/parser/Lexer.cpp) and the
-- parser (src/parser/Parser.cpp), which turns the WHERE clause into postfix form with a stack
-- (src/common/Stack.h); the executor (src/executor/Executor.cpp) takes queries from a priority
-- queue (src/common/PriorityQueue.h), fetches pages through a buffer pool
-- (src/storage/BufferPool.h), which keeps its order of use in a linked list
-- (src/common/DoublyLinkedList.h) and its pages on disk (src/storage/DiskManager.h), reads rows of
-- the table's schema (src/catalog/Schema.h) from them (src/storage/Page.h, Row.h, Field.h) and runs
-- the clause on each. Hash maps (src/common/HashMap.h) serve the catalog and the buffer pool, and
-- AVL trees (src/common/AVLTree.h) the indices.
--
-- The files:
--   Base and below    numbers, lists, C ints, C strings
--   Doubles           the type double, a parameter: the results hold whatever it computes
--   AvlTree           AVLTree.h. AvlTree.put and delete are the public insert and remove, range is
--                     rangeQuery; balance_left, balance_right and rebalance are the two branches
--                     of balance. Steps, Rotations, Balance, Rebalance, Entries, Order, Count,
--                     Depth and Methods hold the proofs
--   HashMap           HashMap.h, HashMap and IntHashMap as one text over the keys of
--                     HashMap.Hashing; a bucket is the list of its nodes
--   DoublyLinkedList  DoublyLinkedList.h; the nodes are kept in a memory, a function from addresses
--                     to nodes, with the pointers head, tail, next and prev as addresses that may
--                     be missing. Segments and Front say what a memory represents
--   PriorityQueue     PriorityQueue.h, the array of the heap as a list
--   Stack             Stack.h
--   Token             Token.h
--   Lexer             Lexer.cpp; the state is the text from pos_ on. Lexer.Stream.tokens_of lists
--                     the tokens that nextToken returns
--   ShuntingYard      shuntingYard of Parser.cpp; ShuntingYard.Expr has the expressions that the
--                     precedences admit, with their infix and postfix tokens
--   Parser            the rest of Parser.cpp; the state is the list of the tokens to come.
--                     Parser.Grammar has the SELECT statements as tokens
--   Eval              evalWhere, applyOp and fieldToVal of Executor.cpp; Eval.Meaning has the
--                     meaning of an expression by its structure
--   Schema            Schema.h
--   Memory            bytes read and written, and the int as four bytes
--   Row               Field.h and Row.h
--   Page              Page.h
--   Disk              DiskManager.h; a file is the list of its bytes
--   BufferPool        BufferPool.h. The state is a Store, the pool with the disk below it; a frame
--                     is its number, and the address of its node in the linked list is kept by
--                     frame. Invariant has what every operation keeps, Load, Evict, Take, Register
--                     and Fetch the parts of fetchPage, View what a reader sees through pool and
--                     disk together, Transparent that fetching leaves it as it is, Saved the flushes
--   Catalog           SystemCatalog.h (src/catalog)
--   Index             AVLIndex.cpp (src/index)
--   Graph             Graph.h and JoinOptimizer.cpp (src/optimizer); find of union-find is find_root.
--                     Find, Link, Start and Unite are about union-find, Sort the sorted edges,
--                     Joined, Kruskal, Chosen and Spanning the edges of computeMST, Plan those of
--                     optimize
--   Executor          the handlers of Executor.cpp and Executor.h: Executor.Fetch the numbers of
--                     pages, Scan the sequential scan, Change INSERT, UPDATE and DELETE, Join the
--                     nested loops, Command the scan by an index, the queue and executeSQL
--   Tests             the theorems at concrete values
--
-- Loops are by structural recursion where the data shrinks or the source counts to a bound. Fuel is
-- used in six places: sift_up takes the index, which falls, sift_down the number of slots, which
-- the index approaches, join_loop the number of tokens, of which each round takes one, find_root
-- the number of nodes, where the rank rises with each round, run_tasks the length of the queue,
-- which each round shortens by one, and outer_rows 2 ^ 31, since it counts up to a record count
-- that is an int. The theorems about these state the finished result, so the fuel is enough there.
-- tokenize has the bound of the source, the size of the array.
--
-- An int is an integer; it is wrapped where the source relies on it (the hashes, the key of a page
-- and the bytes of an int) and taken as unbounded in counters and in atoi. A negative record count
-- in a damaged page is outside the model. Files open and are written without error. A column that
-- an INSERT gives no value for reads as the empty text. The pool finds a page by a key made of the
-- table's hash and the page's number, and it writes to the path kept with the frame: results about
-- what a reader sees take as a hypothesis that no two pages in use share a key.
--
-- Not modelled: benchmarkIndex of the executor, which times calls and prints; the data generator,
-- which fills files with random rows for the demonstrations; the logger and the programs, which
-- print and call the rest; the comparisons and copies of Field.h, which nothing calls, and its
-- texts, which are only printed; destructors and the release of memory.
pub mod Base
pub mod AvlTree
pub mod HashMap
pub mod PriorityQueue
pub mod Doubles
pub mod Token
pub mod Lexer
pub mod ShuntingYard
pub mod Stack
pub mod Memory
pub mod Schema
pub mod Row
pub mod Page
pub mod Disk
pub mod Catalog
pub mod Index
pub mod Graph
pub mod DoublyLinkedList
pub mod BufferPool
pub mod Executor
pub mod Eval
pub mod Tests
pub mod Parser
