-- ===== src/Lib.antt =====
-- note-rag: uploaded course notes are stored, parsed, cut into chunks, embedded, and searched; study
-- items are made of them. This library models the path of an upload through the program, the
-- package src/note_rag of the repository, from its text to its indexed chunks, the context that is
-- built of the chunks found for a question, the search and its caches, the jobs that generate study
-- items and the schedule of those, the topics of a course, the chat over the notes, and the limits on requests.
--
-- The parts, and the file that models each:
-- + Base: shared names, Boolean tests, lists, Python's `int` (Base.Int), calls that raise
--   (Base.Result), tables of rows with a primary key (Base.Table, Base.Queries), and sorting (Base.Sorting).
-- + Chunking, for src/note_rag/chunking: Tokens is tokens.py, Models is models.py with the checks of
--   both `__init__`, Build is the loop body that both chunkers share, Windows is `TokenChunker` of
--   service.py, Separators and Recursive are recursive.py. Chunking.Contract states what both chunkers
--   promise; Windows.Sound and Recursive.Sound are the proofs of it.
-- + Persistence, for src/note_rag/persistence: Models holds rows and enumerations of models.py, Jobs,
--   Documents and Chunks the repositories of those names in repositories.py. The children of Jobs
--   and Chunks hold the proofs. Persistence.Topics is `TopicRepository`, with the links of documents to courses
--   that it asks; Families and Rows say what a change of one row does to `_siblings`, and the other
--   children hold what each operation does and what stays of the hierarchy. Jobs.Claimable and Jobs.Stale say
--   in their own terms which rows can be claimed or are stale, and what becomes of one.
-- + Embeddings.Indexing is `IndexingService` of src/note_rag/embeddings/service.py.
-- + Ingest, for src/note_rag/ingest: Pipeline is `process_job` of pipeline.py, Worker is worker.py.
--   The worker calls the job repository, the pipeline and the indexing service, and acknowledges
--   or defers the message that brought it the job.
-- + Context, for src/note_rag/context: Models are the records of models.py with those of
--   src/note_rag/retrieval/models.py passed on, Scoring is `_rerank`, Dedup `_deduplicate`, Budget `_fit_budget`,
--   Service `build`, all of service.py. Context.Budget counts tokens by Chunking.Tokens.
-- + Retrieval, for src/note_rag/retrieval: Models is models.py, Cache and Cache.Results are cache.py,
--   Fusion is `_fuse` and Service is `search` of service.py. The search reads and fills the two caches;
--   indexing invalidates the results through `invalidate_retrieval`.
-- + Generation: Jobs is `GenerationJobRepository` of src/note_rag/persistence/repositories.py, Worker is
--   src/note_rag/generation/worker.py, Enqueue is `enqueue_generation` of src/note_rag/api/app.py, which adds a
--   job and, where no worker runs in the background, runs it itself. The service that generates is an
--   argument.
-- + Api, for src/note_rag/api/middleware.py: RateLimiter, and Middleware, the checks that a request passes
--   before the next handler. The middleware asks the limiter.
-- + Chat, for src/note_rag/chat: History is `_load_history`, Citations `_extract_citations`, Service `ask` and Stream
--   `stream`, all of service.py, with prompts.py in Service; Messages holds the two repositories of
--   src/note_rag/persistence/repositories.py that it writes by, and Models the records of models.py. Service reads
--   the history, has a context built, asks the provider, and stores question and answer in two sessions.
-- + Queue.Consumer is `QueueConsumer` of src/note_rag/queue/consumer.py, which hands the worker its
--   messages.
-- + Study.Scheduling is src/note_rag/study/scheduling.py, which makes the memory state of a study item
--   of its review attempts.
--
-- How state is modelled. A database session is a function from the tables to the tables that it
-- commits; where it raises there are none. An assignment to an ORM object is an assignment to its
-- row. A UUID is a number, a time is a number of ticks, a text is a list of code points, and a
-- float is its bit pattern. What `datetime.now` returns is an argument, one for each method.
-- `ack` and `defer` of the worker do not raise in the model: a broker that fails is left out.
-- The row locks of other transactions (`SKIP LOCKED`) are an argument too.
--
-- Loops. `for` over a range runs on fuel: the count of tokens for the windows, the width of the range
-- for the fixed pieces, the count of chunks for the batches. Each round consumes one token or
-- chunk at least, and the theorems on the chunkers show that the fuel is enough, since the ranges
-- run to the last token. The rounds of the generation worker are counted, and the
-- theorems say how many are enough. The walk of `_validate_parent` to the root and the cascade of
-- `delete` have as fuel a bound on the depth of the topics, which the theorems have as a hypothesis.
--
-- Parameters. Which code points `\w` and `\s` match; storage with its parsers; the chunker that the
-- pipeline is given; the embedding model; the cache invalidator; the retriever and the reranker. The
-- collaborators may raise and may return anything. The broker of the queue is outside: what it
-- answers is an argument of the consumer, and the worker is modelled with the message that a poll
-- returned. Arithmetic on floats, `casefold`, `json.dumps` and the
-- digest of a cache key are arguments too, and so are the service that generates, `str.lower` and
-- `compare_digest` of the request middleware. The chat takes the context builder, the provider, the values of
-- decimal digits and the limit of `int` on them as arguments.
--
-- Not modelled: the SQL of the retrieval repository, grading, progress, the
-- providers of the chat, the generation service, evaluation, the rest of the web API, migrations, the benchmark
-- scripts and the frontend. The unique constraint on the positions of
-- topics is checked by the flushes of `update`, which Persistence.Topics.Flushed describes. The flushes of `add` and
-- `delete` are left out: these two give the rows that the session holds. So is the
-- `delete-orphan` cascade: the session holds no parent that a topic leaves for the root. Parsers and storage
-- are file formats and input/output.
pub mod Base
pub mod Chunking
pub mod Persistence
pub mod Embeddings
pub mod Retrieval
pub mod Context
pub mod Ingest
pub mod Generation
pub mod Queue
pub mod Chat
pub mod Study
pub mod Api
