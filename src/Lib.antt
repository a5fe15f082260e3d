-- ===== src/Lib.antt =====
-- Memstem: a memory service for agents. Markdown files in a vault are the truth, and an SQLite index
-- over them answers searches. This library models the core of the program in src/memstem and states
-- what makes its parts correct.
--
-- The parts and how they interact. An adapter hands a record to the pipeline, which asks the noise filter whether to
-- keep it, writes the vault file, upserts the index and puts the memory on the embed queue. Workers claim rows of that
-- queue, plan which vectors of a memory they can keep, have the embedder make the others, and write all of them in one
-- transaction. A search runs its keyword leg and its semantic leg, the latter on a thread of its own where there is a
-- time limit, fuses the hits, reads the memories, reranks them and diversifies them, and writes what it served to the
-- query log. The hygiene loop runs its stages when they are due; runners of a stage exclude each other by a lock in
-- the index. One of the stages raises the importance of the memories that the query log says were used.
--
-- Files and code, each file with its child modules for the proofs:
--   Prelude      Boolean tests on numbers, lists measured by native numbers, Python's stable sort, permutations, and
--                Table, a database table keyed by a number with the SQL statements as functions
--   Index/Queue  src/memstem/core/index.py, the table embed_queue: enqueue_embed, dequeue_embed, claim_pending,
--                mark_embed_error, release_embed_claim, queue_stats, reset_failed_queue
--   Index/Store  src/memstem/core/index.py, the other tables: upsert, delete, strip_vectors, the embed states and
--                verify_embedding_signature
--   Index/Vectors  src/memstem/core/index.py: VectorReusePlan, plan_vector_reuse, apply_vectors
--   Worker       src/memstem/core/embed_worker.py: _embed_one, tick, _transient_sleep
--   Search       src/memstem/core/search.py: rrf_combine, _materialize, _apply_rerank
--   Search/Retrieve  src/memstem/core/search.py: query_bm25, _run_semantic_leg, _retrieve_and_rank
--   Search/Leg   src/memstem/core/search.py: _SemanticLeg, its thread and the search's thread in any order
--   Search/Recency  src/memstem/core/recency.py: policy_from_config, policy_for_query, recency_multiplier
--   Search/Status  src/memstem/core/search.py: search_with_status, and the counter of searches of core/index.py
--   Search/Limits  src/memstem/servers/request_limits.py, as src/memstem/servers/http_server.py uses it
--   Mmr          src/memstem/core/mmr.py: mmr_rerank
--   Embeddings   src/memstem/core/embeddings.py: chunk_text and the circuit breaker of Embedder
--   Pipeline     src/memstem/core/pipeline.py and src/memstem/core/dedup.py: Pipeline.process with the exact-body dedup
--   Pipeline/Filter  src/memstem/core/extraction.py: noise_filter and its tests
--   Frontmatter  src/memstem/core/frontmatter.py: coerce
--   Hygiene      src/memstem/hygiene/state.py: acquire_stage_lock, release_stage_lock
--   Hygiene/Loop  src/memstem/hygiene/loop.py: _tick, _maybe_run_stage, with due_for_run and the stamps of
--                src/memstem/hygiene/state.py
--   Hygiene/Expired  src/memstem/hygiene/expired_vectors.py: find_expired_with_vectors, apply_strip
--   Importance   src/memstem/hygiene/importance.py: compute_importance_updates, apply_importance_updates,
--                with the exceptions of an application in apply_with_faults
--   QueryLog     src/memstem/core/retrieval_log.py and src/memstem/core/retrieval_pending.py: log_search_results,
--                log_get, the pending files and their replay, the prune
--   Skipped      src/memstem/core/skipped.py: SkippedFiles
--   Tests        runs on concrete inputs, and each theorem at an input that meets its hypotheses
--
-- How state and operations correspond. A table is an association list in insertion order, or a function from
-- memory ids where rows of one memory are read and written together; a method that runs SQL is a function from the
-- old tables to the new ones, and a method that raises gives an error of Index/Result or none. Ids, paths, tags,
-- hashes, signatures and times are natural numbers; only their equality and order are used. A method holds the
-- lock of the index, so that it is one step; what other threads do between two methods is an argument, or a step
-- of a relation where two threads share a handle. What lies outside the program is an argument too: the files, the
-- replies of the embedder and the reranker, pydantic's validation, fresh ids and the clock. A transaction that
-- raises is rolled back to the state before it. Floats are a type with their operations given; the laws that a
-- theorem needs of them stand among its hypotheses.
--
-- Bounds and fuel. Loops are structural recursion on the list or on the room that is left. Only the cutting of a long
-- paragraph has fuel, the length of the paragraph, which is enough where the limit is positive. Subtraction of times
-- stops at 0: a cutoff before time 0 is the cutoff 0, before which no claim lies either.
--
-- Not modelled: the SQL schema, migrations and queries, file and network I/O, the adapters, the handlers of the servers,
-- the command line, the matches of the noise filter's regular expressions (given with a record), the parsing of headers,
-- the endless loops around tick, and the stages that call language models, since they are I/O or code of other packages.
-- Where a method gives up the lock of the index within itself, as plan_vector_reuse does before it reads the vectors to
-- copy and enqueue of retrieval_pending.py does throughout, it is one step all the same.
pub mod Prelude
pub mod Index
pub mod Worker
pub mod Search
pub mod Mmr
pub mod Embeddings
pub mod Pipeline
pub mod Frontmatter
pub mod Hygiene
pub mod Importance
pub mod QueryLog
pub mod Skipped
pub mod Tests
