-- ===== src/Lib.antt =====
-- The core of memos-qdrant, a memory plugin for coding agents (core/). An agent's turns are held in
-- episodes, and episodes in sessions; finished episodes become traces, traces that look alike
-- become candidates for a policy, policies become skills, and failures of tools trigger repairs.
--
-- Which file models which part:
--   * Session: core/session/. `World` is the state of the managers (the map `byId` of
--     createEpisodeManager, the map `live` of createSessionManager, the tables, the events that were
--     emitted) and the way an operation runs on it: it returns or throws, and what it wrote before a
--     throw stays. `Types` is core/session/types.ts, `Db`, `SessionsRepo` and `EpisodesRepo` are the
--     two tables with the statements of core/storage/repos/sessions.ts and
--     core/storage/repos/episodes.ts and the adapters of core/session/persistence.ts. `Episodes` is
--     core/session/episode-manager.ts, `Manager` core/session/manager.ts. A function keeps its name,
--     as in closeSession and `close_session`. `Intent` is core/session/intent-classifier.ts over
--     core/session/heuristics.ts, with the regular expressions of the rules and the LLM as arguments.
--   * EventBus: core/session/events.ts, the subscribers of the managers' events.
--   * Feedback: core/feedback/signals.ts, the tracker of tool failures.
--   * Memory: core/memory/l2/candidate-pool.ts over core/storage/repos/candidate_pool.ts.
--   * Skill: core/skill/lifecycle.ts, the states of a skill under feedback; core/skill/skill.ts, the
--     function applySkillFeedback around it (`Feedback`); core/skill/eligibility.ts, which policies
--     become skills (`Eligibility`).
--   * Reward: core/reward/backprop.ts, the values of an episode's traces.
--   * Capture: core/capture/step-extractor.ts: `ToolCalls` is what it reads from the meta objects of
--     turns, `Segments` the split at the user's turns, `Stamps` the choice of free time stamps, and
--     `Steps` the steps that a segment becomes; core/capture/normalizer.ts (`Normalizer`), the
--     truncation of long texts and the steps that are dropped.
--   * Retrieval: core/retrieval/ranker.ts over core/retrieval/types.ts: `Relevance` is the scores and
--     the relative threshold, `Ranker` the greedy pick.
--   * Storage: core/storage/tx.ts, retries, chunks of an IN list and savepoints (`Tx`);
--     core/storage/migrator.ts (`Migrator`); products, cosines and the search for the best rows of
--     core/storage/vector.ts (`Vector`, with the bounded heap in `Heap` and topKCosine in `TopK`).
--   * Embedding: core/embedding/cache.ts, the LRU cache of vectors and the empty one.
--   * Shared: names of the libraries, tests on numbers and strings, lists, and the JavaScript `Map`
--     (`Keyed`), integers (`Int`), texts (`Text`) and JSON columns (`Json`,
--     core/storage/repos/_helpers.ts).
--
-- How the parts meet: the session manager calls the episode manager, and both write the same
-- tables; the clock, the random ids and the intent classifier that the managers are given are
-- fields of the state that the code reads. SHA-1, the arithmetic of doubles, the order of
-- `localeCompare`, the table of traces, what a listener does, what SQLite does with a script, how a
-- number prints, the UTF-16 units of a string, JSON.stringify and the depth that a double in a meta
-- object stands for are arguments. Times, steps and counters are natural numbers; a difference that
-- may be negative is an integer; the 32-bit hash of a signature is computed modulo 2 ^ 32, and its
-- printing in base 36 runs on seven digits, since 2 ^ 32 < 36 ^ 7; the chunks of a list run on its
-- length, since each takes an element at least; the search for a free time stamp runs once more
-- than there are stamps in use, which is enough; phase B of the ranker runs on as many rounds as its
-- limit and gives no result if it would still go on, which never happens; the loops of the heap run
-- on its length, since an index is halved or at least doubled. Every other loop is recursion over a list, or on the
-- attempts that are left, so no theorem supposes that a call returns unless it says so.
--
-- Not modelled: logging, the correlation context of log lines, interleavings at an `await`, the
-- relation classifier, the scores of captured steps, the searches of retrieval, the LLM calls, the
-- server, the adapters and the viewer. Snapshots are values: each one that leaves a manager is a
-- clone.
pub mod Shared
pub mod Session
pub mod EventBus
pub mod Feedback
pub mod Memory
pub mod Skill
pub mod Reward
pub mod Retrieval
pub mod Embedding
pub mod Storage
pub mod Capture
