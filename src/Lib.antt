-- ===== src/Lib.antt =====
-- Verification of the nuvrag platform, a multi-tenant service that answers visitors' questions from
-- an organisation's documents, hands conversations to people, and remembers visitors who ask for one.
--
-- The model covers the services of app/services that keep the program's own state. Each service is a
-- function on the tables that it reads and writes; a table is the list of its rows.
--
-- Files, with the code that each models (paths from the repository's root):
--   Base, Base/*         lists, text as code points, tables with a primary key, ORDER BY ... LIMIT.
--   Domain, Domain/*     app/models/enums.py; the errors of app/core/exceptions.py and a result type.
--   Usage, Usage/*       app/services/usage.py: the monthly caps. consume is one atomic statement, so
--                        concurrent calls are a list of calls in the order the database serves them.
--   Identity, Identity/* users, invitations and organisations; the cut-offs of
--                        app/services/revocation.py.
--   Team, Team/*         app/services/team.py with the role checks of app/api/deps.py. Team/Reach has
--                        the requests as a step relation and any history of them.
--   Desk, Desk/*         conversations, messages, tickets and notes, which the next four parts share,
--                        and the invariant of these tables (Desk/Consistent).
--   Tickets, Tickets/*   app/services/ticket.py: opening, updating and answering a ticket.
--   Retention, ...       the sweeps and erasures of app/services/conversation.py and
--                        app/services/nuvrag_mem/erasure.py. Retention/Loop is their common loop.
--   Memory, Memory/*     app/services/nuvrag_mem/extraction.py and retrieval.py: what is written down
--                        about a visitor, and what is recalled.
--   Chat, Chat/*         stream_answer of app/services/rag.py as a generator whose consumer may leave.
--   RateLimit, ...       app/services/rate_limit.py: the token bucket, by its script.
--   Documents, ...       app/services/document.py, app/services/ingestion and process_document_task of
--                        app/worker/tasks.py. Stream and Upload are the upload, Chunker and Pipeline the
--                        ingestion, Task its attempts, Scanner the protocol of the malware scanner;
--                        Service has every transaction as a step. Uploaded, Counted, History,
--                        Idempotent, Repeated, Settled and Scanned are the proofs.
--   Ai, Ai/*             app/services/ai_config.py with app/schemas/ai_config.py (Config, Saving),
--                        app/services/ai/registry.py and the guards of factory.py (Registry), and the
--                        reasoning filter of app/services/ai/base.py (Reasoning). Widths, Aligned,
--                        Ingested, Wide and Operations are the proofs about the recorded width, Kept those
--                        about credentials, Tags and Filtered those about the filter. Embedding is the batching
--                        of embed_batch.
--   Sessions, ...        app/services/auth.py, the tokens of app/core/security.py and the denylist of
--                        app/services/revocation.py; Slug is app/core/slug.py, Signup the sign-up, and
--                        Sound has the proofs that ended sessions stay ended.
-- The Tests files evaluate the definitions and apply the theorems at concrete inputs.
--
-- How the parts meet: a chat turn charges Usage, recalls from Memory and writes to Desk; a ticket wraps
-- a conversation of Desk and is the gate for Memory; Retention deletes from the tables that Tickets,
-- Memory and Chat fill, and steps over what an unresolved ticket holds. An upload charges Usage and
-- queues the ingestion, which reads and locks the width that a configuration of Ai records.
--
-- Conventions. Identifiers, session ids, digests and tokens are numbers, since the code only
-- compares them; times are seconds, but microseconds in Sessions and RateLimit; text is a list of
-- code points. A service that raises rolls its transaction back, so it returns an error and no
-- tables; a failed upload, much of which is outside of its transaction, returns what is left. New
-- ids are arguments, and are fresh where a theorem needs it. str.lower, the digests, the settings,
-- the providers' answers, the distance of two vectors, json.loads and the pattern for code fences
-- are arguments. Similarities are exact scaled numbers where the code has floats, and so are the
-- tokens and times of the rate limit: a boundary that the floats of the script miss by rounding is
-- not seen. Loops are structural, and the loop of a sweep is bounded by its number of batches as in
-- the code, but for four with fuel: the filter's loop, which has a turn for every character of its
-- buffer and shortens the buffer at each, the frames of the scanner, which has one for every byte,
-- the batches of an embedding, of which there are at most as many as texts, and the attempts of a
-- job, of which there are at most the allowed retries and one. A filter or a job that ran out of
-- fuel would return none, and is proved not to.
--
-- Not modelled: messages of errors, logging and metrics; timestamps that no modelled code reads;
-- row-level security (a lookup ranges over every tenant's rows, so isolation rests on the code's
-- own tests; only the refresh of a session sees the users of its organisation alone); an outage of
-- the key-value store while sessions are revoked; requests of others between two events of a chat
-- turn; other transactions between the attempts of a job; listings and pages; the hash of a
-- password and the signature of a token, which are arguments; chatbots and the caches, storage, the
-- worker's schedule, the HTTP surface, migrations, infrastructure and the front end.
pub mod Base
pub mod Domain
pub mod Usage
pub mod Identity
pub mod Team
pub mod Desk
pub mod Tickets
pub mod Retention
pub mod Memory
pub mod Chat
pub mod RateLimit
pub mod Ai
pub mod Documents
pub mod Sessions
