-- ===== src/Lib.antt =====
-- The data platform of the chatbot: which versions of the knowledge base exist, how a candidate
-- passes the quality gate, how it is published, and which chunks each version shows.
--
-- The parts and their files:
-- Contracts/Enums, Contracts/KnowledgeBase, Contracts/Regions: the records that the components exchange
--   (libs/contracts/src/chatbot_contracts/enums.py, base.py, knowledge_base.py).
-- Contracts/OnlineEnums, Contracts/Tools, Contracts/Query: the records of the online plane (enums.py,
--   tools.py, external.py, query.py, escalation.py of the same folder).
-- Platform/Models: libs/platform/src/chatbot_platform/models.py.
-- Platform/Registry: the class Registry of libs/platform/src/chatbot_platform/registry.py on the
--   tables of the schema registry of sql.py. Rows holds the tables, Queries the methods that read,
--   Statements those that write; a method has the name that it has in Python. Laws and Additions
--   are about the versions and the aliases.
-- Platform/Index: the port ServingIndex and its adapters, libs/platform/src/chatbot_platform/index.py
--   (Memory, InMemoryServingIndex; Search, its searches) and pg_index.py (Postgres, PgServingIndex).
--   Intervals models one chunk's validity intervals, Port the protocol and the contract that a client
--   relies on, Lawful under each adapter that it keeps the contract.
-- Platform/Gate: libs/platform/src/chatbot_platform/gate.py and make_chunk_id of
--   libs/contracts/src/chatbot_contracts/ids.py.
-- Platform/Versioning: libs/platform/src/chatbot_platform/versioning.py. Candidate holds
--   create_candidate, reject and rollback, Publish the function publish, over any index that keeps
--   the contract of the port. Publish/Reads is what publish reads and checks before it writes,
--   Publish/Release the way of a version from the gate to its publication,
--   Publish/Halts the states that a publication stops in.
-- Platform/Documents: libs/platform/src/chatbot_platform/documents.py and the document ids of
--   libs/contracts/src/chatbot_contracts/ids.py.
-- Platform/Ingest: the staged rows of libs/platform/src/chatbot_platform/ingest.py. Ingest is the
--   writing of any table, ChunkSets write_chunk_set and read_chunk_sets.
-- Platform/Ops: the tables of ops and ingest of sql.py; Storage is the uris of storage.py, Retention
--   retention.py, Lineage lineage.py, all in libs/platform/src/chatbot_platform.
-- Platform/Stores: the protocol ObjectStore of storage.py, the contract that its clients rely on, and
--   its adapters, Local (LocalFsObjectStore) and Remote (S3ObjectStore).
-- Platform/Exports: libs/platform/src/chatbot_platform/exports.py, over any such store.
-- Contracts/Routes: libs/contracts/src/chatbot_contracts/routes.py.
-- Common: libs/common/src/chatbot_common. Client is ContractClient.call and the local handlers of
--   http.py with the contract routes of service.py, Events the server sent events of service.py and
--   the lines that http.py reads, Rerank the reranker of embeddings.py, Models the
--   client of llm.py.
-- Scripts: ChangedPackages, Boundaries, Comments and Dashboards are changed_packages.py,
--   check_boundaries.py, check_comments.py and check_dashboards.py of scripts, Codes the codes that
--   the checks return.
-- Services/Api: the local handlers of services/api/src/chatbot_api/serve.py.
-- Tests: a sample platform that the theorems are applied to.
--
-- How the code corresponds. An operation on the database is a function from a state to a result
-- and a new state (Base/State); a raise keeps what was written before it, since every method of
-- the registry and of the Postgres index is a transaction of its own. A publication is stopped
-- between two of its writes, as a transaction that is not done leaves nothing. A table is a list
-- of rows, a dictionary an association list (Base/Dict), a set a list that is read by membership
-- alone (Base/Sets). Times are numbers, and the clock and fresh ids are arguments. Numbers have
-- no bound, as in Python. Every loop of the source is a recursion on a list or a text, so there
-- is no fuel. A sort is stable, as Python's (Base/Sorting), and lines end where splitlines ends
-- them (Base/Texts).
--
-- Parameters: the types of floats and of JSON values, the hash, the formatting of numbers, what
-- the checks of the gate compute on floats (Runtime in Platform/Gate/Checks), the operations on
-- floats of the searches (Floats in Platform/Index/Search), the text and path functions of Python
-- (Runtime in Platform/Documents), the JSON values of columns and the order of texts in the
-- database (Platform/Ingest/ChunkSets), the S3 client, Parquet, and what pydantic, the HTTP
-- client and the web framework do (Wire and Response in Common/Client, EventJson in
-- Common/Events), and what the scripts read with tokenize, ast and JSON (Files in
-- Scripts/Comments, Scripts/Dashboards).
--
-- Not modelled: the searches of the Postgres index, which the database ranks; the reading of
-- staged records other than chunk sets; the temporary file of a put; the migrations; the
-- workers, machine learning, pipelines and services, whose handlers are stubs, but for the local
-- handlers of the api; settings, command line, metrics and the wiring of HTTP.
pub mod Base
pub mod Common
pub mod Contracts
pub mod Platform
pub mod Scripts
pub mod Services
pub mod Tests
