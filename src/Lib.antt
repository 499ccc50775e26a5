-- ===== src/Lib.antt =====
-- MemoryHub: shared, governed memory for AI agents. Python services keep memories in a database, a
-- MCP server gives agents access to them, and an authorization server issues the tokens whose
-- claims decide who may read and write what.
--
-- Parts and how they interact:
--   * AuthService (memoryhub-auth/src): the OAuth server. AuthService.antt has its tables and
--     settings, AuthService/Tx.antt the database session of a request (a state monad with errors;
--     a request that raises rolls back), AuthService/Grants.antt the grants of routes/token.py,
--     AuthService/Endpoint.antt the token endpoint, routes/authorize.py,
--     routes/openshift_callback.py and session_cleanup.py, and the steps of the server. Frames,
--     Spent and Revoked are about what its statements leave alone, CodeOnce, Rotation,
--     ScopeLimits and Granted about the grants.
--   * Authz (memory-hub-mcp/src/core/authz.py): Authz.antt has the claims and the rules for reading
--     and writing memories, Authz/Visibility.antt the scopes of a search, tenants, and the three
--     sources of claims, Authz/Threads.antt the rules of conversation threads. Rules, Sharing and
--     Sessions are the theorems.
--   * Memory (src/memoryhub_core/models/memory.py and services/memory.py): the rows of the memory
--     tables and, in Memory/Search.antt, `_build_search_filters`, which takes what Authz computes.
--     Memory/Agreement.antt relates the two.
--   * Compilation (src/memoryhub_core/services/compilation.py): the stable order in which memories
--     are put into a prompt. Compilation/Wire.antt is the stored form of an epoch; Lookup,
--     Partition, Stability, Order and Recompile are about the compiled list and its appendix.
--   * Project (src/memoryhub_core/models/project.py and services/project.py): the projects and their
--     members, which feed the project tier of Authz and Memory. Project.antt has the tables with
--     their constraints and the queries, Project/Membership.antt the operations of a session with
--     its rollbacks, Project/Listing.antt what a user sees, Tenants is about the joins; Runs,
--     Integrity, Admins, Races, Enrolment and RoundTrip are about operations and runs of them.
--   * Curation (src/memoryhub_core/services/curation): the checks before a write. Curation.antt is
--     rules.py, Curation/Scanner.antt scanner.py, Curation/Pipeline.antt pipeline.py; Protection
--     and Gate are the theorems.
--   * Memory service: Memory/Store.antt has the tables with the bucket and the errors, Create, Update,
--     Read, Delete (with quarantine, restore and hard delete of services/admin.py) and
--     Contradictions the operations, Chain `_walk_version_chain`, Temporal services/temporal.py and
--     Chunker storage/chunker.py. An operation gives a value with the new tables or an error; create
--     runs the pipeline of Curation before it writes. Loops, Fuel, Walk, Versions, Replacement,
--     Steps, Reachability, Removal, RoundTrip, Branches, Timely and Chunks are the theorems.
--   * Conversation (src/memoryhub_core/models/conversation.py and services/conversation.py):
--     Conversation.antt has the tables, which hold the memory service's store,
--     Conversation/Threads.antt creating, appending and archiving, Forking the fork and the share,
--     Reading what a caller gets, Retention the deletions, the purges and the daily sweep, which
--     call the delete of Memory. Contents, Holds, Redaction, Numbering and Calls are the
--     theorems.
--   * Graph (src/memoryhub_core/services/graph.py): Graph.antt has the edges, the provenance and the
--     breadth-first search from a memory, Edges the creation of an edge. Graph/Search.antt is about the
--     search.
--   * Base: what the parts share. A text is a list of code points, a set a list
--     that is only asked for its members, a dict with known keys a record, a missing value `none`.
--
-- Conventions: a function that raises returns a result or an option; a time is a number of seconds
-- (or, where the code compares local times, the local time of it) in AuthService and Compilation, and
-- of microseconds in Memory, Conversation and Graph; random values and the clock are arguments. A
-- loop over a list is structural recursion. The two loops of `_walk_version_chain` run on one round of
-- fuel more than the table has rows, which is enough since each round but the last finds a row that is
-- not visited yet; so does the queue of `find_related`, from which a row is taken at most once. The
-- loop of a hard delete has as many rounds as the table has rows; on a cycle of versions, which
-- the code would not leave, it stops there. SQL conditions are Boolean functions of a row; `NULL` is
-- `none`, and a comparison with it fails.
--
-- Concurrency: the requests of the authorization server are steps that follow one another, each in
-- one transaction. An operation on projects names what other sessions commit between its query for
-- a project and an insertion, before the insertion of a membership, and between the count of the
-- admins and a delete; its other statements follow one another. The operations on memories, threads
-- and edges follow one another.
--
-- Parameters, because a library or another server does the work: SHA-256, bcrypt, the signature of
-- tokens, the Kubernetes token review, the OpenShift exchanges, regular expressions, the similarity
-- query of pgvector, the calendar, whether a batch of texts is embedded, and `lower` of the database.
--
-- Not modelled: network and database drivers, logging and audit events, embeddings and ranking,
-- language-model pipelines, the MCP tools that parse arguments, and the clients. A raise of create
-- after the content was put shows no tables, so the object that stays in the bucket is not in the
-- model; nor is the foreign key of `parent_id`.
pub mod Base
pub mod Compilation
pub mod Conversation
pub mod Graph
pub mod Memory
pub mod Project
pub mod Curation
pub mod Authz
pub mod AuthService
