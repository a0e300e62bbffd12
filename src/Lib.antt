-- ===== src/Lib.antt =====
-- vektor: a context engine for source code. It chunks and indexes a project, searches it by meaning
-- and by keyword, and assembles from the results a package of chunks within a budget of tokens.
--
-- The parts, and where they are modelled:
--   * Context/ (src/context): `assemble` of assembler.rs is `Context.Assembler.assemble`, cut into
--     the functions of the source and, where a function has a loop, one definition for the loop.
--     It filters the results of a search (`select_direct`), merges overlapping ones
--     (Context/Dedup, dedup.rs), adds related files (Context/Expander, expander.rs), boosts recent
--     files (Context/Recency, recency.rs), sorts, shares out the budget (Assembler/Allocate, with
--     the counts of Context/Budget, budget.rs), and describes the package (Assembler/Summary). The
--     records are those of types.rs (Context/Types). Context/Cache is the query cache of cache.rs.
--   * Search/ (src/search): Hybrid is hybrid.rs, with its retriever traits as records of operations;
--     it calls Rrf (rrf.rs), Weights (weights.rs) and Synonyms (synonyms.rs). Types holds the rows
--     that src/vector_store/mod.rs and src/text_index.rs return.
--   * Chunker/ (src/chunker): Sliding is sliding.rs, Ast is ast.rs, Types has the data of mod.rs and
--     Files its functions, with `chunk_file`.
--   * Indexing/ (src/cli.rs): `index_path_with_embedder_source`, one index run. Collect is its first
--     phase (which files have changed, and which of their chunks are safe), Write the second (the
--     vector and text rows, in batches), Run the commit and the statuses that follow. The chunker,
--     the vector store and the text index are interfaces (`Files`, `VectorWriter`,
--     `TextIndexWriter`); the hash store is that of FileState.
--   * FileState (src/state.rs): the table of hashes and statuses.
--   * Secrets (src/secrets.rs): the tests that `Files` takes as `should_skip_file` and
--     `contains_secret`.
--   * VectorStore (src/vector_store/mod.rs): `plan_reindex`, which embeds the chunks that the store
--     does not hold yet; Reindex has `reindex_files`, which an index run calls for each batch, and
--     Sql the text of the predicates.
--   * Embedder/ (src/embedder): the trait and the choice of a backend (mod.rs), the HTTP backend with
--     its retries (OpenAi, openai.rs) and the local one (Onnx, onnx.rs).
--   * TextIndex (src/text_index.rs): the batches of the keyword index, its commit and its markers;
--     `text_index_writer` and `shallow_writer` fill the interfaces of the two index runs.
--   * Shallow (src/shallow_indexer.rs): the fast index of declaration lines.
--   * Mcp/ (src/mcp): Requests has the parsers of tool arguments of handlers.rs.
--   * IndexStatus (src/index_status.rs): the phase of each project's index.
--   * Common/: texts as lists of code points, `Result` with the errors of src/error.rs, the
--     operations of floats, stable sorting, paths, and lemmas. Samples has the inputs of the tests.
--
-- Floats are a type with the operations of `FloatOps`; a theorem that needs a law of them names it.
-- `Common.Milli` is a model of them, in thousandths. A `usize` is a natural number, with the
-- saturating operations written out where the source uses them. Where the source mutates a list
-- inside a loop, the loop is a function of the variables that it changes. A hash map is an
-- association list or the function that looks a key up; every map of the source that is iterated is
-- sorted after it. The futures that hybrid search joins are evaluated one after the other.
--
-- Code that changes a state is an `Action`: a function from the state to a result and the state
-- afterwards, which is kept after an error too. An index run has one record of its objects and
-- variables (`IndexRun`). A panic is `none`; in `reindex_files`, an error without a text.
--
-- Rounds of loops: `search_cut` gets as many rounds as its last content has characters, since each
-- round narrows the range; `truncate_loop` gets two for each chunk and one to return, since at most
-- every other round shortens a chunk without removing it; `windows` gets one for each line, since
-- its step is at least one; `decimal` gets one for each unit of its number; `chunks` gets one
-- for each element; `try_attempts` gets the five attempts of the source. Other loops are structural.
--
-- Parameters: the tokenizer of tiktoken_rs (`Bpe`), the embedder, the retrievers and the store of
-- related chunks, the vectors that the store holds, the LRU store of the cache (`LruOps` with the
-- laws `IsLru`), the content hash, what the disk says of an index (`Disk`), what other threads
-- do between two locks, the SQL statements that fail and the clock (`Host`), the LanceDB table
-- (`ChunksTable`), the answers of the HTTP server, the session that embeds a batch, the compiled
-- regular expressions (`Patterns`), tantivy (`Tantivy`), and Unicode lower case. Parsing is one too:
-- a syntax tree (`Node`) is what the calls of a tree-sitter node tell of it.
--
-- Not modelled: the opening and schema of the LanceDB table, its Arrow columns, vector search and
-- compaction (the rest of src/vector_store), the opening, schema and search of the keyword index
-- (the rest of src/text_index.rs), the MCP server and the rest of src/mcp, tokenizing and inference
-- (the rest of src/embedder), discovery, the collection of files in src/shallow_indexer.rs,
-- configuration, models, the rest of src/cli.rs, telemetry and warm-up: they mostly call other
-- systems.
pub mod Common
pub mod Search
pub mod Context
pub mod Chunker
pub mod IndexStatus
pub mod FileState
pub mod Embedder
pub mod Indexing
pub mod Mcp
pub mod Secrets
pub mod Shallow
pub mod TextIndex
pub mod VectorStore
pub mod Samples
