-- ===== src/Search/Synonyms.antt =====
-- src/search/synonyms.rs: a query becomes a disjunction of its words and their synonyms.
pub mod Words
mod Tests
use vektor.Common.{
  ℕ, Bool, true, false, ◌||◌, Option, some, none, List, [], ◌∷◌, ◌++◌, map, length, ◌==◌,
  if◌then◌else◌,
}
use vektor.Common.Text.{
  Text, codes, text_eq, lower, to_ascii_lowercase, is_ascii_alphanumeric, is_empty, join,
}

-- Each term with its synonyms.
abbrev pub synonym_map : List (Text × List Text)
synonym_map =
    (
      codes "auth",
      map codes (
          "auth" ∷ "authentication" ∷ "authorize" ∷ "authorization" ∷ "login" ∷ "session" ∷ "token"
          ∷ "jwt" ∷ "bearer" ∷ "oauth" ∷ []),
    )
    ∷ (
      codes "db",
      map codes ("db" ∷ "database" ∷ "query" ∷ "sql" ∷ "migration" ∷ "schema" ∷ "table" ∷ []),
    )
    ∷ (
      codes "api",
      map codes
          ("api" ∷ "endpoint" ∷ "route" ∷ "handler" ∷ "controller" ∷ "request" ∷ "response" ∷ []),
    )
    ∷ (
      codes "config",
      map codes ("config" ∷ "configuration" ∷ "settings" ∷ "options" ∷ "env" ∷ "environment" ∷ []),
    )
    ∷ (
      codes "cache",
      map codes ("cache" ∷ "cached" ∷ "memoize" ∷ "memoization" ∷ "lru" ∷ "ttl" ∷ []),
    )
    ∷ (
      codes "queue",
      map codes ("queue" ∷ "enqueue" ∷ "dequeue" ∷ "broker" ∷ "consumer" ∷ "producer" ∷ []),
    )
    ∷ (
      codes "worker",
      map codes ("worker" ∷ "background" ∷ "task" ∷ "job" ∷ "executor" ∷ "thread" ∷ []),
    )
    ∷ (codes "job", map codes ("job" ∷ "task" ∷ "work" ∷ "scheduler" ∷ "cron" ∷ "background" ∷ []))
    ∷ (
      codes "error",
      map codes ("error" ∷ "err" ∷ "exception" ∷ "failure" ∷ "fault" ∷ "panic" ∷ []),
    )
    ∷ (
      codes "log",
      map codes ("log" ∷ "logs" ∷ "logging" ∷ "trace" ∷ "debug" ∷ "warn" ∷ "error" ∷ []),
    )
    ∷ (codes "test", map codes ("test" ∷ "tests" ∷ "testing" ∷ "spec" ∷ "case" ∷ "assert" ∷ []))
    ∷ (codes "mock", map codes ("mock" ∷ "stub" ∷ "fake" ∷ "double" ∷ "fixture" ∷ "spy" ∷ []))
    ∷ (
      codes "fixture",
      map codes ("fixture" ∷ "sample" ∷ "seed" ∷ "setup" ∷ "testdata" ∷ "mock" ∷ []),
    )
    ∷ (
      codes "migration",
      map codes ("migration" ∷ "migrate" ∷ "schema" ∷ "ddl" ∷ "upgrade" ∷ "version" ∷ []),
    )
    ∷ (
      codes "schema",
      map codes ("schema" ∷ "model" ∷ "table" ∷ "field" ∷ "column" ∷ "contract" ∷ []),
    )
    ∷ (codes "model", map codes ("model" ∷ "entity" ∷ "record" ∷ "struct" ∷ "schema" ∷ "dto" ∷ []))
    ∷ (
      codes "service",
      map codes ("service" ∷ "manager" ∷ "client" ∷ "provider" ∷ "component" ∷ "facade" ∷ []),
    )
    ∷ (
      codes "controller",
      map codes ("controller" ∷ "handler" ∷ "route" ∷ "endpoint" ∷ "action" ∷ []),
    )
    ∷ (
      codes "handler",
      map codes ("handler" ∷ "callback" ∷ "listener" ∷ "controller" ∷ "route" ∷ []),
    )
    ∷ (codes "route", map codes ("route" ∷ "router" ∷ "endpoint" ∷ "path" ∷ "url" ∷ "handler" ∷ []))
    ∷ (
      codes "middleware",
      map codes ("middleware" ∷ "filter" ∷ "interceptor" ∷ "guard" ∷ "layer" ∷ []),
    )
    ∷ (
      codes "request",
      map codes ("request" ∷ "req" ∷ "input" ∷ "payload" ∷ "body" ∷ "params" ∷ []),
    )
    ∷ (
      codes "response",
      map codes ("response" ∷ "res" ∷ "reply" ∷ "output" ∷ "payload" ∷ "body" ∷ []),
    )
    ∷ (
      codes "token",
      map codes ("token" ∷ "jwt" ∷ "bearer" ∷ "credential" ∷ "secret" ∷ "auth" ∷ []),
    )
    ∷ (codes "session", map codes ("session" ∷ "cookie" ∷ "login" ∷ "state" ∷ "auth" ∷ "user" ∷ []))
    ∷ (codes "user", map codes ("user" ∷ "account" ∷ "profile" ∷ "principal" ∷ "identity" ∷ []))
    ∷ (
      codes "permission",
      map codes ("permission" ∷ "access" ∷ "acl" ∷ "policy" ∷ "authorization" ∷ []),
    )
    ∷ (codes "role", map codes ("role" ∷ "group" ∷ "permission" ∷ "grant" ∷ "scope" ∷ []))
    ∷ (
      codes "validation",
      map codes ("validation" ∷ "validate" ∷ "validator" ∷ "check" ∷ "verify" ∷ []),
    )
    ∷ (codes "parser", map codes ("parser" ∷ "parse" ∷ "lexer" ∷ "tokenizer" ∷ "syntax" ∷ []))
    ∷ (
      codes "serializer",
      map codes ("serializer" ∷ "serialize" ∷ "encoder" ∷ "marshal" ∷ "json" ∷ []),
    )
    ∷ (
      codes "deserializer",
      map codes ("deserializer" ∷ "deserialize" ∷ "decoder" ∷ "unmarshal" ∷ "json" ∷ []),
    )
    ∷ (codes "cli", map codes ("cli" ∷ "command" ∷ "terminal" ∷ "shell" ∷ "arg" ∷ "flag" ∷ []))
    ∷ (codes "command", map codes ("command" ∷ "cmd" ∷ "cli" ∷ "subcommand" ∷ "action" ∷ []))
    ∷ (codes "flag", map codes ("flag" ∷ "option" ∷ "arg" ∷ "argument" ∷ "switch" ∷ []))
    ∷ (codes "env", map codes ("env" ∷ "environment" ∷ "variable" ∷ "dotenv" ∷ "config" ∷ []))
    ∷ (codes "file", map codes ("file" ∷ "path" ∷ "source" ∷ "document" ∷ "blob" ∷ []))
    ∷ (codes "path", map codes ("path" ∷ "filepath" ∷ "filename" ∷ "route" ∷ "location" ∷ []))
    ∷ (codes "async", map codes ("async" ∷ "await" ∷ "future" ∷ "promise" ∷ "concurrent" ∷ []))
    ∷ (codes "thread", map codes ("thread" ∷ "worker" ∷ "concurrency" ∷ "parallel" ∷ "task" ∷ []))
    ∷ (codes "lock", map codes ("lock" ∷ "mutex" ∷ "rwlock" ∷ "guard" ∷ "synchronize" ∷ []))
    ∷ (codes "retry", map codes ("retry" ∷ "retries" ∷ "backoff" ∷ "attempt" ∷ "resilience" ∷ []))
    ∷ (codes "timeout", map codes ("timeout" ∷ "deadline" ∷ "duration" ∷ "expire" ∷ "cancel" ∷ []))
    ∷ (
      codes "rate_limit",
      map codes ("rate_limit" ∷ "ratelimit" ∷ "throttle" ∷ "quota" ∷ "limit" ∷ []),
    )
    ∷ (codes "pagination", map codes ("pagination" ∷ "page" ∷ "cursor" ∷ "offset" ∷ "limit" ∷ []))
    ∷ (codes "search", map codes ("search" ∷ "find" ∷ "query" ∷ "lookup" ∷ "retrieve" ∷ []))
    ∷ (codes "index", map codes ("index" ∷ "indices" ∷ "catalog" ∷ "inverted" ∷ "lookup" ∷ []))
    ∷ (codes "vector", map codes ("vector" ∷ "embedding" ∷ "dense" ∷ "ann" ∷ "similarity" ∷ []))
    ∷ (
      codes "embedding",
      map codes ("embedding" ∷ "embed" ∷ "vector" ∷ "semantic" ∷ "encoder" ∷ []),
    )
    ∷ (codes "chunk", map codes ("chunk" ∷ "segment" ∷ "slice" ∷ "span" ∷ "section" ∷ []))
    ∷ []

pub find_term : Text → List (Text × List Text) → Option (List Text)
find_term term [] = none
find_term term (entry ∷ entries) =
    if text_eq entry.0 term then some entry.1 else find_term term entries

pub synonyms_for : Text → Option (List Text)
unfolding find_term lower text_eq
synonyms_for term = find_term (lower term) synonym_map

pub push_token : List Text → Text → List Text
push_token tokens [] = tokens
push_token tokens (ch ∷ rest) = tokens ++ ((ch ∷ rest) ∷ [])

pub tokenize_query_from : List Text → Text → Text → List Text
unfolding push_token
tokenize_query_from tokens current [] = push_token tokens current
tokenize_query_from tokens current (ch ∷ rest) =
    if is_ascii_alphanumeric ch || (ch == b'_')
    then tokenize_query_from tokens (current ++ (to_ascii_lowercase ch ∷ [])) rest
    else tokenize_query_from (push_token tokens current) [] rest

pub tokenize_query : Text → List Text
unfolding tokenize_query_from
tokenize_query = tokenize_query_from [] []

pub expand_token : Text → Text
unfolding join
expand_token token = elim (synonyms_for token) [
  | some synonyms ↦ codes "(" ++ join (codes " OR ") synonyms ++ codes ")"
  | none ↦ token
]

pub expand : Text → Text
unfolding tokenize_query expand_token join
expand query = join (codes " OR ") (map expand_token (tokenize_query query))
