-- ===== src/Mcp/Requests.antt =====
-- src/mcp/handlers.rs: the arguments of the tools `search_code` and `get_context_for_prompt`. A
-- parser of one argument returns the value or the text of the error.
pub mod Accepted
mod Tests
use vektor.Common.{
  ℕ, ◌^◌, ◌==◌, Bool, true, false, ◌&&◌, Option, some, none, List, [], ◌∷◌, ◌++◌, if◌then◌else◌,
  ltb,
}
use vektor.Common.Float.{FloatOps}
use vektor.Common.Text.{
  Text, codes, text_eq, is_empty, trim, trim_start, trim_both, replace_char, lower,
}
use vektor.Common.Outcome.{Result, ok, err, VektorError}
use vektor.Search.Hybrid.{parse}
use vektor.Search.Types.{SearchMode}

-- A JSON value as its accessors tell of it: `number u x` has the `as_u64` u and the `as_f64` x. An
-- object inside the arguments is never read.
mutual
  pub data Value (F : Type 0) : Type 0 where
    null : Value F
    bool : Bool → Value F
    number : Option ℕ → F → Value F
    string : Text → Value F
    array : Values F → Value F
    object : Value F

  pub data Values (F : Type 0) : Type 0 where
    end : Values F
    item : Value F → Values F → Values F

pub data Argument (A : Type 0) : Type 0 where
  ready : A → Argument A
  refused : Text → Argument A

infixl 5 ◌>>=◌
abbrev pub ◌>>=◌ : {A B : Type 0} → Argument A → (A → Argument B) → Argument B
ready a >>= f = f a
refused message >>= f = refused message

pub record SearchToolRequest : Type 0 where
  pub path : Text
  pub query : Text
  pub top_k : ℕ
  pub mode : SearchMode
  pub filter_ext : Option (List Text)
  pub bypass_cache : Bool

pub record ContextToolRequest (G : Type 0) : Type 0 where
  pub path : Text
  pub query : Text
  pub token_budget : ℕ
  pub max_files : ℕ
  pub include_related : Bool
  pub min_relevance : G
  pub include_docs : Bool
  pub bypass_cache : Bool
  pub scope : Option Text

-- The message that begins with the name of an argument, in backquotes.
unfoldable pub about : Text → Text → Text
about name message = codes "`" ++ (name ++ (codes "` " ++ message))

-- `to_string` of an error.
unfoldable pub display : VektorError → Text
display (VektorError.io message) = codes "IO error: " ++ message
display (VektorError.config message) = codes "config error: " ++ message
display (VektorError.not_implemented message) = codes "not implemented: " ++ message
display (VektorError.parse message) = codes "parse error: " ++ message
display (VektorError.state message) = codes "state error: " ++ message
display (VektorError.mcp message) = codes "MCP protocol error: " ++ message
display (VektorError.embedding message) = codes "embedding error: " ++ message
display (VektorError.storage message) = codes "storage error: " ++ message
display (VektorError.network message) = codes "network error: " ++ message
display (VektorError.download message) = codes "download error: " ++ message

unfoldable pub mode_or_refusal : Result SearchMode → Argument SearchMode
mode_or_refusal (ok mode) = ready mode
mode_or_refusal (err e) = refused (display e)

unfoldable pub normalize_scope : Text → Text
normalize_scope scope = trim_both (λ c. c == b'/') (replace_char 92 b'/' (trim scope))

-- `f64` is `F` and `f32` is `G`; `narrow` is `as f32`.
module _ {F G : Type 0} (f64 : FloatOps F) (f32 : FloatOps G) (narrow : F → G) where
  abbrev pub JsonObject : Type 0
  JsonObject = List (Text × Value F)

  unfoldable pub get : JsonObject → Text → Option (Value F)
  get [] name = none
  get ((key, value) ∷ entries) name =
      let rest = get entries name in if text_eq key name then some value else rest

  unfoldable pub as_str : Option (Value F) → Option Text
  as_str (some (Value.string s)) = some s
  as_str v = none

  -- A text argument, trimmed.
  unfoldable pub parse_text_arg : JsonObject → Text → Argument Text
  parse_text_arg args name = elim (as_str (get args name)) [
    | none ↦ refused (codes "missing or non-string `" ++ (name ++ codes "` argument"))
    | some raw ↦
        if is_empty (trim raw)
        then refused (about name (codes "must not be empty"))
        else ready (trim raw)
  ]

  unfoldable pub parse_path_arg : JsonObject → Argument Text
  parse_path_arg args = parse_text_arg args (codes "path")

  unfoldable pub positive_usize : Text → Value F → Argument ℕ
  positive_usize name (Value.number (some raw) x) =
      if raw == 0
      then refused (about name (codes "must be at least 1"))
      else if ltb raw (2 ^ 64)
      then ready raw
      else refused (about name (codes "is too large"))
  positive_usize name value = refused (about name (codes "must be a positive integer"))

  unfoldable pub parse_positive_usize_arg : JsonObject → Text → ℕ → Argument ℕ
  parse_positive_usize_arg args name default = elim (get args name) [
    | none ↦ ready default
    | some value ↦ positive_usize name value
  ]

  unfoldable pub boolean : Text → Value F → Argument Bool
  boolean name (Value.bool b) = ready b
  boolean name value = refused (about name (codes "must be a boolean"))

  unfoldable pub parse_bool_arg : JsonObject → Text → Bool → Argument Bool
  parse_bool_arg args name default = elim (get args name) [
    | none ↦ ready default
    | some value ↦ boolean name value
  ]

  unfoldable pub relevance : Value F → Argument G
  relevance (Value.number u raw) =
      if f64.le (f64.literal 0 1) raw && f64.le raw (f64.literal 1 1)
      then ready (narrow raw)
      else refused (codes "`min_relevance` must be between 0.0 and 1.0")
  relevance value = refused (codes "`min_relevance` must be a number")

  unfoldable pub parse_min_relevance : JsonObject → Argument G
  parse_min_relevance args = elim (get args (codes "min_relevance")) [
    | none ↦ ready (f32.literal 5 10)
    | some value ↦ relevance value
  ]

  unfoldable pub scope_of : Value F → Argument (Option Text)
  scope_of (Value.string raw) =
      if is_empty (normalize_scope raw)
      then refused (codes "`scope` must not be empty")
      else ready (some (normalize_scope raw))
  scope_of value = refused (codes "`scope` must be a string")

  unfoldable pub parse_scope : JsonObject → Argument (Option Text)
  parse_scope args = elim (get args (codes "scope")) [
    | none ↦ ready none
    | some value ↦ scope_of value
  ]

  unfoldable pub extension_of : Text → Value F → Argument Text
  extension_of name (Value.string raw) =
      let normalized = lower (trim_start (λ c. c == b'.') (trim raw)) in
      if is_empty normalized
      then refused (about name (codes "entries must not be empty"))
      else ready normalized
  extension_of name value = refused (about name (codes "entries must be strings"))

  unfoldable pub extensions_of : Text → Values F → Argument (List Text)
  extensions_of name Values.end = ready []
  extensions_of name (Values.item value values) = extension_of name value >>= λ extension.
      extensions_of name values >>= λ extensions. ready (extension ∷ extensions)

  unfoldable pub extension_array : Text → Value F → Argument (Option (List Text))
  extension_array name (Value.array values) =
      extensions_of name values >>= λ extensions. ready (some extensions)
  extension_array name value = refused (about name (codes "must be an array of strings"))

  unfoldable pub parse_extension_array : JsonObject → Text → Argument (Option (List Text))
  parse_extension_array args name = elim (get args name) [
    | none ↦ ready none
    | some value ↦ extension_array name value
  ]

  unfoldable pub mode_of : Value F → Argument SearchMode
  mode_of (Value.string raw) = mode_or_refusal (parse raw)
  mode_of value = refused (codes "`mode` must be a string")

  unfoldable pub mode_arg : JsonObject → Argument SearchMode
  mode_arg args = elim (get args (codes "mode")) [
    | none ↦ ready SearchMode.hybrid
    | some value ↦ mode_of value
  ]

  unfoldable pub parse_search_tool_request : Option JsonObject → Argument SearchToolRequest
  parse_search_tool_request none =
      refused (codes "missing arguments: `query` and `path` are required")
  parse_search_tool_request (some args) = do
    query ← parse_text_arg args (codes "query")
    path ← parse_path_arg args
    top_k ← parse_positive_usize_arg args (codes "top_k") 8
    mode ← mode_arg args
    bypass_cache ← parse_bool_arg args (codes "bypass_cache") false
    filter_ext ← parse_extension_array args (codes "filter_ext")
    ready (record {
      path = path;
      query = query;
      top_k = top_k;
      mode = mode;
      filter_ext = filter_ext;
      bypass_cache = bypass_cache;
    })

  unfoldable pub parse_context_tool_request : Option JsonObject → Argument (ContextToolRequest G)
  parse_context_tool_request none =
      refused (codes "missing arguments: `query` and `path` are required")
  parse_context_tool_request (some args) = do
    query ← parse_text_arg args (codes "query")
    path ← parse_path_arg args
    token_budget ← parse_positive_usize_arg args (codes "token_budget") 8000
    max_files ← parse_positive_usize_arg args (codes "max_files") 10
    include_related ← parse_bool_arg args (codes "include_related") true
    min_relevance ← parse_min_relevance args
    include_docs ← parse_bool_arg args (codes "include_docs") true
    bypass_cache ← parse_bool_arg args (codes "bypass_cache") false
    scope ← parse_scope args
    ready (record {
      path = path;
      query = query;
      token_budget = token_budget;
      max_files = max_files;
      include_related = include_related;
      min_relevance = min_relevance;
      include_docs = include_docs;
      bypass_cache = bypass_cache;
      scope = scope;
    })
