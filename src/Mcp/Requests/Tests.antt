-- ===== src/Mcp/Requests/Tests.antt =====
-- Runs of src/mcp/handlers.rs.
use vektor.Common.{ℕ, false, some, List, [], ◌∷◌, ◌≡◌, refl}
use vektor.Common.Milli.{milli}
use vektor.Common.Text.{
  Text, codes, text_eq, lower, to_ascii_lowercase, trim, trim_both, trim_start, is_whitespace,
  is_empty, replace_char,
}
use vektor.Search.Types.{SearchMode}
use vektor.Mcp.Requests.{
  Value, Values, Argument, get, as_str, about, parse_text_arg, parse_path_arg,
  parse_positive_usize_arg, positive_usize, parse_scope, scope_of, parse_bool_arg, normalize_scope,
  parse_search_tool_request, parse_context_tool_request, parse_extension_array, extension_array,
  extensions_of, extension_of, mode_arg,
}
use vektor.Mcp.Requests.Accepted.{Accepts, IsRequest, parse_context_tool_request-IsRequest}

abbrev args : List (Text × Value ℕ)
args =
    (codes "query", Value.string (codes " run "))
    ∷ (codes "path", Value.string (codes "."))
    ∷ (codes "top_k", Value.number (some 3) 3000)
    ∷ (codes "scope", Value.string (codes "/src/"))
    ∷ (codes "filter_ext", Value.array (Values.item (Value.string (codes ".rs")) Values.end))
    ∷ []

scope_trimmed : parse_scope milli milli (λ x. x) args ≡ Argument.ready (some (codes "src"))
unfolding parse_scope scope_of normalize_scope get is_empty trim trim_both trim_start is_whitespace
    replace_char text_eq
scope_trimmed = refl

search_request :
    parse_search_tool_request milli milli (λ x. x) (some args)
    ≡ Argument.ready (record {
      path = codes ".";
      query = codes "run";
      top_k = 3;
      mode = SearchMode.hybrid;
      filter_ext = some (codes "rs" ∷ []);
      bypass_cache = false;
    })
unfolding parse_search_tool_request parse_text_arg parse_path_arg parse_positive_usize_arg
    positive_usize mode_arg parse_bool_arg parse_extension_array extension_array extensions_of
    extension_of as_str get is_empty trim trim_both trim_start is_whitespace text_eq lower
    to_ascii_lowercase
search_request = refl

zero_top_k :
    parse_positive_usize_arg milli milli
      (λ x. x)
      ((codes "top_k", Value.number (some 0) 0) ∷ [])
      (codes "top_k")
      8
    ≡ Argument.refused (codes "`top_k` must be at least 1")
unfolding parse_positive_usize_arg positive_usize get about text_eq
zero_top_k = refl

parse_context_tool_request-IsRequest_example :
    Accepts
      (IsRequest milli milli (λ x. x))
      (parse_context_tool_request milli milli (λ x. x) (some args))
parse_context_tool_request-IsRequest_example =
    parse_context_tool_request-IsRequest milli milli (λ x. x) (some args)
