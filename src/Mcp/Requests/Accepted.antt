-- ===== src/Mcp/Requests/Accepted.antt =====
-- What src/mcp/handlers.rs accepts.
use vektor.Common.{
  ℕ, ◌^◌, ◌≤◌, ◌<◌, ◌==◌, Bool, true, false, Option, some, none, List, ◌≡◌, ◌⊎◌, refl, ltb, arith,
  inl, inr, Bool-cases, if◌then◌else◌,
}
use vektor.Common.Float.{FloatOps}
use vektor.Common.Text.{Text, codes, is_empty, trim}
use vektor.Mcp.Requests.{
  Value, Argument, ◌>>=◌, ContextToolRequest, parse_text_arg, parse_path_arg,
  parse_positive_usize_arg, positive_usize, parse_scope, scope_of, parse_bool_arg,
  parse_min_relevance, relevance, get, as_str, normalize_scope, parse_context_tool_request,
}

-- A property of the value, where there is one.
abbrev pub Accepts : {A : Type 0} → (A → Type 0) → Argument A → Type 0
Accepts P (Argument.ready a) = P a
Accepts P (Argument.refused message) = Unit

Accepts-bind :
    {A B : Type 0} (P : A → Type 0) (Q : B → Type 0) (m : Argument A) (f : A → Argument B)
    → Accepts P m
    → ((a : A) → P a → Accepts Q (f a))
    → Accepts Q (m >>= f)
Accepts-bind P Q (Argument.ready a) f h next = next a h
Accepts-bind P Q (Argument.refused message) f h next = tt

Accepts-any : {A : Type 0} (m : Argument A) → Accepts (λ _. Unit) m
Accepts-any (Argument.ready a) = tt
Accepts-any (Argument.refused message) = tt

nonempty-Accepts :
    (message s : Text)
    → Accepts
        (λ t. is_empty t ≡ false)
        (if is_empty s then Argument.refused message else Argument.ready s)
nonempty-Accepts message s = elim (Bool-cases (is_empty s)) [ inl e ↦ rw e tt | inr e ↦ rw e e ]

Accepts-option :
    {V B : Type 0} (P : B → Type 0) (m : Option V) (d : Argument B) (f : V → Argument B)
    → Accepts P d
    → ((v : V) → Accepts P (f v))
    → Accepts P (elim m [ none ↦ d | some v ↦ f v ])
Accepts-option P none d f h each = h
Accepts-option P (some v) d f h each = each v

abbrev pub IsNamed : Text → Type 0
IsNamed t = is_empty t ≡ false

abbrev pub IsCount : ℕ → Type 0
IsCount n = (1 ≤ n) × (n < 2 ^ 64)

abbrev pub IsScope : Option Text → Type 0
IsScope none = Unit
IsScope (some scope) = is_empty scope ≡ false

module _ {F G : Type 0} (f64 : FloatOps F) (f32 : FloatOps G) (narrow : F → G) where
  -- The lowest relevance is the default, or the narrowed form of a number from 0.0 to 1.0.
  abbrev pub IsRelevance : G → Type 0
  IsRelevance g =
      (g ≡ f32.literal 5 10)
      ⊎ ((raw : F) × (f64.le (f64.literal 0 1) raw ≡ true)
          × (f64.le raw (f64.literal 1 1) ≡ true)
          × (g ≡ narrow raw))

  abbrev pub IsRequest : ContextToolRequest G → Type 0
  IsRequest r =
      IsNamed r.query
      × IsNamed r.path
      × IsCount r.token_budget
      × IsCount r.max_files
      × IsRelevance r.min_relevance
      × IsScope r.scope

  parse_text_arg-Accepts :
      (args : List (Text × Value F)) (name : Text)
      → Accepts IsNamed (parse_text_arg f64 f32 narrow args name)
  unfolding parse_text_arg
  parse_text_arg-Accepts args name =
      Accepts-option IsNamed (as_str f64 f32 narrow (get f64 f32 narrow args name)) _ _ tt
        (λ raw. nonempty-Accepts _ (trim raw))

  positive_usize-Accepts :
      (name : Text) (v : Value F) → Accepts IsCount (positive_usize f64 f32 narrow name v)
  unfolding positive_usize
  positive_usize-Accepts name (Value.number (some raw) x) = elim (Bool-cases (raw == 0)) [
    | inl e ↦ rw e tt
    | inr e ↦ elim (Bool-cases (ltb raw (2 ^ 64))) [
      | inl fits ↦ rw (e, fits) (ground arith, ground arith)
      | inr large ↦ rw (e, large) tt
    ]
  ]
  positive_usize-Accepts name (Value.number none x) = tt
  positive_usize-Accepts name Value.null = tt
  positive_usize-Accepts name (Value.bool b) = tt
  positive_usize-Accepts name (Value.string t) = tt
  positive_usize-Accepts name (Value.array vs) = tt
  positive_usize-Accepts name Value.object = tt

  parse_positive_usize_arg-Accepts :
      (args : List (Text × Value F)) (name : Text) (default : ℕ)
      → IsCount default
      → Accepts IsCount (parse_positive_usize_arg f64 f32 narrow args name default)
  unfolding parse_positive_usize_arg
  parse_positive_usize_arg-Accepts args name default h =
      Accepts-option IsCount (get f64 f32 narrow args name) _ _ h (positive_usize-Accepts name)

  relevance-Accepts : (v : Value F) → Accepts IsRelevance (relevance f64 f32 narrow v)
  unfolding relevance
  relevance-Accepts (Value.number u raw) = elim (Bool-cases (f64.le (f64.literal 0 1) raw)) [
    | inr e ↦ rw e tt
    | inl low ↦ elim (Bool-cases (f64.le raw (f64.literal 1 1))) [
      | inr e ↦ rw (low, e) tt
      | inl high ↦ rw (low, high) (inr (raw, low, high, refl))
    ]
  ]
  relevance-Accepts Value.null = tt
  relevance-Accepts (Value.bool b) = tt
  relevance-Accepts (Value.string t) = tt
  relevance-Accepts (Value.array vs) = tt
  relevance-Accepts Value.object = tt

  parse_min_relevance-Accepts :
      (args : List (Text × Value F)) → Accepts IsRelevance (parse_min_relevance f64 f32 narrow args)
  unfolding parse_min_relevance
  parse_min_relevance-Accepts args =
      Accepts-option IsRelevance (get f64 f32 narrow args (codes "min_relevance")) _ _ (inl refl)
        relevance-Accepts

  scope_of-Accepts : (v : Value F) → Accepts IsScope (scope_of f64 f32 narrow v)
  unfolding scope_of
  scope_of-Accepts (Value.string raw) = elim (Bool-cases (is_empty (normalize_scope raw))) [
    | inl e ↦ rw e tt
    | inr e ↦ rw e e
  ]
  scope_of-Accepts Value.null = tt
  scope_of-Accepts (Value.bool b) = tt
  scope_of-Accepts (Value.number u x) = tt
  scope_of-Accepts (Value.array vs) = tt
  scope_of-Accepts Value.object = tt

  parse_scope-Accepts :
      (args : List (Text × Value F)) → Accepts IsScope (parse_scope f64 f32 narrow args)
  unfolding parse_scope
  parse_scope-Accepts args =
      Accepts-option IsScope (get f64 f32 narrow args (codes "scope")) _ _ tt scope_of-Accepts

  parse_bool_arg-Accepts :
      (args : List (Text × Value F)) (name : Text) (default : Bool)
      → Accepts (λ (b : Bool). Unit) (parse_bool_arg f64 f32 narrow args name default)
  parse_bool_arg-Accepts args name default =
      Accepts-any (parse_bool_arg f64 f32 narrow args name default)

  -- Whatever a client sends, a context request that is accepted has a query, a path and, where it
  -- has a scope, one that is not empty, a token budget and a limit of files from 1 to 2^64 - 1, and
  -- a lowest relevance that is the default or the narrowed form of a number from 0.0 to 1.0.
  pub parse_context_tool_request-IsRequest :
      (args : Option (List (Text × Value F)))
      → Accepts IsRequest (parse_context_tool_request f64 f32 narrow args)
  unfolding parse_context_tool_request parse_path_arg
  parse_context_tool_request-IsRequest none = tt
  parse_context_tool_request-IsRequest (some args) =
      Accepts-bind IsNamed IsRequest _ _ (parse_text_arg-Accepts args (codes "query"))
        λ query query_h.
          Accepts-bind IsNamed IsRequest _ _ (parse_text_arg-Accepts args (codes "path"))
            λ path path_h.
              Accepts-bind IsCount IsRequest _ _
                (parse_positive_usize_arg-Accepts args (codes "token_budget") 8000
                  (omega arith, omega arith))
                λ budget budget_h.
                  Accepts-bind IsCount IsRequest _ _
                    (parse_positive_usize_arg-Accepts args (codes "max_files") 10
                      (omega arith, omega arith))
                    λ files files_h.
                      Accepts-bind (λ (b : Bool). Unit) IsRequest _ _
                        (parse_bool_arg-Accepts args (codes "include_related") true)
                        λ related _.
                          Accepts-bind IsRelevance IsRequest _ _ (parse_min_relevance-Accepts args)
                            λ lowest lowest_h.
                              Accepts-bind (λ (b : Bool). Unit) IsRequest _ _
                                (parse_bool_arg-Accepts args (codes "include_docs") true)
                                λ docs _.
                                  Accepts-bind (λ (b : Bool). Unit) IsRequest _ _
                                    (parse_bool_arg-Accepts args (codes "bypass_cache") false)
                                    λ bypass _.
                                      Accepts-bind IsScope IsRequest _ _ (parse_scope-Accepts args)
                                        λ scope scope_h.
                                          let request_h : IsNamed query
                                              × IsNamed path
                                              × IsCount budget
                                              × IsCount files
                                              × IsRelevance lowest
                                              × IsScope scope =
                                            (
                                              query_h, path_h, budget_h, files_h, lowest_h, scope_h,
                                            ) in
                                          request_h
