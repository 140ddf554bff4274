-- ===== src/Authz/TokenFree/Syntax.antt =====
-- authz/token_free.py: the constructs of a parsed condition. An optional part of a construct is a
-- constructor of its own: `array` and `empty_array`, `index` and `each`, `try_catch` and `try_only`.
use tai_skeleton.Base.{ℕ, Text, Option, none, some}

mutual
  pub data Node : Type 0 where
    root : ℕ → Node
    constant : ℕ → Node
    string : ℕ → Text → Nodes → Node
    variable : ℕ → Text → Node
    projection : ℕ → Node → Suffixes → Node
    call : ℕ → Text → Nodes → Node
    binary : ℕ → Text → Node → Node → Node
    negate : ℕ → Node → Node
    bind : ℕ → Node → Text → Node → Node
    try_only : ℕ → Node → Node
    try_catch : ℕ → Node → Node → Node
    object : ℕ → Nodes → Node
    empty_array : ℕ → Node
    array : ℕ → Node → Node

  pub data Nodes : Type 0 where
    no_nodes : Nodes
    node : Node → Nodes → Nodes

  pub data Suffix : Type 0 where
    field : ℕ → Text → Suffix
    each : ℕ → Suffix
    index : ℕ → Node → Suffix
    optional : ℕ → Suffix

  pub data Suffixes : Type 0 where
    no_suffixes : Suffixes
    suffix : Suffix → Suffixes → Suffixes

-- the text of a string literal without interpolations
unfoldable pub literal_text : Node → Option Text
literal_text (string p value no_nodes) = some value
literal_text _ = none

-- _static_name
unfoldable pub static_name : Suffix → Option Text
static_name (field p name) = some name
static_name (index p key) = literal_text key
static_name _ = none
