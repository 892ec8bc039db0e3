-- ===== src/Matrix/Syntax.antt =====
-- internal/matrix/dsl.go: node. A parsed expression refers to a set by its name; in a linked one the
-- reference holds the root of that set, which compilation makes of the pointer `ref`.
use llama_swap_macos_extende.Prelude.{String}

mutual
  pub data Node : Type 0 where
    leaf : String → Node
    ref : String → Node
    and_of : Nodes → Node
    or_of : Nodes → Node

  pub data Nodes : Type 0 where
    no_nodes : Nodes
    node : Node → Nodes → Nodes

mutual
  pub data Linked : Type 0 where
    model : String → Linked
    set_of : Linked → Linked
    every : Links → Linked
    either : Links → Linked

  pub data Links : Type 0 where
    no_links : Links
    link : Linked → Links → Links
