-- ===== src/Matrix.antt =====
-- internal/matrix: the planner of the swap matrix, from its expressions to its decisions.
pub mod Masks
pub mod Syntax
pub mod Dsl
pub mod Evaluate
pub mod Program
pub mod Compile
mod Examples
