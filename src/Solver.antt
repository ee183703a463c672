-- ===== src/Solver.antt =====
-- receiver/information/solver_state.py: the equations of one generation and their elimination.
-- `Rows` has the dictionaries of terms, `Reduce` the reduction of one row, `Solve` the loop over
-- the pivot rows, `State` the solver's state and its operations; the other modules prove.
pub mod Rows
pub mod Reduce
pub mod Solve
pub mod State
